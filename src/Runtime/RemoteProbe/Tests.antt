-- ===== src/Runtime/RemoteProbe/Tests.antt =====
-- The advice on a small example: the selected interface is silent, another one answers.
use p2p_desktop_share_new.Base.{true, false, [], ◌∷◌}
use p2p_desktop_share_new.Base.Text.{codes}
use p2p_desktop_share_new.Runtime.RemoteProbe.{RemoteProbeCandidateInput, build_remote_probe_plan}
use p2p_desktop_share_new.Runtime.RemoteProbe.Advice.{Honest, plan-Honest}

abbrev silent : RemoteProbeCandidateInput
silent = record {
  name = codes "eth0";
  ip = codes "10.0.0.2";
  type_name = codes "lan";
  recommended = false;
  selected = true;
  probe_ready = false;
  probe_detail = [];
}

abbrev answering : RemoteProbeCandidateInput
answering = record {
  name = codes "wlan0";
  ip = codes "10.0.1.2";
  type_name = codes "wifi";
  recommended = true;
  selected = false;
  probe_ready = true;
  probe_detail = [];
}

plan-Honest_example :
    Honest (silent ∷ answering ∷ []) (build_remote_probe_plan (silent ∷ answering ∷ []))
plan-Honest_example = plan-Honest (silent ∷ answering ∷ [])
