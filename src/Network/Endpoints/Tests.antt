-- ===== src/Network/Endpoints/Tests.antt =====
-- The selection of an address on small examples.
use p2p_desktop_share_new.Base.{true, false, some, [], ◌∷◌, ◌≡◌, refl}
use p2p_desktop_share_new.Base.Int.{pos}
use p2p_desktop_share_new.Base.Text.{codes, text_eq}
use p2p_desktop_share_new.Network.Entries.{
  is_auto_endpoint_value, trim_network_text, trim_end, trim_start, to_lower,
}
use p2p_desktop_share_new.Network.Endpoints.{
  EndpointProbeCandidate, EndpointProbeResult, EndpointSelectionRequest, best_loop,
  resolve_endpoint_selection, select_preferred_network_info,
}
use p2p_desktop_share_new.Network.Endpoints.Best.{Selected, best_loop-Selected}
use p2p_desktop_share_new.Network.Endpoints.Resolved.{Discovered, resolve-Discovered}

abbrev wifi : EndpointProbeCandidate
wifi = record {
  interface_name = codes "wlan0";
  interface_description = [];
  mode = codes "lan";
  host_ip = codes "192.168.1.20";
  is_up = true;
  is_running = true;
  is_loopback = false;
  is_tunnel = false;
  is_virtual = false;
  is_private_ipv4 = true;
  is_apipa = false;
  has_gateway = true;
  is_wifi = true;
  ipv4_enabled = true;
  score_adjustment = pos 0;
}

abbrev loopback : EndpointProbeCandidate
loopback = record wifi { interface_name = codes "lo"; is_loopback = true; is_wifi = false }

abbrev probe : EndpointProbeResult
probe = record { candidates = wifi ∷ []; detail = [] }

abbrev automatic : EndpointSelectionRequest
automatic = record { bind_address = []; advertise_address = [] }

best_loop-Selected_example : Selected (loopback ∷ wifi ∷ [])
best_loop-Selected_example = best_loop-Selected (loopback ∷ wifi ∷ [])

-- With nothing asked for and one interface probed, its address is advertised.
resolve-Discovered_example :
    (is_auto_endpoint_value [] ≡ true)
    × ((p : EndpointProbeResult) × (some probe ≡ some p)
        × Discovered p (resolve_endpoint_selection automatic (some probe)))
unfolding resolve_endpoint_selection select_preferred_network_info best_loop is_auto_endpoint_value
    trim_network_text trim_end trim_start to_lower text_eq
resolve-Discovered_example = resolve-Discovered automatic (some probe) refl
