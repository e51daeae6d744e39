-- ===== src/Runtime/Observability/Tests.antt =====
-- The log and the timeline on small states.
use p2p_desktop_share_new.Base.{false, some, List, [], ◌∷◌, arith}
use p2p_desktop_share_new.Base.Int.{pos}
use p2p_desktop_share_new.Base.Text.{codes}
use p2p_desktop_share_new.Runtime.Bridge.Inbound.{
  ShellBridgeInboundMessage, host_page, host_status, empty_message,
}
use p2p_desktop_share_new.Runtime.Observability.{HostObservabilityState}
use p2p_desktop_share_new.Runtime.Observability.Bounds.{
  Bounded, HostEvent, line_logged, server_polled, status_received, observe_all, observe_all-Bounded,
}

abbrev fresh : HostObservabilityState
fresh = record {
  log_text = [];
  timeline_text = [];
  last_error_summary = [];
  host_page_state = codes "idle";
  capture_state = codes "idle";
  capture_label = [];
  last_rooms = 0;
  last_viewers = 0;
  handoff_delivered = false;
  log_entries = [];
}

abbrev sharing : ShellBridgeInboundMessage
sharing = record (empty_message host_page host_status []) {
  host_state = codes "sharing";
  viewers = some 1;
}

abbrev events : List HostEvent
events =
    line_logged (codes "t1") (codes "server failed")
    ∷ status_received (codes "t2") sharing
    ∷ server_polled (codes "t3") (pos 200) 1 1
    ∷ []

observe_all-Bounded_example : Bounded (observe_all fresh events)
observe_all-Bounded_example =
    observe_all-Bounded fresh events (omega arith, omega arith, omega arith)
