-- ===== src/Runtime/Bridge/Tests.antt =====
-- The bridge's reader and writer on small texts.
use p2p_desktop_share_new.Base.{true, false, [], ◌∷◌, ◌++◌, some, ◌≡◌, refl}
use p2p_desktop_share_new.Base.Text.{Text, codes, find_after, starts_with, skip_space}
use p2p_desktop_share_new.Base.Decimal.{number_of}
use p2p_desktop_share_new.Runtime.Bridge.Json.{
  append_json_string, json_string_field, json_int_field, read_string, unescape, take_digits,
  escape_byte, json_escape_utf8, hex_digit,
}
use p2p_desktop_share_new.Base.Int.{pos, negsuc}
use p2p_desktop_share_new.Runtime.Bridge.Snapshot.{
  ShellBridgeAdapterCandidate, ShellBridgeSnapshotState, snapshot_bytes,
}
use p2p_desktop_share_new.Runtime.Bridge.Shape.{outside, scan, shape}
use p2p_desktop_share_new.Runtime.Bridge.Event.{snapshot-shape}
use p2p_desktop_share_new.Runtime.Bridge.RoundTrip.{json_string_field-plain}

abbrev same_bytes : Text → Text
same_bytes bytes = bytes

-- The front of the field: another field, whose value has the key in escaped quotes.
abbrev before_room : Text
before_room = b'{' ∷ append_json_string same_bytes (codes "name") (codes "my \"room\"") true

json_string_field-plain_example :
    json_string_field
      (before_room
        ++ (append_json_string same_bytes (codes "room") (codes "a\"\n") true ++ codes "}"))
      (codes "room")
    ≡ codes "a\"\n"
unfolding append_json_string json_escape_utf8 escape_byte find_after starts_with
json_string_field-plain_example =
    json_string_field-plain same_bytes before_room (codes "room") (codes "a\"\n") (codes "}") true
      refl refl (refl, (refl, (refl, tt)))

-- A value that is spelled like the key is taken for the key: the field behind it is read.
value_for_key :
    json_string_field (codes "{\"a\":\"b\",\"x\":\"y\",\"b\":\"c\"}") (codes "b") ≡ codes "y"
unfolding json_string_field find_after starts_with skip_space read_string unescape
value_for_key = refl

reads_number : json_int_field 4294967295 (codes "{\"port\": 9443}") (codes "port") ≡ some 9443
unfolding json_int_field find_after starts_with skip_space take_digits number_of
reads_number = refl

-- A control code comes back as letters.
control_code :
    json_string_field (append_json_string same_bytes (codes "k") (1 ∷ []) true) (codes "k")
    ≡ codes "u0001"
unfolding json_string_field append_json_string json_escape_utf8 escape_byte hex_digit find_after
    starts_with skip_space read_string unescape
control_code = refl

abbrev wired : ShellBridgeAdapterCandidate
wired = record {
  name = codes "eth\"0";
  ip = codes "10.0.0.2";
  type = [];
  recommended = true;
  selected = false;
  probe_ready = false;
  probe_label = [];
  probe_detail = [];
}

abbrev quotes_in_texts : ShellBridgeSnapshotState
quotes_in_texts = record {
  locale_code = [];
  app_name = [];
  native_page = [];
  dashboard_state = [];
  dashboard_label = [];
  dashboard_error = [];
  can_start_sharing = true;
  sharing_active = true;
  server_running = true;
  health_ready = true;
  host_reachable = true;
  firewall_ready = true;
  firewall_detail = [];
  remote_viewer_ready = true;
  remote_viewer_detail = [];
  remote_probe_label = [];
  remote_probe_action = [];
  wifi_adapter_present = true;
  hotspot_supported = true;
  hotspot_running = true;
  wifi_direct_available = true;
  active_ipv4_candidates = negsuc 0;
  port = pos 9443;
  rooms = 0;
  viewers = 0;
  host_ip = [];
  bind = [];
  room = codes "a\"b";
  token = [];
  host_url = [];
  viewer_url = [];
  network_mode = [];
  host_state = [];
  capture_state = [];
  capture_label = [];
  hotspot_status = [];
  hotspot_ssid = [];
  hotspot_password = [];
  webview_status = [];
  recent_heartbeat = [];
  local_reachability = [];
  output_dir = [];
  bundle_dir = [];
  server_exe_path = [];
  admin_dir = [];
  timeline_text = [];
  log_tail = codes "}]\\";
  viewer_url_copied = true;
  share_bundle_exported = true;
  share_wizard_opened = true;
  handoff_started = true;
  handoff_delivered = true;
  handoff_state = [];
  handoff_label = [];
  handoff_detail = [];
  last_error = [];
  network_candidates = wired ∷ [];
  default_port = pos 9443;
  default_bind = [];
  room_rule = [];
  token_rule = [];
  log_level = [];
  default_viewer_open_mode = [];
  auto_copy_viewer_link = true;
  auto_generate_qr = true;
  auto_export_bundle = true;
  save_std_streams = true;
  webview_behavior = [];
  startup_hook = [];
}

abbrev no_bytes : Text → Text
no_bytes bytes = []

snapshot-shape_example :
    (scan outside (snapshot_bytes same_bytes quotes_in_texts) ≡ outside)
    × (shape outside (snapshot_bytes same_bytes quotes_in_texts)
        ≡ shape outside (snapshot_bytes no_bytes quotes_in_texts))
snapshot-shape_example = snapshot-shape same_bytes no_bytes quotes_in_texts
