-- ===== src/Runtime/Bridge/Snapshot.antt =====
-- core/runtime/shell_bridge_presenter: the event that tells the admin page the state of the shell.
-- The library's conversions between wide texts and UTF-8 are parameters.
use p2p_desktop_share_new.Base.{ℕ, String, Bool, true, false, List, [], ◌∷◌, ◌++◌}
use p2p_desktop_share_new.Base.Int.{ℤ, at_least}
use p2p_desktop_share_new.Base.Text.{Text, codes}
use p2p_desktop_share_new.Runtime.Bridge.Json.{
  append_json_string, append_json_bool, append_json_int,
}

pub record ShellBridgeAdapterCandidate : Type 0 where
  pub name : Text
  pub ip : Text
  pub type : Text
  pub recommended : Bool
  pub selected : Bool
  pub probe_ready : Bool
  pub probe_label : Text
  pub probe_detail : Text

pub record ShellBridgeSnapshotState : Type 0 where
  pub locale_code : Text
  pub app_name : Text
  pub native_page : Text
  pub dashboard_state : Text
  pub dashboard_label : Text
  pub dashboard_error : Text
  pub can_start_sharing : Bool
  pub sharing_active : Bool
  pub server_running : Bool
  pub health_ready : Bool
  pub host_reachable : Bool
  pub firewall_ready : Bool
  pub firewall_detail : Text
  pub remote_viewer_ready : Bool
  pub remote_viewer_detail : Text
  pub remote_probe_label : Text
  pub remote_probe_action : Text
  pub wifi_adapter_present : Bool
  pub hotspot_supported : Bool
  pub hotspot_running : Bool
  pub wifi_direct_available : Bool
  pub active_ipv4_candidates : ℤ
  pub port : ℤ
  pub rooms : ℕ
  pub viewers : ℕ
  pub host_ip : Text
  pub bind : Text
  pub room : Text
  pub token : Text
  pub host_url : Text
  pub viewer_url : Text
  pub network_mode : Text
  pub host_state : Text
  pub capture_state : Text
  pub capture_label : Text
  pub hotspot_status : Text
  pub hotspot_ssid : Text
  pub hotspot_password : Text
  pub webview_status : Text
  pub recent_heartbeat : Text
  pub local_reachability : Text
  pub output_dir : Text
  pub bundle_dir : Text
  pub server_exe_path : Text
  pub admin_dir : Text
  pub timeline_text : Text
  pub log_tail : Text
  pub viewer_url_copied : Bool
  pub share_bundle_exported : Bool
  pub share_wizard_opened : Bool
  pub handoff_started : Bool
  pub handoff_delivered : Bool
  pub handoff_state : Text
  pub handoff_label : Text
  pub handoff_detail : Text
  pub last_error : Text
  pub network_candidates : List ShellBridgeAdapterCandidate
  pub default_port : ℤ
  pub default_bind : Text
  pub room_rule : Text
  pub token_rule : Text
  pub log_level : Text
  pub default_viewer_open_mode : Text
  pub auto_copy_viewer_link : Bool
  pub auto_generate_qr : Bool
  pub auto_export_bundle : Bool
  pub save_std_streams : Bool
  pub webview_behavior : Text
  pub startup_hook : Text

-- One `AppendJson...` of the event.
pub data SnapshotMember : Type 0 where
  text_member : String → Text → SnapshotMember
  flag_member : String → Bool → SnapshotMember
  number_member : String → ℕ → SnapshotMember

-- The members of the payload before the candidates, in their order.
unfoldable pub snapshot_members : ShellBridgeSnapshotState → List SnapshotMember
snapshot_members snapshot =
    text_member "locale" snapshot.locale_code
    ∷ text_member "app" snapshot.app_name
    ∷ text_member "nativePage" snapshot.native_page
    ∷ text_member "dashboardState" snapshot.dashboard_state
    ∷ text_member "dashboardLabel" snapshot.dashboard_label
    ∷ text_member "dashboardError" snapshot.dashboard_error
    ∷ flag_member "canStartSharing" snapshot.can_start_sharing
    ∷ flag_member "sharingActive" snapshot.sharing_active
    ∷ flag_member "serverRunning" snapshot.server_running
    ∷ flag_member "healthReady" snapshot.health_ready
    ∷ flag_member "hostReachable" snapshot.host_reachable
    ∷ flag_member "firewallReady" snapshot.firewall_ready
    ∷ text_member "firewallDetail" snapshot.firewall_detail
    ∷ flag_member "remoteViewerReady" snapshot.remote_viewer_ready
    ∷ text_member "remoteViewerDetail" snapshot.remote_viewer_detail
    ∷ text_member "remoteProbeLabel" snapshot.remote_probe_label
    ∷ text_member "remoteProbeAction" snapshot.remote_probe_action
    ∷ flag_member "wifiAdapterPresent" snapshot.wifi_adapter_present
    ∷ flag_member "hotspotSupported" snapshot.hotspot_supported
    ∷ flag_member "hotspotRunning" snapshot.hotspot_running
    ∷ flag_member "wifiDirectAvailable" snapshot.wifi_direct_available
    ∷ number_member "activeIpv4Candidates" (at_least 0 snapshot.active_ipv4_candidates)
    ∷ number_member "port" (at_least 0 snapshot.port)
    ∷ number_member "rooms" snapshot.rooms
    ∷ number_member "viewers" snapshot.viewers
    ∷ text_member "hostIp" snapshot.host_ip
    ∷ text_member "bind" snapshot.bind
    ∷ text_member "room" snapshot.room
    ∷ text_member "token" snapshot.token
    ∷ text_member "hostUrl" snapshot.host_url
    ∷ text_member "viewerUrl" snapshot.viewer_url
    ∷ text_member "networkMode" snapshot.network_mode
    ∷ text_member "hostState" snapshot.host_state
    ∷ text_member "captureState" snapshot.capture_state
    ∷ text_member "captureLabel" snapshot.capture_label
    ∷ text_member "hotspotStatus" snapshot.hotspot_status
    ∷ text_member "hotspotSsid" snapshot.hotspot_ssid
    ∷ text_member "hotspotPassword" snapshot.hotspot_password
    ∷ text_member "webviewStatus" snapshot.webview_status
    ∷ text_member "recentHeartbeat" snapshot.recent_heartbeat
    ∷ text_member "localReachability" snapshot.local_reachability
    ∷ text_member "outputDir" snapshot.output_dir
    ∷ text_member "bundleDir" snapshot.bundle_dir
    ∷ text_member "serverExePath" snapshot.server_exe_path
    ∷ text_member "adminDir" snapshot.admin_dir
    ∷ text_member "timelineText" snapshot.timeline_text
    ∷ text_member "logTail" snapshot.log_tail
    ∷ flag_member "viewerUrlCopied" snapshot.viewer_url_copied
    ∷ flag_member "shareBundleExported" snapshot.share_bundle_exported
    ∷ flag_member "shareWizardOpened" snapshot.share_wizard_opened
    ∷ flag_member "handoffStarted" snapshot.handoff_started
    ∷ flag_member "handoffDelivered" snapshot.handoff_delivered
    ∷ text_member "handoffState" snapshot.handoff_state
    ∷ text_member "handoffLabel" snapshot.handoff_label
    ∷ text_member "handoffDetail" snapshot.handoff_detail
    ∷ text_member "lastError" snapshot.last_error
    ∷ number_member "defaultPort" (at_least 0 snapshot.default_port)
    ∷ text_member "defaultBind" snapshot.default_bind
    ∷ text_member "roomRule" snapshot.room_rule
    ∷ text_member "tokenRule" snapshot.token_rule
    ∷ text_member "logLevel" snapshot.log_level
    ∷ text_member "defaultViewerOpenMode" snapshot.default_viewer_open_mode
    ∷ flag_member "autoCopyViewerLink" snapshot.auto_copy_viewer_link
    ∷ flag_member "autoGenerateQr" snapshot.auto_generate_qr
    ∷ flag_member "autoExportBundle" snapshot.auto_export_bundle
    ∷ flag_member "saveStdStreams" snapshot.save_std_streams
    ∷ text_member "webViewBehavior" snapshot.webview_behavior
    ∷ text_member "startupHook" snapshot.startup_hook
    ∷ []

-- The members of a candidate; the last one has no comma behind it.
unfoldable pub candidate_members : ShellBridgeAdapterCandidate → List SnapshotMember
candidate_members candidate =
    text_member "name" candidate.name
    ∷ text_member "ip" candidate.ip
    ∷ text_member "type" candidate.type
    ∷ flag_member "recommended" candidate.recommended
    ∷ flag_member "selected" candidate.selected
    ∷ flag_member "probeReady" candidate.probe_ready
    ∷ text_member "probeLabel" candidate.probe_label
    ∷ []

unfoldable pub last_member : ShellBridgeAdapterCandidate → SnapshotMember
last_member candidate = text_member "probeDetail" candidate.probe_detail

module _ (to_utf8 : Text → Text) where
  unfoldable pub write_member : SnapshotMember → Bool → Text
  write_member (text_member key value) trailing =
      append_json_string to_utf8 (codes key) value trailing
  write_member (flag_member key value) trailing = append_json_bool (codes key) value trailing
  write_member (number_member key value) trailing = append_json_int (codes key) value trailing

  unfoldable pub write_members : List SnapshotMember → Text
  write_members [] = []
  write_members (m ∷ ms) = write_member m true ++ write_members ms

  unfoldable pub write_candidate : ShellBridgeAdapterCandidate → Text
  write_candidate candidate =
      b'{'
      ∷ (write_members (candidate_members candidate)
          ++ (write_member (last_member candidate) false ++ b'}' ∷ []))

  unfoldable pub write_more : List ShellBridgeAdapterCandidate → Text
  write_more [] = []
  write_more (candidate ∷ candidates) = b',' ∷ (write_candidate candidate ++ write_more candidates)

  unfoldable pub write_candidates : List ShellBridgeAdapterCandidate → Text
  write_candidates [] = []
  write_candidates (candidate ∷ candidates) = write_candidate candidate ++ write_more candidates

  -- The bytes of the event.
  unfoldable pub snapshot_bytes : ShellBridgeSnapshotState → Text
  snapshot_bytes snapshot =
      b'{'
      ∷ (write_member (text_member "type" (codes "event")) true
          ++ (write_member (text_member "name" (codes "state.snapshot")) true
              ++ (codes "\"payload\":{"
                  ++ (write_members (snapshot_members snapshot)
                      ++ (codes "\"networkCandidates\":["
                          ++ (write_candidates snapshot.network_candidates
                              ++ (codes "],"
                                  ++ (write_member
                                        (text_member "lastErrorSummary" snapshot.last_error) false
                                      ++ codes "}}"))))))))

-- `BuildShellBridgeSnapshotEventJson`.
pub build_shell_bridge_snapshot_event_json :
    (to_utf8 from_utf8 : Text → Text) → ShellBridgeSnapshotState → Text
build_shell_bridge_snapshot_event_json to_utf8 from_utf8 snapshot =
    from_utf8 (snapshot_bytes to_utf8 snapshot)
