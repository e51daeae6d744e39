-- ===== src/Runtime/Bridge/Commands.antt =====
-- core/runtime/shell_bridge_presenter: the commands of the admin page.
use p2p_desktop_share_new.Base.{List, [], ◌∷◌, if◌then◌else◌}
use p2p_desktop_share_new.Base.Text.{Text, codes, text_eq}

-- Constructors end in `_command` where a host action has the name.
pub data ShellBridgeAdminCommandKind : Type 0 where
  no_command : ShellBridgeAdminCommandKind
  refresh_network generate_room_token apply_session : ShellBridgeAdminCommandKind
  start_server_command stop_server_command service_only : ShellBridgeAdminCommandKind
  start_and_open_host_command open_host open_viewer : ShellBridgeAdminCommandKind
  copy_host_url copy_viewer_url export_bundle : ShellBridgeAdminCommandKind
  open_output open_report refresh_bundle : ShellBridgeAdminCommandKind
  show_share_wizard_command show_qr_command quick_fix_network : ShellBridgeAdminCommandKind
  quick_fix_sharing quick_fix_handoff quick_fix_hotspot : ShellBridgeAdminCommandKind
  select_adapter apply_hotspot start_hotspot : ShellBridgeAdminCommandKind
  stop_hotspot auto_hotspot open_hotspot_settings : ShellBridgeAdminCommandKind
  open_firewall_settings run_network_diagnostics check_webview_runtime : ShellBridgeAdminCommandKind
  export_remote_probe_guide open_connected_devices switch_page : ShellBridgeAdminCommandKind
  set_language : ShellBridgeAdminCommandKind

-- The `if` ladder of `ParseAdminCommandKind`, row by row.
abbrev pub admin_commands : List (Text × ShellBridgeAdminCommandKind)
admin_commands =
    (codes "refresh-network", refresh_network)
    ∷ (codes "generate-room-token", generate_room_token)
    ∷ (codes "apply-session", apply_session)
    ∷ (codes "start-server", start_server_command)
    ∷ (codes "stop-server", stop_server_command)
    ∷ (codes "service-only", service_only)
    ∷ (codes "start-and-open-host", start_and_open_host_command)
    ∷ (codes "open-host", open_host)
    ∷ (codes "open-viewer", open_viewer)
    ∷ (codes "copy-host-url", copy_host_url)
    ∷ (codes "copy-viewer-url", copy_viewer_url)
    ∷ (codes "export-bundle", export_bundle)
    ∷ (codes "open-output", open_output)
    ∷ (codes "open-report", open_report)
    ∷ (codes "refresh-bundle", refresh_bundle)
    ∷ (codes "show-share-wizard", show_share_wizard_command)
    ∷ (codes "show-qr", show_qr_command)
    ∷ (codes "quick-fix-network", quick_fix_network)
    ∷ (codes "quick-fix-sharing", quick_fix_sharing)
    ∷ (codes "quick-fix-handoff", quick_fix_handoff)
    ∷ (codes "quick-fix-hotspot", quick_fix_hotspot)
    ∷ (codes "select-adapter", select_adapter)
    ∷ (codes "apply-hotspot", apply_hotspot)
    ∷ (codes "start-hotspot", start_hotspot)
    ∷ (codes "stop-hotspot", stop_hotspot)
    ∷ (codes "auto-hotspot", auto_hotspot)
    ∷ (codes "open-hotspot-settings", open_hotspot_settings)
    ∷ (codes "open-firewall-settings", open_firewall_settings)
    ∷ (codes "run-network-diagnostics", run_network_diagnostics)
    ∷ (codes "check-webview-runtime", check_webview_runtime)
    ∷ (codes "export-remote-probe-guide", export_remote_probe_guide)
    ∷ (codes "open-connected-devices", open_connected_devices)
    ∷ (codes "switch-page", switch_page)
    ∷ (codes "set-language", set_language)
    ∷ []

unfoldable pub command_in :
    List (Text × ShellBridgeAdminCommandKind) → Text → ShellBridgeAdminCommandKind
command_in [] command = no_command
command_in ((name, kind) ∷ rows) command =
    if text_eq command name then kind else command_in rows command

-- `ParseAdminCommandKind`.
unfoldable pub parse_admin_command_kind : Text → ShellBridgeAdminCommandKind
parse_admin_command_kind command = command_in admin_commands command
