-- ===== src/Runtime/AdminShell.antt =====
-- core/runtime/admin_shell_coordinator: what a message of the admin page makes the shell do. A hook
-- is a callback of the shell that may be unset; the calls of hooks are listed in their order.
pub mod Handled
pub mod Served
mod Tests
use p2p_desktop_share_new.Base.{
  ℕ, Bool, true, false, not, ◌&&◌, Option, none, some, List, [], ◌∷◌, ◌++◌, if◌then◌else◌,
}
use p2p_desktop_share_new.Base.Text.{Text, codes, text_eq}
use p2p_desktop_share_new.Runtime.Actions.{
  HostActionKind, start_server, stop_server, start_service_only, start_and_open_host,
  open_host_page, open_viewer_page, show_qr, show_share_wizard, export_share_bundle,
  refresh_diagnostics_bundle, open_diagnostics_report, open_output_folder,
}
use p2p_desktop_share_new.Runtime.Bridge.Commands.{
  ShellBridgeAdminCommandKind, no_command, refresh_network, generate_room_token, apply_session,
  start_server_command, stop_server_command, service_only, start_and_open_host_command, open_host,
  open_viewer, copy_host_url, copy_viewer_url, export_bundle, open_output, open_report,
  refresh_bundle, show_share_wizard_command, show_qr_command, quick_fix_network, quick_fix_sharing,
  quick_fix_handoff, quick_fix_hotspot, select_adapter, apply_hotspot, start_hotspot, stop_hotspot,
  auto_hotspot, open_hotspot_settings, open_firewall_settings, run_network_diagnostics,
  check_webview_runtime, export_remote_probe_guide, open_connected_devices, switch_page,
  set_language,
}
use p2p_desktop_share_new.Runtime.Bridge.Inbound.{
  ShellBridgeSource, unknown_source, admin_shell, host_page, ShellBridgeInboundKind, no_message,
  admin_ready, admin_request_snapshot, admin_command, host_status, host_log, unknown_message,
  ShellBridgeAdminCommand, ShellBridgeInboundMessage,
}

pub record AdminShellSessionRequest : Type 0 where
  pub room : Text
  pub token : Text
  pub bind_address : Text
  pub port : ℕ

pub record AdminShellHotspotRequest : Type 0 where
  pub ssid : Text
  pub password : Text

-- The members of `AdminShellCoordinatorHooks`; `HooksSet` says which of them are set.
pub data AdminShellHook : Type 0 where
  refresh_runtime_hook generate_room_token_hook apply_session_config_hook : AdminShellHook
  apply_hotspot_config_hook execute_host_action_hook copy_host_url_hook : AdminShellHook
  copy_viewer_url_hook quick_fix_network_hook quick_fix_sharing_hook : AdminShellHook
  quick_fix_handoff_hook quick_fix_hotspot_hook select_network_candidate_hook : AdminShellHook
  start_hotspot_hook stop_hotspot_hook auto_hotspot_hook : AdminShellHook
  open_hotspot_settings_hook open_firewall_settings_hook : AdminShellHook
  run_network_diagnostics_hook check_webview_runtime_hook : AdminShellHook
  export_remote_probe_guide_hook open_connected_devices_hook : AdminShellHook
  navigate_page_hook set_language_hook : AdminShellHook

abbrev pub HooksSet : Type 0
HooksSet = AdminShellHook → Bool

-- A call of a hook, with its argument.
pub data AdminShellCall : Type 0 where
  plain_call : AdminShellHook → AdminShellCall
  apply_session_config : AdminShellSessionRequest → AdminShellCall
  apply_hotspot_config : AdminShellHotspotRequest → AdminShellCall
  call_host_action : HostActionKind → AdminShellCall
  select_network_candidate : ℕ → AdminShellCall
  navigate_page : Text → AdminShellCall
  set_language_to : Text → AdminShellCall

pub record AdminShellCoordinatorResult : Type 0 where
  pub request_snapshot : Bool
  pub state_changed : Bool
  pub log_line : Text
  pub calls : List AdminShellCall

-- `TryMapHostAction`.
unfoldable pub try_map_host_action : ShellBridgeAdminCommandKind → Option HostActionKind
try_map_host_action start_server_command = some start_server
try_map_host_action stop_server_command = some stop_server
try_map_host_action service_only = some start_service_only
try_map_host_action start_and_open_host_command = some start_and_open_host
try_map_host_action open_host = some open_host_page
try_map_host_action open_viewer = some open_viewer_page
try_map_host_action export_bundle = some export_share_bundle
try_map_host_action open_output = some open_output_folder
try_map_host_action open_report = some open_diagnostics_report
try_map_host_action refresh_bundle = some refresh_diagnostics_bundle
try_map_host_action show_share_wizard_command = some show_share_wizard
try_map_host_action show_qr_command = some show_qr
try_map_host_action other = none

-- One branch of the switch of `HandleAdminCommand`: the hook it asks for, its call, what else it
-- tests, and whether it clears `stateChanged` when it makes no call.
pub record Branch : Type 0 where
  pub hook : AdminShellHook
  pub call : AdminShellCall
  pub ready : Bool
  pub clears : Bool

abbrev pub plain_branch : AdminShellHook → Option Branch
plain_branch hook =
    some (record { hook = hook; call = plain_call hook; ready = true; clears = false })

abbrev pub argument_branch : AdminShellHook → AdminShellCall → Option Branch
argument_branch hook call = some (record { hook = hook; call = call; ready = true; clears = false })

-- A branch with a text that must not be empty.
abbrev pub text_branch : AdminShellHook → AdminShellCall → Text → Option Branch
text_branch hook call text =
    some (record { hook = hook; call = call; ready = not (text_eq text []); clears = true })

abbrev pub index_branch : Option ℕ → Option Branch
index_branch none = some (record {
  hook = select_network_candidate_hook;
  call = select_network_candidate 0;
  ready = false;
  clears = false;
})
index_branch (some index) =
    argument_branch select_network_candidate_hook (select_network_candidate index)

-- The switch; `none` is its default.
unfoldable pub branch_of : ShellBridgeAdminCommand → ShellBridgeAdminCommandKind → Option Branch
branch_of command refresh_network = plain_branch refresh_runtime_hook
branch_of command generate_room_token = plain_branch generate_room_token_hook
branch_of command apply_session = argument_branch apply_session_config_hook (
    apply_session_config (record {
      room = command.room;
      token = command.token;
      bind_address = command.bind;
      port = command.port;
    }))
branch_of command copy_host_url = plain_branch copy_host_url_hook
branch_of command copy_viewer_url = plain_branch copy_viewer_url_hook
branch_of command quick_fix_network = plain_branch quick_fix_network_hook
branch_of command quick_fix_sharing = plain_branch quick_fix_sharing_hook
branch_of command quick_fix_handoff = plain_branch quick_fix_handoff_hook
branch_of command quick_fix_hotspot = plain_branch quick_fix_hotspot_hook
branch_of command select_adapter = index_branch command.index
branch_of command apply_hotspot =
    argument_branch apply_hotspot_config_hook
      (apply_hotspot_config (record { ssid = command.ssid; password = command.password }))
branch_of command start_hotspot = plain_branch start_hotspot_hook
branch_of command stop_hotspot = plain_branch stop_hotspot_hook
branch_of command auto_hotspot = plain_branch auto_hotspot_hook
branch_of command open_hotspot_settings = plain_branch open_hotspot_settings_hook
branch_of command open_firewall_settings = plain_branch open_firewall_settings_hook
branch_of command run_network_diagnostics = plain_branch run_network_diagnostics_hook
branch_of command check_webview_runtime = plain_branch check_webview_runtime_hook
branch_of command export_remote_probe_guide = plain_branch export_remote_probe_guide_hook
branch_of command open_connected_devices = plain_branch open_connected_devices_hook
branch_of command switch_page =
    text_branch navigate_page_hook (navigate_page command.page) command.page
branch_of command set_language =
    text_branch set_language_hook (set_language_to command.locale) command.locale
branch_of command other = none

module _ (hooks : HooksSet) where
  abbrev pub ignored : Text → AdminShellCoordinatorResult
  ignored line = record {
    request_snapshot = false;
    state_changed = false;
    log_line = line;
    calls = [];
  }

  -- A branch, with `stateChanged` set before.
  unfoldable pub run_branch : Text → Option Branch → AdminShellCoordinatorResult
  run_branch name none = ignored (codes "Admin shell unknown command: " ++ name)
  run_branch name (some b) =
      if hooks b.hook && b.ready
      then record {
        request_snapshot = false;
        state_changed = true;
        log_line = [];
        calls = b.call ∷ [];
      }
      else record {
        request_snapshot = false;
        state_changed = not b.clears;
        log_line = [];
        calls = [];
      }

  abbrev pub run_mapped :
      ShellBridgeAdminCommand → Option HostActionKind → AdminShellCoordinatorResult
  run_mapped command none = run_branch command.command_name (branch_of command command.kind)
  run_mapped command (some action) =
      run_branch command.command_name
        (argument_branch execute_host_action_hook (call_host_action action))

  -- `HandleAdminCommand`.
  unfoldable pub handle_admin_command : ShellBridgeAdminCommand → AdminShellCoordinatorResult
  handle_admin_command command = run_mapped command (try_map_host_action command.kind)

  abbrev pub by_kind :
      ShellBridgeInboundMessage → ShellBridgeInboundKind → AdminShellCoordinatorResult
  by_kind message admin_ready = record (ignored []) { request_snapshot = true }
  by_kind message admin_request_snapshot = record (ignored []) { request_snapshot = true }
  by_kind message admin_command = handle_admin_command message.admin_command
  by_kind message other = ignored (codes "Admin shell ignored message: " ++ message.raw_payload)

  abbrev pub by_source : ShellBridgeInboundMessage → ShellBridgeSource → AdminShellCoordinatorResult
  by_source message admin_shell = by_kind message message.kind
  by_source message other = ignored (codes "Admin shell ignored message: " ++ message.raw_payload)

  -- `HandleAdminShellMessage`.
  unfoldable pub handle_admin_shell_message :
      ShellBridgeInboundMessage → AdminShellCoordinatorResult
  handle_admin_shell_message message = by_source message message.source
