-- ===== src/Runtime/AdminShell/Served.antt =====
-- The commands of the admin page that carry no argument, from their text on to the call
-- (admin_shell_coordinator.cpp).
use p2p_desktop_share_new.Base.{
  ℕ, false, Option, none, some, List, [], ◌∷◌, ◌++◌, if◌then◌else◌, Elem-map_same, map, Elem, ◌≡◌,
  ◌≢◌, inl, inr, refl, ap, ◌∙◌, if-both, if_not-both, Bool-cases,
}
use p2p_desktop_share_new.Base.Text.{Text, codes, text_eq, text_eq_sound}
use p2p_desktop_share_new.Runtime.Actions.{
  HostActionKind, export_share_bundle, open_diagnostics_report, open_host_page, open_output_folder,
  open_viewer_page, refresh_diagnostics_bundle, show_qr, show_share_wizard, start_and_open_host,
  start_server, start_service_only, stop_server,
}
use p2p_desktop_share_new.Runtime.Bridge.Commands.{parse_admin_command_kind, command_in}
use p2p_desktop_share_new.Runtime.Bridge.Inbound.{
  field, read_command, command_fields, parse_admin_shell_message, parse_host_message,
  parse_shell_bridge_inbound_message, ShellBridgeInboundMessage, ShellBridgeAdminCommand,
}
use p2p_desktop_share_new.Runtime.AdminShell.{
  AdminShellHook, Branch, run_mapped, AdminShellCall, AdminShellCoordinatorResult, plain_call,
  call_host_action, auto_hotspot_hook, check_webview_runtime_hook, copy_host_url_hook,
  copy_viewer_url_hook, execute_host_action_hook, export_remote_probe_guide_hook,
  generate_room_token_hook, open_connected_devices_hook, open_firewall_settings_hook,
  open_hotspot_settings_hook, quick_fix_handoff_hook, quick_fix_hotspot_hook,
  quick_fix_network_hook, quick_fix_sharing_hook, refresh_runtime_hook,
  run_network_diagnostics_hook, start_hotspot_hook, stop_hotspot_hook, HooksSet, run_branch,
  branch_of, argument_branch, try_map_host_action, handle_admin_command, handle_admin_shell_message,
}
use p2p_desktop_share_new.Runtime.AdminShell.Handled.{hook_of}

-- The call that a command is for.
abbrev pub served : List (Text × AdminShellCall)
served =
    (codes "refresh-network", plain_call refresh_runtime_hook)
    ∷ (codes "generate-room-token", plain_call generate_room_token_hook)
    ∷ (codes "copy-host-url", plain_call copy_host_url_hook)
    ∷ (codes "copy-viewer-url", plain_call copy_viewer_url_hook)
    ∷ (codes "quick-fix-network", plain_call quick_fix_network_hook)
    ∷ (codes "quick-fix-sharing", plain_call quick_fix_sharing_hook)
    ∷ (codes "quick-fix-handoff", plain_call quick_fix_handoff_hook)
    ∷ (codes "quick-fix-hotspot", plain_call quick_fix_hotspot_hook)
    ∷ (codes "start-hotspot", plain_call start_hotspot_hook)
    ∷ (codes "stop-hotspot", plain_call stop_hotspot_hook)
    ∷ (codes "auto-hotspot", plain_call auto_hotspot_hook)
    ∷ (codes "open-hotspot-settings", plain_call open_hotspot_settings_hook)
    ∷ (codes "open-firewall-settings", plain_call open_firewall_settings_hook)
    ∷ (codes "run-network-diagnostics", plain_call run_network_diagnostics_hook)
    ∷ (codes "check-webview-runtime", plain_call check_webview_runtime_hook)
    ∷ (codes "export-remote-probe-guide", plain_call export_remote_probe_guide_hook)
    ∷ (codes "open-connected-devices", plain_call open_connected_devices_hook)
    ∷ (codes "start-server", call_host_action start_server)
    ∷ (codes "stop-server", call_host_action stop_server)
    ∷ (codes "service-only", call_host_action start_service_only)
    ∷ (codes "start-and-open-host", call_host_action start_and_open_host)
    ∷ (codes "open-host", call_host_action open_host_page)
    ∷ (codes "open-viewer", call_host_action open_viewer_page)
    ∷ (codes "export-bundle", call_host_action export_share_bundle)
    ∷ (codes "open-output", call_host_action open_output_folder)
    ∷ (codes "open-report", call_host_action open_diagnostics_report)
    ∷ (codes "refresh-bundle", call_host_action refresh_diagnostics_bundle)
    ∷ (codes "show-share-wizard", call_host_action show_share_wizard)
    ∷ (codes "show-qr", call_host_action show_qr)
    ∷ []

-- The branch that a command takes.
abbrev mapped_branch : ShellBridgeAdminCommand → Option HostActionKind → Option Branch
mapped_branch command none = branch_of command command.kind
mapped_branch command (some action) =
    argument_branch execute_host_action_hook (call_host_action action)

module _ (hooks : HooksSet) where
  run_mapped-branch :
      (command : ShellBridgeAdminCommand) (o : Option HostActionKind)
      → run_mapped hooks command o ≡ run_branch hooks command.command_name (mapped_branch command o)
  run_mapped-branch command none = refl
  run_mapped-branch command (some action) = refl

  run_branch-ready :
      (name : Text) (hook : AdminShellHook) (call : AdminShellCall)
      → (run_branch hooks name (argument_branch hook call)).calls
        ≡ (if hooks hook then call ∷ [] else [])
  unfolding run_branch
  run_branch-ready name hook call = elim (Bool-cases (hooks hook)) [
    | inl e ↦ rw e refl
    | inr e ↦ rw e refl
  ]

module _ (hooks : HooksSet) (ulong_max : ℕ) (payload : Text) where
  abbrev branch_for : Text × AdminShellCall → Option Branch
  branch_for row =
      let command = read_command ulong_max payload row.0 in
      mapped_branch command (try_map_host_action command.kind)

  abbrev wanted : Text × AdminShellCall → Option Branch
  wanted row = argument_branch (hook_of row.1) row.1

  served-branches : map branch_for served ≡ map wanted served
  unfolding read_command command_fields parse_admin_command_kind command_in text_eq
      try_map_host_action branch_of
  served-branches = refl

  handle_admin_command-served :
      (name : Text) (call : AdminShellCall)
      → Elem (name, call) served
      → (handle_admin_command hooks (read_command ulong_max payload name)).calls
        ≡ (if hooks (hook_of call) then call ∷ [] else [])
  unfolding handle_admin_command
  handle_admin_command-served name call row =
      let command = read_command ulong_max payload name in
      ap (λ r. r.calls) (run_mapped-branch hooks command (try_map_host_action command.kind))
      ∙ ap (λ o. (run_branch hooks command.command_name o).calls)
          (Elem-map_same branch_for wanted (name, call) served served-branches row)
      ∙ run_branch-ready hooks command.command_name (hook_of call) call

  abbrev handled : AdminShellCoordinatorResult
  handled = handle_admin_shell_message hooks (parse_shell_bridge_inbound_message ulong_max payload)

  -- A message whose fields are those of a command is handled as that command.
  handled-command :
      (name : Text)
      → field ulong_max payload (codes "source") ≡ codes "admin-shell"
      → field ulong_max payload (codes "kind") ≡ codes "command"
      → field ulong_max payload (codes "command") ≡ name
      → handled ≡ handle_admin_command hooks (read_command ulong_max payload name)
  unfolding handle_admin_shell_message parse_shell_bridge_inbound_message parse_admin_shell_message
      text_eq
  handled-command name source kind command = rw (source, kind, command) refl

  -- A text whose `source` is `admin-shell`, whose `kind` is `command` and whose `command` is in
  -- the table `served` makes the table's call and no other, if its hook is set, and no call if not.
  pub served-called :
      (name : Text) (call : AdminShellCall)
      → Elem (name, call) served
      → field ulong_max payload (codes "source") ≡ codes "admin-shell"
      → field ulong_max payload (codes "kind") ≡ codes "command"
      → field ulong_max payload (codes "command") ≡ name
      → handled.calls ≡ (if hooks (hook_of call) then call ∷ [] else [])
  served-called name call row source kind command =
      ap (λ r. r.calls) (handled-command name source kind command)
      ∙ handle_admin_command-served name call row

  -- A text whose `source` is not `admin-shell` makes no call, reports no change and asks for no
  -- snapshot; the log says that it was ignored.
  pub host_page-ignored :
      field ulong_max payload (codes "source") ≢ codes "admin-shell"
      → handled ≡ record {
        request_snapshot = false;
        state_changed = false;
        log_line = codes "Admin shell ignored message: " ++ payload;
        calls = [];
      }
  unfolding handle_admin_shell_message parse_shell_bridge_inbound_message parse_host_message
  host_page-ignored other =
      let Ignored : ShellBridgeInboundMessage → Type 0 = λ m.
        handle_admin_shell_message hooks m ≡ record {
          request_snapshot = false;
          state_changed = false;
          log_line = codes "Admin shell ignored message: " ++ payload;
          calls = [];
        } in
      let kind = field ulong_max payload (codes "kind") in
      if-both Ignored (text_eq (field ulong_max payload (codes "source")) (codes "admin-shell")) _ _
        (λ same. absurd (other (text_eq_sound _ _ same)))
        (λ from_host.
          if-both Ignored (text_eq kind (codes "status")) _ _ (λ e. refl)
            (λ n1.
              if-both Ignored (text_eq kind (codes "log")) _ _ (λ e. refl)
                (λ n2. if_not-both Ignored (text_eq kind []) _ _ (λ e. refl) (λ e. refl))))
