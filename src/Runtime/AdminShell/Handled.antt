-- ===== src/Runtime/AdminShell/Handled.antt =====
-- What the handling of a page's message, from its text on, may call (admin_shell_coordinator.cpp).
use p2p_desktop_share_new.Base.{
  ℕ, ◌≤◌, true, not, ◌&&◌, leb, Option, none, some, [], ◌∷◌, length, All, ◌≡◌, ◌≢◌, ◌⊎◌, inl, inr,
  refl, sym, subst, arith, if-both, if_not-both,
}
use p2p_desktop_share_new.Base.Text.{Text, codes, text_eq}
use p2p_desktop_share_new.Runtime.Actions.{HostActionKind}
use p2p_desktop_share_new.Runtime.Bridge.Json.{json_int_field}
use p2p_desktop_share_new.Runtime.Bridge.Commands.{
  ShellBridgeAdminCommandKind, parse_admin_command_kind, apply_session, select_adapter, switch_page,
  set_language,
}
use p2p_desktop_share_new.Runtime.Bridge.Inbound.{
  field, checked_port, command_fields, read_command, parse_admin_shell_message, parse_host_message,
  parse_shell_bridge_inbound_message, ShellBridgeAdminCommand, ShellBridgeInboundMessage,
  empty_command,
}
use p2p_desktop_share_new.Runtime.AdminShell.{
  AdminShellHook, AdminShellCall, plain_call, apply_session_config, apply_hotspot_config,
  call_host_action, select_network_candidate, navigate_page, set_language_to,
  apply_session_config_hook, apply_hotspot_config_hook, execute_host_action_hook,
  select_network_candidate_hook, navigate_page_hook, set_language_hook, HooksSet,
  AdminShellCoordinatorResult, Branch, run_branch, branch_of, index_branch, argument_branch,
  run_mapped, try_map_host_action, handle_admin_command, handle_admin_shell_message,
}

-- The hook that a call goes to.
abbrev pub hook_of : AdminShellCall → AdminShellHook
hook_of (plain_call hook) = hook
hook_of (apply_session_config request) = apply_session_config_hook
hook_of (apply_hotspot_config request) = apply_hotspot_config_hook
hook_of (call_host_action action) = execute_host_action_hook
hook_of (select_network_candidate index) = select_network_candidate_hook
hook_of (navigate_page page) = navigate_page_hook
hook_of (set_language_to locale) = set_language_hook

abbrev pub Port : ℕ → Type 0
Port port = (1 ≤ port) × (port ≤ 65535)

-- What a hook may rely on of its argument.
abbrev pub Fits : AdminShellCall → Type 0
Fits (apply_session_config request) = Port request.port
Fits (navigate_page page) = page ≢ []
Fits (set_language_to locale) = locale ≢ []
Fits other = Unit

-- At most one call, of a hook that is set, with a fitting argument; a call is reported as a change
-- and leaves no line in the log.
pub record Handled (hooks : HooksSet) (r : AdminShellCoordinatorResult) : Type 0 where
  pub one : length r.calls ≤ 1
  pub fitting : All (λ call. (hooks (hook_of call) ≡ true) × Fits call) r.calls
  pub told : (r.calls ≡ []) ⊎ ((r.state_changed ≡ true) × (r.log_line ≡ []))

no_calls : (hooks : HooksSet) (r : AdminShellCoordinatorResult) → r.calls ≡ [] → Handled hooks r
no_calls hooks r none_left = record {
  one = rw none_left (omega arith);
  fitting = rw none_left tt;
  told = inl none_left;
}

-- A branch calls its own hook, and its argument fits if its test holds.
abbrev Sound : Option Branch → Type 0
Sound none = (true ≡ true) × (true ≡ true → Unit)
Sound (some b) = (hook_of b.call ≡ b.hook) × (b.ready ≡ true → Fits b.call)

module _ (hooks : HooksSet) where
  run_branch-Handled :
      (name : Text) (o : Option Branch) → Sound o → Handled hooks (run_branch hooks name o)
  unfolding run_branch
  run_branch-Handled name none sound = no_calls hooks (run_branch hooks name none) refl
  run_branch-Handled name (some b) sound =
      if-both (Handled hooks) (hooks b.hook && b.ready) _ _
        (λ both. record {
          one = omega arith;
          fitting = (
            (
              subst (λ h. hooks h ≡ true) (sym sound.0) (ground (arith, both)),
              sound.1 (ground (arith, both)),
            ),
            tt,
          );
          told = inr (refl, refl);
        })
        (λ either. no_calls hooks _ refl)

nonempty : (text : Text) → not (text_eq text []) ≡ true → text ≢ []
unfolding text_eq
nonempty [] e = cc
nonempty (c ∷ text) e = λ same. cc

index_branch-Sound : (o : Option ℕ) → Sound (index_branch o)
index_branch-Sound none = (refl, λ ready. tt)
index_branch-Sound (some index) = (refl, λ ready. tt)

branch_of-Sound :
    (command : ShellBridgeAdminCommand) (kind : ShellBridgeAdminCommandKind)
    → Port command.port
    → Sound (branch_of command kind)
unfolding branch_of
branch_of-Sound command apply_session port = (refl, λ ready. port)
branch_of-Sound command select_adapter port = index_branch-Sound command.index
branch_of-Sound command switch_page port = (refl, nonempty command.page)
branch_of-Sound command set_language port = (refl, nonempty command.locale)
branch_of-Sound command other port = (refl, λ ready. tt)

checked_port-Port : (o : Option ℕ) → Port (checked_port o)
unfolding checked_port
checked_port-Port none = (omega arith, omega arith)
checked_port-Port (some port) =
    if-both Port (leb 1 port && leb port 65535) _ _ (λ e. ground arith) (λ e. ground arith)

command_fields-Port :
    (ulong_max : ℕ) (payload : Text) (command : ShellBridgeAdminCommand)
    (kind : ShellBridgeAdminCommandKind)
    → Port command.port
    → Port (command_fields ulong_max payload command kind).port
unfolding command_fields
command_fields-Port ulong_max payload command apply_session port =
    checked_port-Port (json_int_field ulong_max payload (codes "port"))
command_fields-Port ulong_max payload command other port = port

module _ (hooks : HooksSet) where
  handle_admin_command-Handled :
      (command : ShellBridgeAdminCommand)
      → Port command.port
      → Handled hooks (handle_admin_command hooks command)
  unfolding handle_admin_command
  handle_admin_command-Handled command port = mapped (try_map_host_action command.kind)
    where
      mapped : (o : Option HostActionKind) → Handled hooks (run_mapped hooks command o)
      mapped none =
          run_branch-Handled hooks command.command_name (branch_of command command.kind)
            (branch_of-Sound command command.kind port)
      mapped (some action) =
          run_branch-Handled hooks command.command_name
            (argument_branch execute_host_action_hook (call_host_action action)) (refl, λ ready. tt)

  -- Whatever text the page sends, its handling makes at most one call, of a hook that is set; the
  -- port of a session is from 1 to 65535, and a page or a locale is not empty; if there is a call,
  -- the result reports a change and no line for the log.
  pub handle-Handled :
      (ulong_max : ℕ) (payload : Text)
      → Handled hooks
          (handle_admin_shell_message hooks (parse_shell_bridge_inbound_message ulong_max payload))
  unfolding handle_admin_shell_message parse_shell_bridge_inbound_message parse_admin_shell_message
      parse_host_message read_command
  handle-Handled ulong_max payload =
      let Good : ShellBridgeInboundMessage → Type 0 =
        λ m. Handled hooks (handle_admin_shell_message hooks m) in
      let quiet : (r : AdminShellCoordinatorResult) → r.calls ≡ [] → Handled hooks r =
        no_calls hooks in
      let kind = field ulong_max payload (codes "kind") in
      if-both Good (text_eq (field ulong_max payload (codes "source")) (codes "admin-shell")) _ _
        (λ from_admin.
          if-both Good (text_eq kind (codes "ready")) _ _ (λ e. quiet _ refl)
            (λ n1.
              if-both Good (text_eq kind (codes "request-snapshot")) _ _ (λ e. quiet _ refl)
                (λ n2.
                  if_not-both Good (text_eq kind (codes "command")) _ _ (λ e. quiet _ refl)
                    (λ command.
                      let name = field ulong_max payload (codes "command") in
                      let parsed = parse_admin_command_kind name in
                      handle_admin_command-Handled (read_command ulong_max payload name) (
                        command_fields-Port ulong_max payload
                          (record empty_command { kind = parsed; command_name = name }) parsed
                          (omega arith, omega arith))))))
        (λ from_host.
          if-both Good (text_eq kind (codes "status")) _ _ (λ e. quiet _ refl)
            (λ n1.
              if-both Good (text_eq kind (codes "log")) _ _ (λ e. quiet _ refl)
                (λ n2.
                  if_not-both Good (text_eq kind []) _ _ (λ e. quiet _ refl) (λ e. quiet _ refl))))
