-- ===== src/Runtime/EditSession.antt =====
-- core/runtime/desktop_edit_session_presenter: the form in which the desktop edits the settings of
-- the next session. Blanks are those of the "C" locale.
pub mod Port
pub mod Draft
mod Tests
use p2p_desktop_share_new.Base.{
  ℕ, ◌+◌, ◌-◌, ◌*◌, ◌==◌, leb, ltb, String, Bool, true, false, not, ◌&&◌, ◌||◌, Option, none, some,
  List, [], ◌∷◌, if◌then◌else◌,
}
use p2p_desktop_share_new.Base.Int.{ℤ, pos, negsuc, int_eq}
use p2p_desktop_share_new.Base.Text.{Text, codes, text_eq, is_space, skip_space}
use p2p_desktop_share_new.Base.Decimal.{is_digit, print_int}
use p2p_desktop_share_new.Runtime.HostSession.{
  HostSessionState, HostSessionMutationResult, HostSessionFlags, normalize_host_session_state,
  config_equals, apply_host_session_config, generate_host_session_credentials, cleared,
}

pub record DesktopEditSessionDraft : Type 0 where
  pub bind_address : Text
  pub port_text : Text
  pub room : Text
  pub token : Text
  pub template_index : ℤ

abbrev pub no_text : Text → Bool
no_text [] = true
no_text (c ∷ text) = false

-- The text without its last blanks.
unfoldable pub trim_back : Text → Text
trim_back [] = []
trim_back (c ∷ text) =
    let rest = trim_back text in if is_space c && no_text rest then [] else c ∷ rest

-- `TrimCopy`.
unfoldable pub trim_copy : Text → Text
trim_copy text = trim_back (skip_space text)

-- The loop of `TryParsePort`.
unfoldable pub port_loop : ℕ → Text → Option ℕ
port_loop parsed [] = some parsed
port_loop parsed (c ∷ text) =
    let next = 10 * parsed + (c - 48) in
    let rest = port_loop next text in
    if not (is_digit c) then none else if ltb 65535 next then none else rest

abbrev pub positive : Option ℕ → Option ℕ
positive none = none
positive (some parsed) = if parsed == 0 then none else some parsed

abbrev pub parse_trimmed : Text → Option ℕ
parse_trimmed [] = some 0
parse_trimmed (c ∷ text) = positive (port_loop 0 (c ∷ text))

-- `TryParsePort`: 0 for a blank text, `none` where it returns false.
unfoldable pub try_parse_port : Text → Option ℕ
try_parse_port text = parse_trimmed (trim_copy text)

-- `BuildDesktopEditSessionDraft`.
unfoldable pub build_desktop_edit_session_draft : HostSessionState → ℤ → DesktopEditSessionDraft
build_desktop_edit_session_draft state template_index =
    let normalized = normalize_host_session_state state in
    record {
      bind_address = normalized.config.bind_address;
      port_text = print_int normalized.config.port;
      room = normalized.config.room;
      token = normalized.config.token;
      template_index = template_index;
    }

abbrev pub parsed_or_zero : Option ℕ → ℤ
parsed_or_zero none = pos 0
parsed_or_zero (some port) = pos port

abbrev pub is_valid : Option ℕ → Bool
is_valid none = false
is_valid (some port) = true

-- The state that a draft makes of the applied one.
unfoldable pub drafted : HostSessionState → DesktopEditSessionDraft → HostSessionState
drafted applied draft =
    let next = normalize_host_session_state applied in
    normalize_host_session_state (record next {
      config = record {
        bind_address = trim_copy draft.bind_address;
        port = parsed_or_zero (try_parse_port draft.port_text);
        room = trim_copy draft.room;
        token = trim_copy draft.token;
      };
    })

-- `ApplyDesktopEditSessionDraft`, with the flag it stores through `portValid`.
unfoldable pub apply_desktop_edit_session_draft :
    HostSessionState → DesktopEditSessionDraft → Bool → HostSessionMutationResult × Bool
apply_desktop_edit_session_draft applied draft reset_delivery_state =
    let valid = is_valid (try_parse_port draft.port_text) in
    let next = drafted applied draft in
    let same = config_equals (normalize_host_session_state applied).config next.config in
    let changed = not same || not valid in
    let reset = reset_delivery_state && changed in
    (
      record {
        state = if reset then record next { flags = cleared } else next;
        config_changed = changed;
        generated_room = false;
        generated_token = false;
        reset_delivery_state_applied = reset;
      },
      valid,
    )

module _ (rng : ℕ → ℕ) (at : ℕ) where
  -- `BuildTemplateState`: 1 is the fixed room, 2 the demo, all else makes new credentials.
  unfoldable pub build_template_state : HostSessionState → ℤ → HostSessionState
  build_template_state base template_index =
      let address = base.config.bind_address in
      let port = base.config.port in
      if int_eq template_index (pos 1)
      then (apply_host_session_config base (codes "meeting-room") (codes "persistent-token") address
          port).state
      else if int_eq template_index (pos 2)
      then (apply_host_session_config base (codes "demo") (codes "demo-view") address port).state
      else (generate_host_session_credentials rng at base).state

  -- `ApplyDesktopSessionTemplate`.
  unfoldable pub apply_desktop_session_template : HostSessionState → ℤ → ℤ → DesktopEditSessionDraft
  apply_desktop_session_template base template_index (pos preserved) =
      build_desktop_edit_session_draft
        (build_template_state (normalize_host_session_state base) template_index) (pos preserved)
  apply_desktop_session_template base template_index (negsuc n) =
      build_desktop_edit_session_draft
        (build_template_state (normalize_host_session_state base) template_index) template_index

pub record DesktopEditSessionButtonPolicy : Type 0 where
  pub generate_enabled : Bool
  pub restart_enabled : Bool
  pub service_only_enabled : Bool
  pub start_and_open_host_enabled : Bool

-- The view model without `sessionSummaryBody`, which lists URLs and folders.
pub record DesktopEditSessionViewModel : Type 0 where
  pub draft_state : HostSessionState
  pub dirty : Bool
  pub pending_apply : Bool
  pub port_valid : Bool
  pub status_text : String
  pub session_summary_label : String
  pub start_button_label : String
  pub restart_button_label : String
  pub service_only_button_label : String
  pub start_and_open_host_button_label : String
  pub button_policy : DesktopEditSessionButtonPolicy

-- `BuildDesktopEditSessionViewModel`.
unfoldable pub build_desktop_edit_session_view_model :
    HostSessionState → DesktopEditSessionDraft → Bool → DesktopEditSessionViewModel
build_desktop_edit_session_view_model applied draft server_running =
    let (mutation, port_valid) = apply_desktop_edit_session_draft applied draft false in
    let dirty = mutation.config_changed in
    let pending_apply = server_running && dirty in
    record {
      draft_state = mutation.state;
      dirty = dirty;
      pending_apply = pending_apply;
      port_valid = port_valid;
      status_text =
          if not port_valid
          then "Port is outside 1-65535. Restart and start actions will fall back to the default port when applied."
          else if pending_apply
          then "Pending apply: the current form differs from the live session. Restart sharing to push the updated bind/port/room/token."
          else if dirty
          then "Pending edits: these values will be applied on the next start."
          else if server_running
          then "Live session matches the current form."
          else "Current form is ready for the next start.";
      session_summary_label =
          if dirty
          then (if pending_apply
              then "Pending session summary after restart/apply:"
              else "Pending session summary before next start:")
          else "Live session summary before launch:";
      start_button_label = if dirty then "Start (Apply Edits)" else "Start";
      restart_button_label = if pending_apply then "Restart To Apply" else "Restart";
      service_only_button_label = if dirty then "Service Only (Apply)" else "Service Only";
      start_and_open_host_button_label =
          if pending_apply
          then "Restart + Open Host"
          else if dirty
          then "Start + Open Host (Apply)"
          else "Start + Open Host";
      button_policy = record {
        generate_enabled = true;
        restart_enabled = server_running || dirty;
        service_only_enabled = not pending_apply;
        start_and_open_host_enabled = not pending_apply;
      };
    }
