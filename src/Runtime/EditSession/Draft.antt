-- ===== src/Runtime/EditSession/Draft.antt =====
-- The form filled from a state and applied again, and what it offers
-- (desktop_edit_session_presenter.cpp).
use p2p_desktop_share_new.Base.{
  ℕ, Bool, true, false, not, ◌&&◌, ◌||◌, none, some, ◌≡◌, refl, sym, ap, ◌∙◌, subst, if-both,
}
use p2p_desktop_share_new.Base.Int.{ℤ, pos}
use p2p_desktop_share_new.Base.Decimal.{print_int}
use p2p_desktop_share_new.Runtime.HostSession.{
  HostSessionState, HostSessionConfig, HostSessionFlags, normalize_host_session_state,
  config_equals, bad_port, cleared,
}
use p2p_desktop_share_new.Runtime.HostSession.Normal.{
  Normal, normalize-Normal, normalize-fixed, bad_port-range, no_port-default,
}
use p2p_desktop_share_new.Runtime.HostSession.Mutations.{config_equals_refl}
use p2p_desktop_share_new.Runtime.EditSession.{
  DesktopEditSessionDraft, trim_copy, try_parse_port, parsed_or_zero, is_valid, drafted,
  build_desktop_edit_session_draft, apply_desktop_edit_session_draft,
}
use p2p_desktop_share_new.Runtime.EditSession.Port.{try_parse_port-decimal}

try_parse_port-print_int :
    (port : ℤ)
    → bad_port port ≡ false
    → (n : ℕ) × (port ≡ pos n) × (try_parse_port (print_int port) ≡ some n)
try_parse_port-print_int port good =
    let (n, same, low, high) = bad_port-range port good in
    (
      n,
      same,
      subst (λ p. try_parse_port (print_int p) ≡ some n) (sym same)
          (try_parse_port-decimal n low high),
    )

-- No field of the normalised settings begins or ends with a blank.
abbrev pub Trimmed : HostSessionConfig → Type 0
Trimmed config =
    (trim_copy config.bind_address ≡ config.bind_address)
    × (trim_copy config.room ≡ config.room)
    × (trim_copy config.token ≡ config.token)

and-false : (b : Bool) → (b && false) ≡ false
and-false true = refl
and-false false = refl

or-true : (b : Bool) → (b || true) ≡ true
or-true true = refl
or-true false = refl

module _ (state : HostSessionState) (template_index : ℤ) where
  abbrev normal : HostSessionState
  normal = normalize_host_session_state state

  abbrev draft : DesktopEditSessionDraft
  draft = build_desktop_edit_session_draft state template_index

  drafted-build : Trimmed normal.config → drafted state draft ≡ normal
  unfolding drafted build_desktop_edit_session_draft
  drafted-build (address, room, token) =
      let (n, same, parsed) =
        try_parse_port-print_int normal.config.port (normalize-Normal state).port in
      rw (address, room, token, parsed, sym same) (normalize-fixed normal (normalize-Normal state))

  draft-valid : is_valid (try_parse_port draft.port_text) ≡ true
  unfolding build_desktop_edit_session_draft
  draft-valid =
      let (n, same, parsed) =
        try_parse_port-print_int normal.config.port (normalize-Normal state).port in
      ap is_valid parsed

  -- A form that is filled from a state and applied to it gives the normalised state, reports no
  -- change and a valid port, and resets nothing, if no normalised field has outer blanks.
  pub apply-build :
      Trimmed normal.config
      → (reset_delivery_state : Bool)
      → let (result, valid) = apply_desktop_edit_session_draft state draft reset_delivery_state in
        (result.state ≡ normal)
        × (result.config_changed ≡ false)
        × (result.reset_delivery_state_applied ≡ false)
        × (valid ≡ true)
  unfolding apply_desktop_edit_session_draft
  apply-build trimmed reset =
      let drafted_same = drafted-build trimmed in
      let equal = config_equals_refl normal.config in
      rw (draft-valid, drafted_same, equal, and-false reset) (refl, refl, refl, refl)

-- Flags are no part of what is normal.
with_flags-Normal :
    (state : HostSessionState) (flags : HostSessionFlags)
    → Normal state
    → Normal (record state { flags = flags })
with_flags-Normal state flags n = record {
  port = n.port;
  bind_address = n.bind_address;
  default_port = n.default_port;
  default_bind_address = n.default_bind_address;
  room_rule = n.room_rule;
  token_rule = n.token_rule;
  room_length = n.room_length;
  token_length = n.token_length;
}

module _ (state : HostSessionState) (draft : DesktopEditSessionDraft) (reset : Bool) where
  -- Whatever the form holds, the settings it is applied to come out normal, with a port from 1 to
  -- 65535 and an address.
  pub draft-Normal : Normal (apply_desktop_edit_session_draft state draft reset).0.state
  unfolding apply_desktop_edit_session_draft drafted
  draft-Normal =
      let next_normal = normalize-Normal (record (normalize_host_session_state state) {
        config = record {
          bind_address = trim_copy draft.bind_address;
          port = parsed_or_zero (try_parse_port draft.port_text);
          room = trim_copy draft.room;
          token = trim_copy draft.token;
        };
      }) in
      if-both Normal
        (reset
          && (not (
                config_equals (normalize_host_session_state state).config
                  (drafted state draft).config)
              || not (is_valid (try_parse_port draft.port_text))))
        (record (drafted state draft) { flags = cleared }) (drafted state draft)
        (λ e. with_flags-Normal (drafted state draft) cleared next_normal) (λ e. next_normal)

  drafted-default :
      try_parse_port draft.port_text ≡ none
      → (drafted state draft).config.port ≡ (normalize_host_session_state state).rules.default_port
  unfolding drafted
  drafted-default refused = no_port-default state _ (ap parsed_or_zero refused)

  -- A form whose port text is refused is reported as an invalid port and as a change, and the
  -- settings get the default port of the normalised rules.
  pub invalid_port-default :
      try_parse_port draft.port_text ≡ none
      → let (result, valid) = apply_desktop_edit_session_draft state draft reset in
        (valid ≡ false)
        × (result.config_changed ≡ true)
        × (result.state.config.port ≡ (normalize_host_session_state state).rules.default_port)
  unfolding apply_desktop_edit_session_draft
  invalid_port-default refused =
      let same =
        config_equals (normalize_host_session_state state).config (drafted state draft).config in
      let no_port = drafted-default refused in
      (
        ap is_valid refused,
        ap (λ o. not same || not (is_valid o)) refused ∙ or-true (not same),
        if-both
            (λ (s : HostSessionState).
              s.config.port ≡ (normalize_host_session_state state).rules.default_port)
            (reset && (not same || not (is_valid (try_parse_port draft.port_text)))) _ _
            (λ e. no_port) (λ e. no_port),
      )
