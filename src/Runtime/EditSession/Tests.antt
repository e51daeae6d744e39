-- ===== src/Runtime/EditSession/Tests.antt =====
-- The form of a fresh state.
use p2p_desktop_share_new.Base.{true, false, none, ◌≡◌, refl}
use p2p_desktop_share_new.Base.Int.{pos}
use p2p_desktop_share_new.Base.Text.{codes, skip_space, text_eq}
use p2p_desktop_share_new.Runtime.HostSession.{
  HostSessionState, cleared, normalize_host_session_state, normalize_config, normalize_rules,
  bad_port,
}
use p2p_desktop_share_new.Runtime.EditSession.{
  trim_copy, trim_back, try_parse_port, port_loop, DesktopEditSessionDraft,
  apply_desktop_edit_session_draft, build_desktop_edit_session_draft,
}
use p2p_desktop_share_new.Runtime.EditSession.Draft.{apply-build, invalid_port-default}

abbrev applied : HostSessionState
applied = record {
  rules = record {
    default_port = pos 9443;
    default_bind_address = codes "0.0.0.0";
    room_rule = codes "r";
    token_rule = codes "t";
    generated_room_length = 6;
    generated_token_length = 16;
  };
  config = record {
    bind_address = codes "10.0.0.2";
    port = pos 8443;
    room = codes "demo";
    token = codes "demo";
  };
  flags = cleared;
}

apply-build_example :
    let (result, valid) =
      apply_desktop_edit_session_draft applied
        (build_desktop_edit_session_draft applied (pos 0))
        true in
    (result.state ≡ normalize_host_session_state applied)
    × (result.config_changed ≡ false)
    × (result.reset_delivery_state_applied ≡ false)
    × (valid ≡ true)
unfolding trim_copy trim_back skip_space normalize_host_session_state normalize_config
    normalize_rules bad_port text_eq
apply-build_example = apply-build applied (pos 0) (refl, refl, refl) true

-- The port 70000 is refused.
port_refused : try_parse_port (codes " 70000 ") ≡ none
unfolding try_parse_port trim_copy trim_back skip_space port_loop
port_refused = refl

-- A form with that port.
abbrev too_high : DesktopEditSessionDraft
too_high = record {
  bind_address = codes "10.0.0.2";
  port_text = codes " 70000 ";
  room = codes "demo";
  token = codes "demo";
  template_index = pos 0;
}

invalid_port-default_example :
    let (result, valid) = apply_desktop_edit_session_draft applied too_high false in
    (valid ≡ false)
    × (result.config_changed ≡ true)
    × (result.state.config.port ≡ (normalize_host_session_state applied).rules.default_port)
invalid_port-default_example = invalid_port-default applied too_high false port_refused
