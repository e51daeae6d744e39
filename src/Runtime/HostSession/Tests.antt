-- ===== src/Runtime/HostSession/Tests.antt =====
-- The session settings on a small example: no address, no port and no credentials are set.
use p2p_desktop_share_new.Base.{ℕ, ◌%◌, true, false, [], ◌≡◌}
use p2p_desktop_share_new.Base.Int.{pos, negsuc}
use p2p_desktop_share_new.Base.Text.{codes, text_eq}
use p2p_desktop_share_new.Runtime.HostSession.{
  HostSessionState, cleared, normalize_host_session_state, apply_host_session_config,
  ensure_host_session_credentials, generate_host_session_credentials,
}
use p2p_desktop_share_new.Runtime.HostSession.Normal.{normalize-Normal, normalize-fixed}
use p2p_desktop_share_new.Runtime.HostSession.Mutations.{FlagsFollow, mutations-FlagsFollow}

abbrev rng : ℕ → ℕ
rng n = n % 62

abbrev bare : HostSessionState
bare = record {
  rules = record {
    default_port = negsuc 3;
    default_bind_address = [];
    room_rule = [];
    token_rule = [];
    generated_room_length = 3;
    generated_token_length = 2;
  };
  config = record { bind_address = []; port = pos 70000; room = []; token = [] };
  flags = record cleared { handoff_delivered = true };
}

mutations-FlagsFollow_example :
    FlagsFollow false bare
      (apply_host_session_config bare (codes "r") (codes "t") [] (pos 80)).state
    × FlagsFollow true bare (ensure_host_session_credentials rng 0 bare).state
    × ((generate_host_session_credentials rng 0 bare).state.flags ≡ cleared)
unfolding text_eq
mutations-FlagsFollow_example = mutations-FlagsFollow rng 0 bare (codes "r") (codes "t") [] (pos 80)

normalize-fixed_example :
    normalize_host_session_state (normalize_host_session_state bare)
    ≡ normalize_host_session_state bare
normalize-fixed_example =
    normalize-fixed (normalize_host_session_state bare) (normalize-Normal bare)
