-- ===== src/Runtime/HostSession.antt =====
-- core/runtime/host_session_coordinator: the settings of the next session. A port is an `int`;
-- texts are lists of codes; the generator is a sequence of draws, `rng`, and the position in it.
pub mod Normal
pub mod Mutations
mod Tests
use p2p_desktop_share_new.Base.{
  ℕ, zero, suc, ◌+◌, ◌==◌, ltb, Bool, true, false, not, ◌&&◌, ◌||◌, Option, none, some, List, [],
  ◌∷◌, if◌then◌else◌,
}
use p2p_desktop_share_new.Base.Int.{ℤ, pos, negsuc, int_eq}
use p2p_desktop_share_new.Base.Text.{Text, codes, text_eq}

pub record HostSessionRules : Type 0 where
  pub default_port : ℤ
  pub default_bind_address : Text
  pub room_rule : Text
  pub token_rule : Text
  pub generated_room_length : ℕ
  pub generated_token_length : ℕ

pub record HostSessionConfig : Type 0 where
  pub bind_address : Text
  pub port : ℤ
  pub room : Text
  pub token : Text

pub record HostSessionFlags : Type 0 where
  pub viewer_url_copied : Bool
  pub share_bundle_exported : Bool
  pub share_wizard_opened : Bool
  pub handoff_started : Bool
  pub handoff_delivered : Bool

pub record HostSessionState : Type 0 where
  pub rules : HostSessionRules
  pub config : HostSessionConfig
  pub flags : HostSessionFlags

pub record HostSessionMutationResult : Type 0 where
  pub state : HostSessionState
  pub config_changed : Bool
  pub generated_room : Bool
  pub generated_token : Bool
  pub reset_delivery_state_applied : Bool

abbrev pub k_chars : Text
k_chars = codes "0123456789ABCDEFGHIJKLMNOPQRSTUVWXYZabcdefghijklmnopqrstuvwxyz"

-- `kChars[i]`; behind the literal's last letter stands its terminating NUL.
abbrev pub char_of : Text → ℕ → ℕ
char_of [] i = 0
char_of (c ∷ cs) zero = c
char_of (c ∷ cs) (suc i) = char_of cs i

-- `MakeRandomAlnum`, from the draw at position `at`.
pub make_random_alnum : (ℕ → ℕ) → ℕ → ℕ → Text
make_random_alnum rng at zero = []
make_random_alnum rng at (suc len) = char_of k_chars (rng at) ∷ make_random_alnum rng (suc at) len

-- `port <= 0 || port > 65535`.
unfoldable pub bad_port : ℤ → Bool
bad_port (pos zero) = true
bad_port (pos (suc n)) = ltb 65535 (suc n)
bad_port (negsuc n) = true

abbrev pub text_or : Text → Text → Text
text_or s fallback = if text_eq s [] then fallback else s

abbrev pub port_or : ℤ → ℤ → ℤ
port_or port fallback = if bad_port port then fallback else port

abbrev pub length_or : ℕ → ℕ → ℕ
length_or n fallback = if n == 0 then fallback else n

unfoldable pub normalize_rules : HostSessionRules → HostSessionRules
normalize_rules rules = record {
  default_port = port_or rules.default_port (pos 9443);
  default_bind_address = text_or rules.default_bind_address (codes "0.0.0.0");
  room_rule = text_or rules.room_rule (codes "letters / digits, 3-32 chars");
  token_rule = text_or rules.token_rule (codes "letters / digits, 6-64 chars");
  generated_room_length = length_or rules.generated_room_length 6;
  generated_token_length = length_or rules.generated_token_length 16;
}

unfoldable pub normalize_config : HostSessionConfig → HostSessionRules → HostSessionConfig
normalize_config config rules = record {
  bind_address = text_or config.bind_address rules.default_bind_address;
  port = port_or config.port rules.default_port;
  room = config.room;
  token = config.token;
}

pub config_equals : HostSessionConfig → HostSessionConfig → Bool
config_equals lhs rhs =
    text_eq lhs.bind_address rhs.bind_address
    && int_eq lhs.port rhs.port
    && text_eq lhs.room rhs.room
    && text_eq lhs.token rhs.token

abbrev pub any_flag : HostSessionFlags → Bool
any_flag flags =
    flags.viewer_url_copied || flags.share_bundle_exported || flags.share_wizard_opened
    || flags.handoff_started || flags.handoff_delivered

abbrev pub cleared : HostSessionFlags
cleared = record {
  viewer_url_copied = false;
  share_bundle_exported = false;
  share_wizard_opened = false;
  handoff_started = false;
  handoff_delivered = false;
}

-- `NormalizeHostSessionState`.
unfoldable pub normalize_host_session_state : HostSessionState → HostSessionState
normalize_host_session_state state =
    let rules = normalize_rules state.rules in
    record { rules = rules; config = normalize_config state.config rules; flags = state.flags }

-- The `result.configChanged` of `BuildMutationResult`.
pub config_changed_by : HostSessionState → HostSessionState → Bool
config_changed_by prior next = not (
    config_equals (normalize_config prior.config (normalize_rules prior.rules))
      (normalize_config next.config (normalize_rules next.rules)))

-- `BuildMutationResult`, with `ResetDeliveryState`.
pub build_mutation_result :
    HostSessionState → HostSessionState → Bool → Bool → Bool → HostSessionMutationResult
build_mutation_result prior next generated_room generated_token reset_requested =
    let changed = config_changed_by prior next in
    let reset = reset_requested && (changed || generated_room || generated_token) in
    record {
      state = if reset then record next { flags = cleared } else next;
      config_changed = changed;
      generated_room = generated_room;
      generated_token = generated_token;
      reset_delivery_state_applied = reset && any_flag next.flags;
    }

-- `ApplyHostSessionConfig`.
pub apply_host_session_config :
    HostSessionState → Text → Text → Text → ℤ → HostSessionMutationResult
apply_host_session_config current room token bind_address port =
    let next = normalize_host_session_state current in
    let edited = record next {
      config = record { bind_address = bind_address; port = port; room = room; token = token };
    } in
    build_mutation_result current (normalize_host_session_state edited) false false true

module _ (rng : ℕ → ℕ) (at : ℕ) where
  -- `EnsureHostSessionCredentials`. The token's draws come behind the room's.
  pub ensure_host_session_credentials : HostSessionState → HostSessionMutationResult
  ensure_host_session_credentials current =
      let next = normalize_host_session_state current in
      let no_room = text_eq next.config.room [] in
      let no_token = text_eq next.config.token [] in
      let room_length = next.rules.generated_room_length in
      let room = if no_room then make_random_alnum rng at room_length else next.config.room in
      let token_at = if no_room then at + room_length else at in
      let token =
        if no_token
        then make_random_alnum rng token_at next.rules.generated_token_length
        else next.config.token in
      build_mutation_result current
        (record next { config = record next.config { room = room; token = token } }) no_room
        no_token true

  -- `GenerateHostSessionCredentials`.
  pub generate_host_session_credentials : HostSessionState → HostSessionMutationResult
  generate_host_session_credentials current =
      let next = normalize_host_session_state current in
      let room_length = next.rules.generated_room_length in
      let room = make_random_alnum rng at room_length in
      let token = make_random_alnum rng (at + room_length) next.rules.generated_token_length in
      build_mutation_result current
        (record next { config = record next.config { room = room; token = token } }) true true true

pub record HostSessionAdminModel : Type 0 where
  pub bind_address : Text
  pub port : ℤ
  pub room : Text
  pub token : Text
  pub default_port : ℤ
  pub default_bind_address : Text
  pub room_rule : Text
  pub token_rule : Text
  pub flags : HostSessionFlags

-- `BuildHostSessionAdminModel`; the five flags of the model are those of the state.
pub build_host_session_admin_model : HostSessionState → HostSessionAdminModel
build_host_session_admin_model state =
    let normalized = normalize_host_session_state state in
    record {
      bind_address = normalized.config.bind_address;
      port = normalized.config.port;
      room = normalized.config.room;
      token = normalized.config.token;
      default_port = normalized.rules.default_port;
      default_bind_address = normalized.rules.default_bind_address;
      room_rule = normalized.rules.room_rule;
      token_rule = normalized.rules.token_rule;
      flags = normalized.flags;
    }
