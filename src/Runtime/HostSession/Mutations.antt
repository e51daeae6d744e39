-- ===== src/Runtime/HostSession/Mutations.antt =====
-- The three changes of the session: what they leave, and when the delivery flags are cleared.
use p2p_desktop_share_new.Base.{
  ℕ, zero, suc, ◌+◌, ◌==◌, Bool, true, false, not, ◌&&◌, ◌||◌, [], if◌then◌else◌, ◌≡◌, ◌≢◌, ◌⊎◌,
  inl, inr, refl, sym, ap, subst, arith, Bool-cases, if-both, length,
}
use p2p_desktop_share_new.Base.Int.{ℤ, int_eq_refl, int_eq_sound}
use p2p_desktop_share_new.Base.Text.{Text, text_eq, text_eq_refl, text_eq_sound}
use p2p_desktop_share_new.Runtime.HostSession.{
  HostSessionConfig, HostSessionFlags, HostSessionState, make_random_alnum, cleared, config_equals,
  normalize_host_session_state, config_changed_by, build_mutation_result, apply_host_session_config,
  ensure_host_session_credentials, generate_host_session_credentials, normalize_config,
  normalize_rules,
}
use p2p_desktop_share_new.Runtime.HostSession.Normal.{Normal, normalize-Normal, normalize-fixed}

config_equals_sound : (a b : HostSessionConfig) → config_equals a b ≡ true → a ≡ b
unfolding config_equals
config_equals_sound a b e =
    let address = text_eq_sound a.bind_address b.bind_address (ground arith) in
    let port = int_eq_sound a.port b.port (ground arith) in
    let room = text_eq_sound a.room b.room (ground arith) in
    let token = text_eq_sound a.token b.token (ground arith) in
    λ i. record { bind_address = address i; port = port i; room = room i; token = token i }

pub config_equals_refl : (c : HostSessionConfig) → config_equals c c ≡ true
unfolding config_equals
config_equals_refl c =
    rw (text_eq_refl c.bind_address, int_eq_refl c.port, text_eq_refl c.room, text_eq_refl c.token)
      refl

-- The settings that are in force: those of the state with the defaults of its rules.
abbrev pub in_force : HostSessionState → HostSessionConfig
in_force s = normalize_config s.config (normalize_rules s.rules)

-- What a change does to the delivery flags, where `made` says that credentials were made: either
-- none were, the settings in force are the same and the flags are kept, or one of these is not so
-- and the flags are cleared.
abbrev pub FlagsFollow : Bool → HostSessionState → HostSessionState → Type 0
FlagsFollow made before after =
    ((made ≡ false) × (in_force after ≡ in_force before) × (after.flags ≡ before.flags))
    ⊎ (((made ≡ true) ⊎ (in_force after ≢ in_force before)) × (after.flags ≡ cleared))

changed-differs :
    (prior next : HostSessionState)
    → config_changed_by prior next ≡ true
    → in_force next ≢ in_force prior
unfolding config_changed_by
changed-differs prior next changed same =
    let equal = config_equals_refl (in_force prior) in
    let unequal = subst (λ c. not (config_equals (in_force prior) c) ≡ true) same changed in
    ground (arith, equal, unequal)

unchanged-same :
    (prior next : HostSessionState)
    → config_changed_by prior next ≡ false
    → in_force next ≡ in_force prior
unfolding config_changed_by
unchanged-same prior next same =
    sym (config_equals_sound (in_force prior) (in_force next) (ground arith))

build-FlagsFollow :
    (prior next : HostSessionState) (a b : Bool)
    → next.flags ≡ prior.flags
    → FlagsFollow (a || b) prior (build_mutation_result prior next a b true).state
unfolding build_mutation_result
build-FlagsFollow prior next a b kept = elim (Bool-cases (config_changed_by prior next)) [
  | inl changed ↦ rw changed (inr (inr (changed-differs prior next changed), refl))
  | inr same ↦ elim (Bool-cases (a || b)) [
    | inl made ↦ rw (same, made) (inr (inl refl, refl))
    | inr none_made ↦ rw (same, none_made) (inl (refl, unchanged-same prior next same, kept))
  ]
]

build_both :
    (prior next : HostSessionState)
    → (build_mutation_result prior next true true true).state.flags ≡ cleared
unfolding build_mutation_result
build_both prior next = by_flag (config_changed_by prior next)
  where
    by_flag :
        (c : Bool)
        → (if c || true || true then record next { flags = cleared } else next).flags ≡ cleared
    by_flag true = refl
    by_flag false = refl

build-rest :
    (P : HostSessionState → Type 0) (prior next : HostSessionState) (a b c : Bool)
    → P (record next { flags = cleared })
    → P next
    → P (build_mutation_result prior next a b c).state
unfolding build_mutation_result
build-rest P prior next a b c p q =
    if-both P (c && (config_changed_by prior next || a || b)) _ _ (λ y. p) (λ n. q)

-- Applying settings, and ensuring that there are credentials, clear the delivery flags when the
-- settings in force change or a missing room or token is made, and else keep both the settings in
-- force and the flags; generating credentials always clears the flags.
pub mutations-FlagsFollow :
    (rng : ℕ → ℕ) (at : ℕ) (current : HostSessionState) (room token bind_address : Text) (port : ℤ)
    → FlagsFollow false current
        (apply_host_session_config current room token bind_address port).state
      × FlagsFollow
          (text_eq current.config.room [] || text_eq current.config.token [])
          current
          (ensure_host_session_credentials rng at current).state
      × ((generate_host_session_credentials rng at current).state.flags ≡ cleared)
unfolding apply_host_session_config ensure_host_session_credentials
    generate_host_session_credentials normalize_host_session_state normalize_config
mutations-FlagsFollow rng at current room token bind_address port = (
  build-FlagsFollow current _ false false refl,
  build-FlagsFollow current _ _ _ refl,
  build_both current _,
)

reflag :
    (flags : HostSessionFlags) (s : HostSessionState)
    → Normal s
    → Normal (record s { flags = flags })
reflag flags s n = record {
  port = n.port;
  bind_address = n.bind_address;
  default_port = n.default_port;
  default_bind_address = n.default_bind_address;
  room_rule = n.room_rule;
  token_rule = n.token_rule;
  room_length = n.room_length;
  token_length = n.token_length;
}

abbrev with_credentials : Text → Text → HostSessionState → HostSessionState
with_credentials room token s = record s { config = record s.config { room = room; token = token } }

recredential :
    (room token : Text) (s : HostSessionState) → Normal s → Normal (with_credentials room token s)
recredential room token s n = record {
  port = n.port;
  bind_address = n.bind_address;
  default_port = n.default_port;
  default_bind_address = n.default_bind_address;
  room_rule = n.room_rule;
  token_rule = n.token_rule;
  room_length = n.room_length;
  token_length = n.token_length;
}

-- Applying settings gives valid ones that carry the room and the token as they were given.
pub apply-Normal :
    (current : HostSessionState) (room token bind_address : Text) (port : ℤ)
    → let after = (apply_host_session_config current room token bind_address port).state in
      Normal after × (after.config.room ≡ room) × (after.config.token ≡ token)
unfolding apply_host_session_config normalize_host_session_state normalize_config
apply-Normal current room token bind_address port =
    let edited : HostSessionState = record (normalize_host_session_state current) {
      config = record { bind_address = bind_address; port = port; room = room; token = token };
    } in
    build-rest (λ s. Normal s × (s.config.room ≡ room) × (s.config.token ≡ token)) current
      (normalize_host_session_state edited) false false true
      (reflag cleared (normalize_host_session_state edited) (normalize-Normal edited), refl, refl)
      (normalize-Normal edited, refl, refl)

make_random-length : (rng : ℕ → ℕ) (at len : ℕ) → length (make_random_alnum rng at len) ≡ len
unfolding make_random_alnum
make_random-length rng at zero = refl
make_random-length rng at (suc len) = ap suc (make_random-length rng (suc at) len)

make_random-full :
    (rng : ℕ → ℕ) (at len : ℕ)
    → (len == 0) ≡ false
    → text_eq (make_random_alnum rng at len) [] ≡ false
unfolding make_random_alnum text_eq
make_random-full rng at zero n = n
make_random-full rng at (suc len) n = refl

-- Settings with credentials: valid, and neither the room nor the token is empty.
abbrev pub Ready : HostSessionState → Type 0
Ready s = Normal s × (text_eq s.config.room [] ≡ false) × (text_eq s.config.token [] ≡ false)

or_random-full :
    (rng : ℕ → ℕ) (at len : ℕ) (given : Text)
    → (len == 0) ≡ false
    → text_eq (if text_eq given [] then make_random_alnum rng at len else given) [] ≡ false
or_random-full rng at len given some_length =
    if-both (λ x. text_eq x [] ≡ false) (text_eq given []) _ _
      (λ e. make_random-full rng at len some_length) (λ n. n)

-- Ensuring the credentials gives valid settings with a room and a token.
pub ensure-Ready :
    (rng : ℕ → ℕ) (at : ℕ) (current : HostSessionState)
    → Ready (ensure_host_session_credentials rng at current).state
unfolding ensure_host_session_credentials
ensure-Ready rng at current =
    let next = normalize_host_session_state current in
    let n = normalize-Normal current in
    let room =
      or_random-full rng at next.rules.generated_room_length next.config.room n.room_length in
    let token =
      or_random-full rng
        (if text_eq next.config.room [] then at + next.rules.generated_room_length else at)
        next.rules.generated_token_length next.config.token n.token_length in
    build-rest Ready current _ _ _ true (reflag cleared _ (recredential _ _ next n), room, token)
      (recredential _ _ next n, room, token)

same-unchanged : (s : HostSessionState) → config_changed_by s s ≡ false
unfolding config_changed_by
same-unchanged s = ap not (config_equals_refl (normalize_config s.config (normalize_rules s.rules)))

-- Settings that have their credentials are kept, whatever the generator would draw.
pub ensure-Ready-keeps :
    (rng : ℕ → ℕ) (at : ℕ) (current : HostSessionState)
    → Ready current
    → ensure_host_session_credentials rng at current ≡ record {
      state = current;
      config_changed = false;
      generated_room = false;
      generated_token = false;
      reset_delivery_state_applied = false;
    }
unfolding ensure_host_session_credentials build_mutation_result
ensure-Ready-keeps rng at current (n, room, token) =
    rw (normalize-fixed current n, room, token, same-unchanged current) refl

-- Ensuring the credentials twice is ensuring them once: the second call generates nothing.
pub ensure_twice :
    (rng : ℕ → ℕ) (at at' : ℕ) (current : HostSessionState)
    → let once = (ensure_host_session_credentials rng at current).state in
      ensure_host_session_credentials rng at' once ≡ record {
        state = once;
        config_changed = false;
        generated_room = false;
        generated_token = false;
        reset_delivery_state_applied = false;
      }
ensure_twice rng at at' current =
    ensure-Ready-keeps rng at' (ensure_host_session_credentials rng at current).state
      (ensure-Ready rng at current)

-- Generated credentials have the lengths that the rules ask for, and a new session is ready.
pub generate-Ready :
    (rng : ℕ → ℕ) (at : ℕ) (current : HostSessionState)
    → let after = (generate_host_session_credentials rng at current).state in
      Ready after
      × (length after.config.room ≡ after.rules.generated_room_length)
      × (length after.config.token ≡ after.rules.generated_token_length)
unfolding generate_host_session_credentials
generate-Ready rng at current =
    let next = normalize_host_session_state current in
    let n = normalize-Normal current in
    let token_at = at + next.rules.generated_room_length in
    let room = make_random-full rng at next.rules.generated_room_length n.room_length in
    let token = make_random-full rng token_at next.rules.generated_token_length n.token_length in
    let room_length = make_random-length rng at next.rules.generated_room_length in
    let token_length = make_random-length rng token_at next.rules.generated_token_length in
    build-rest
      (λ s.
        Ready s
        × (length s.config.room ≡ s.rules.generated_room_length)
        × (length s.config.token ≡ s.rules.generated_token_length))
      current _ true true true
      ((reflag cleared _ (recredential _ _ next n), room, token), room_length, token_length)
      ((recredential _ _ next n, room, token), room_length, token_length)
