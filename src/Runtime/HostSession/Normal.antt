-- ===== src/Runtime/HostSession/Normal.antt =====
-- Normalised settings (host_session_coordinator.cpp).
use p2p_desktop_share_new.Base.{
  ℕ, zero, suc, ◌==◌, ◌≤◌, false, [], ◌≡◌, refl, if-both, arith, ap, ◌∙◌,
}
use p2p_desktop_share_new.Base.Int.{ℤ, pos, negsuc}
use p2p_desktop_share_new.Base.Text.{Text, codes, text_eq}
use p2p_desktop_share_new.Runtime.HostSession.{
  HostSessionState, HostSessionConfig, bad_port, text_or, port_or, length_or, normalize_rules,
  normalize_config, normalize_host_session_state,
}

-- What the rest of the program may rely on.
pub record Normal (state : HostSessionState) : Type 0 where
  pub port : bad_port state.config.port ≡ false
  pub bind_address : text_eq state.config.bind_address [] ≡ false
  pub default_port : bad_port state.rules.default_port ≡ false
  pub default_bind_address : text_eq state.rules.default_bind_address [] ≡ false
  pub room_rule : text_eq state.rules.room_rule [] ≡ false
  pub token_rule : text_eq state.rules.token_rule [] ≡ false
  pub room_length : (state.rules.generated_room_length == 0) ≡ false
  pub token_length : (state.rules.generated_token_length == 0) ≡ false

pub text_or-full : (s d : Text) → text_eq d [] ≡ false → text_eq (text_or s d) [] ≡ false
text_or-full s d full = if-both (λ x. text_eq x [] ≡ false) (text_eq s []) d s (λ e. full) (λ n. n)

port_or-good : (p d : ℤ) → bad_port d ≡ false → bad_port (port_or p d) ≡ false
port_or-good p d good = if-both (λ x. bad_port x ≡ false) (bad_port p) d p (λ e. good) (λ n. n)

length_or-some : (n d : ℕ) → (d == 0) ≡ false → (length_or n d == 0) ≡ false
length_or-some n d some_d = if-both (λ x. (x == 0) ≡ false) (n == 0) d n (λ e. some_d) (λ m. m)

-- Normalising gives a port from 1 to 65535, an address, rules and lengths to generate from.
pub normalize-Normal : (state : HostSessionState) → Normal (normalize_host_session_state state)
unfolding normalize_host_session_state normalize_config normalize_rules text_eq bad_port
normalize-Normal state =
    let port = port_or-good state.rules.default_port (pos 9443) refl in
    let address = text_or-full state.rules.default_bind_address (codes "0.0.0.0") refl in
    record {
      port = port_or-good state.config.port (port_or state.rules.default_port (pos 9443)) port;
      bind_address =
          text_or-full state.config.bind_address
            (text_or state.rules.default_bind_address (codes "0.0.0.0")) address;
      default_port = port;
      default_bind_address = address;
      room_rule = text_or-full state.rules.room_rule (codes "letters / digits, 3-32 chars") refl;
      token_rule = text_or-full state.rules.token_rule (codes "letters / digits, 6-64 chars") refl;
      room_length = length_or-some state.rules.generated_room_length 6 refl;
      token_length = length_or-some state.rules.generated_token_length 16 refl;
    }

-- Settings that are normal stay as they are.
pub normalize-fixed :
    (state : HostSessionState) → Normal state → normalize_host_session_state state ≡ state
unfolding normalize_host_session_state normalize_config normalize_rules
normalize-fixed state n =
    rw
      (
        n.port, n.bind_address, n.default_port, n.default_bind_address, n.room_rule, n.token_rule,
        n.room_length, n.token_length,
      )
      refl

-- A port that is not bad is a number from 1 to 65535.
pub bad_port-range :
    (port : ℤ) → bad_port port ≡ false → (n : ℕ) × (port ≡ pos n) × (1 ≤ n) × (n ≤ 65535)
unfolding bad_port
bad_port-range (pos zero) good = cc
bad_port-range (pos (suc n)) good = (suc n, refl, omega arith, ground arith)
bad_port-range (negsuc n) good = cc

-- Settings without a port get the default port of the normalised rules.
pub no_port-default :
    (base : HostSessionState) (config : HostSessionConfig)
    → config.port ≡ pos 0
    → let next = normalize_host_session_state base in
      (normalize_host_session_state (record next { config = config })).config.port
      ≡ next.rules.default_port
unfolding normalize_host_session_state normalize_config bad_port
no_port-default base config e =
    let next = normalize_host_session_state base in
    let same = ap (λ s. s.rules.default_port) (normalize-fixed next (normalize-Normal base)) in
    ap (λ p. port_or p (normalize_rules next.rules).default_port) e ∙ same
