-- ===== src/Server/Hub/Pruning.antt =====
-- What the helpers of ws_hub.cpp compute, in terms of the dictionary's operations.
use Prim.Native.Char.{code}
use text.Mathlib.TextLemmas.{cons-append}
use p2p_desktop_share_new.Base.{
  ℕ, ◌+◌, String, Bool, List, [], ◌∷◌, ◌≡◌, ap, ◌≢◌, arith, inl, inr, Bool-cases,
}
use p2p_desktop_share_new.Base.Dict.{retain, count}
use p2p_desktop_share_new.Server.Hub.{
  RoomState, prune_loop, prune_expired_viewers, gen_viewer_id, rand_hex,
}

pub prune_loop-eq :
    (alive : ℕ → Bool) (viewers : List (String × ℕ)) (n : ℕ)
    → prune_loop alive viewers n ≡ (retain alive viewers, n + count alive viewers)
unfolding prune_loop retain count
prune_loop-eq alive [] n = ground arith
prune_loop-eq alive ((k, s) ∷ m) n = elim (Bool-cases (alive s)) [
  | inl e ↦ ground (arith, e, prune_loop-eq alive m (n + 1))
  | inr e ↦ ground (arith, e, prune_loop-eq alive m n)
]

pub prune_expired_viewers-eq :
    (alive : ℕ → Bool) (rs : RoomState)
    → prune_expired_viewers alive rs
      ≡ (record rs { viewers = retain alive rs.viewers }, count alive rs.viewers)
unfolding prune_expired_viewers
prune_expired_viewers-eq alive rs = ground (arith, prune_loop-eq alive rs.viewers 0)

-- The code of a text's first character.
abbrev first_code : String → ℕ
first_code String.[] = 0
first_code (String.◌∷◌ c s) = code c

first_code-gen_viewer_id : (draws : List ℕ) → first_code (gen_viewer_id draws) ≡ 118
unfolding gen_viewer_id
first_code-gen_viewer_id draws = ap first_code (cons-append "v" "-" (rand_hex draws))

-- A generated id is never the host's id, nor the empty id that stands for a refusal.
pub gen_viewer_id-ne-host : (draws : List ℕ) → gen_viewer_id draws ≢ "host"
gen_viewer_id-ne-host draws e = omega (arith, ap first_code e, first_code-gen_viewer_id draws)

pub gen_viewer_id-ne-empty : (draws : List ℕ) → gen_viewer_id draws ≢ ""
gen_viewer_id-ne-empty draws e = omega (arith, ap first_code e, first_code-gen_viewer_id draws)
