-- ===== src/Runtime/EditSession/Port.antt =====
-- The port that the form accepts (desktop_edit_session_presenter.cpp).
use p2p_desktop_share_new.Base.{
  ℕ, ◌+◌, ◌-◌, ◌*◌, ◌≤◌, ◌==◌, ltb, false, Option, none, some, [], ◌∷◌, ◌≡◌, ◌⊎◌, inl, inr, refl,
  sym, ap, ◌∙◌, subst, arith, Bool-cases,
}
use mathlib.Core.Option.{some-injective}
use p2p_desktop_share_new.Base.Text.{Text, is_space, skip_space}
use p2p_desktop_share_new.Base.Decimal.{
  is_digit, number_of, decimal, Digits, number_of-decimal, decimal-Digits, decimal-cons,
}
use p2p_desktop_share_new.Runtime.EditSession.{
  trim_back, trim_copy, port_loop, positive, parse_trimmed, try_parse_port,
}

number_of-grows : (n : ℕ) (s : Text) → n ≤ number_of n s
unfolding number_of
number_of-grows n [] = omega arith
number_of-grows n (c ∷ s) = let h = number_of-grows (10 * n + (c - 48)) s in omega (arith, h)

port_loop-Digits :
    (n : ℕ) (s : Text) → Digits s → number_of n s ≤ 65535 → port_loop n s ≡ some (number_of n s)
unfolding port_loop number_of
port_loop-Digits n [] digits small = refl
port_loop-Digits n (c ∷ s) (digit, more) small =
    let next = 10 * n + (c - 48) in
    let grows = number_of-grows next s in
    let fits : ltb 65535 next ≡ false = ground (arith, grows, small) in
    rw (digit, fits) (port_loop-Digits next s more small)

port_loop_sound :
    (a : ℕ) (s : Text) (n : ℕ)
    → a ≤ 65535
    → port_loop a s ≡ some n
    → Digits s × (number_of a s ≡ n) × (n ≤ 65535)
unfolding port_loop number_of
port_loop_sound a [] n small e =
    (tt, some-injective a n e, subst (λ m. m ≤ 65535) (some-injective a n e) small)
port_loop_sound a (c ∷ s) n small e = elim (Bool-cases (is_digit c)) [
  | inr no_digit ↦ (let h = rw no_digit at e in cc)
  | inl digit ↦ elim (Bool-cases (ltb 65535 (10 * a + (c - 48)))) [
    | inl large ↦ (let h = rw (digit, large) at e in cc)
    | inr fits ↦
        let (digits, same, bound) =
          port_loop_sound (10 * a + (c - 48)) s n (ground (arith, fits)) (rw (digit, fits) at e) in
        ((digit, digits), same, bound)
  ]
]

-- A port that the form accepts is 0 for a text of blanks, or from 1 to 65535 and the number that
-- the digits between the outer blanks stand for.
pub try_parse_port_sound :
    (text : Text) (n : ℕ)
    → try_parse_port text ≡ some n
    → ((trim_copy text ≡ []) × (n ≡ 0))
      ⊎ (Digits (trim_copy text) × (number_of 0 (trim_copy text) ≡ n) × (1 ≤ n) × (n ≤ 65535))
unfolding try_parse_port
try_parse_port_sound text n e = by_text (trim_copy text) e
  where
    by_number :
        (s : Text) (o : Option ℕ)
        → port_loop 0 s ≡ o
        → positive o ≡ some n
        → ((s ≡ []) × (n ≡ 0)) ⊎ (Digits s × (number_of 0 s ≡ n) × (1 ≤ n) × (n ≤ 65535))
    by_number s none loop e = cc
    by_number s (some m) loop e = elim (Bool-cases (m == 0)) [
      | inl zero_port ↦ (let h = rw zero_port at e in cc)
      | inr nonzero ↦
          let same = some-injective m n (rw nonzero at e) in
          let (digits, number, bound) = port_loop_sound 0 s m (omega arith) loop in
          inr (
            digits,
            number ∙ same,
            ground (arith, nonzero, same),
            subst (λ k. k ≤ 65535) same bound,
          )
    ]

    by_text :
        (s : Text)
        → parse_trimmed s ≡ some n
        → ((s ≡ []) × (n ≡ 0)) ⊎ (Digits s × (number_of 0 s ≡ n) × (1 ≤ n) × (n ≤ 65535))
    by_text [] e = inl (refl, sym (some-injective 0 n e))
    by_text (c ∷ s) e = by_number (c ∷ s) (port_loop 0 (c ∷ s)) refl e

trim_back-Digits : (s : Text) → Digits s → trim_back s ≡ s
unfolding trim_back
trim_back-Digits [] digits = refl
trim_back-Digits (c ∷ s) (digit, more) =
    let no_space : is_space c ≡ false = ground (arith, digit) in
    rw no_space (ap (λ t. c ∷ t) (trim_back-Digits s more))

skip_space-Digits : (s : Text) → Digits s → skip_space s ≡ s
unfolding skip_space
skip_space-Digits [] digits = refl
skip_space-Digits (c ∷ s) (digit, more) =
    let no_space : is_space c ≡ false = ground (arith, digit) in rw no_space refl

trim_copy-Digits : (s : Text) → Digits s → trim_copy s ≡ s
unfolding trim_copy
trim_copy-Digits s digits = ap trim_back (skip_space-Digits s digits) ∙ trim_back-Digits s digits

-- A port from 1 to 65535 that is written in decimal is accepted and is read as itself.
pub try_parse_port-decimal : (n : ℕ) → 1 ≤ n → n ≤ 65535 → try_parse_port (decimal n) ≡ some n
unfolding try_parse_port
try_parse_port-decimal n positive_port small =
    let number = number_of-decimal n in
    let (c, digits, same) = decimal-cons n in
    let loop =
      port_loop-Digits 0 (decimal n) (decimal-Digits n) (subst (λ k. k ≤ 65535) (sym number) small)
      ∙ ap some number in
    let nonzero : (n == 0) ≡ false = ground (arith, positive_port) in
    ap parse_trimmed (trim_copy-Digits (decimal n) (decimal-Digits n) ∙ same)
    ∙ ap positive (ap (port_loop 0) (sym same) ∙ loop)
    ∙ rw nonzero refl
