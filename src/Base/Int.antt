-- ===== src/Base/Int.antt =====
-- `int` over the native numbers, with the comparisons the program makes, and `std::wstring`'s
-- emptiness test.
use Prim.Native.Nat.{ℕ, suc, ◌+◌, ◌-◌}
use Prim.Native.String.{String}
use mathlib.Core.Path.{◌≡◌, refl, ap}
use mathlib.Core.Bool.{Bool, true, false}
use native.Mathlib.Omega.{arith}
use p2p_desktop_share_new.Base.Tests.{ltb, ◌==◌, ==_iff, str_eq, if◌then◌else◌}

-- An `int`; `negsuc n` is the number -(n + 1).
pub data ℤ : Type 0 where
  pos : ℕ → ℤ
  negsuc : ℕ → ℤ

-- `std::max(low, i)`, for a `low` that is not negative.
unfoldable pub at_least : ℕ → ℤ → ℕ
at_least low (pos n) = if ltb low n then n else low
at_least low (negsuc n) = low

-- `s.empty() ? fallback : s`.
abbrev pub or_text : String → String → String
or_text s fallback = if str_eq s "" then fallback else s

abbrev pub bool_eq : Bool → Bool → Bool
bool_eq true true = true
bool_eq false false = true
bool_eq true false = false
bool_eq false true = false

pub bool_eq_sound : (a b : Bool) → bool_eq a b ≡ true → a ≡ b
bool_eq_sound true true e = refl
bool_eq_sound false false e = refl
bool_eq_sound true false e = cc
bool_eq_sound false true e = cc

pub bool_eq_refl : (a : Bool) → bool_eq a a ≡ true
bool_eq_refl true = refl
bool_eq_refl false = refl

abbrev pub int_eq : ℤ → ℤ → Bool
int_eq (pos a) (pos b) = a == b
int_eq (negsuc a) (negsuc b) = a == b
int_eq (pos a) (negsuc b) = false
int_eq (negsuc a) (pos b) = false

pub int_eq_refl : (a : ℤ) → int_eq a a ≡ true
int_eq_refl (pos a) = ground arith
int_eq_refl (negsuc a) = ground arith

pub int_eq_sound : (a b : ℤ) → int_eq a b ≡ true → a ≡ b
int_eq_sound (pos a) (pos b) e = ap pos ((==_iff a b).0 e)
int_eq_sound (negsuc a) (negsuc b) e = ap negsuc ((==_iff a b).0 e)
int_eq_sound (pos a) (negsuc b) e = cc
int_eq_sound (negsuc a) (pos b) e = cc

-- `i + n`, `i - n` and `i < j`.
unfoldable pub add_nat : ℤ → ℕ → ℤ
add_nat (pos a) n = pos (a + n)
add_nat (negsuc a) n = if ltb a n then pos (n - suc a) else negsuc (a - n)

unfoldable pub sub_nat : ℤ → ℕ → ℤ
sub_nat (pos a) n = if ltb a n then negsuc (n - suc a) else pos (a - n)
sub_nat (negsuc a) n = negsuc (a + n)

unfoldable pub int_ltb : ℤ → ℤ → Bool
int_ltb (pos a) (pos b) = ltb a b
int_ltb (pos a) (negsuc b) = false
int_ltb (negsuc a) (pos b) = true
int_ltb (negsuc a) (negsuc b) = ltb b a

-- What is not below a number is not below a smaller one.
pub int_ltb-smaller : (x b c : ℤ) → int_ltb b c ≡ true → int_ltb x c ≡ false → int_ltb x b ≡ false
unfolding int_ltb
int_ltb-smaller (pos x) (pos b) (pos c) h g = ground arith
int_ltb-smaller (pos x) (pos b) (negsuc c) h g = cc
int_ltb-smaller (pos x) (negsuc b) c h g = refl
int_ltb-smaller (negsuc x) b (pos c) h g = cc
int_ltb-smaller (negsuc x) (pos b) (negsuc c) h g = cc
int_ltb-smaller (negsuc x) (negsuc b) (negsuc c) h g = ground arith

pub int_ltb-not_trans :
    (x b c : ℤ) → int_ltb b c ≡ false → int_ltb x b ≡ false → int_ltb x c ≡ false
unfolding int_ltb
int_ltb-not_trans (pos x) (pos b) (pos c) h g = ground arith
int_ltb-not_trans (pos x) b (negsuc c) h g = refl
int_ltb-not_trans (pos x) (negsuc b) (pos c) h g = cc
int_ltb-not_trans (negsuc x) (pos b) c h g = cc
int_ltb-not_trans (negsuc x) (negsuc b) (pos c) h g = cc
int_ltb-not_trans (negsuc x) (negsuc b) (negsuc c) h g = ground arith

pub int_ltb_irrefl : (a : ℤ) → int_ltb a a ≡ false
unfolding int_ltb
int_ltb_irrefl (pos a) = ground arith
int_ltb_irrefl (negsuc a) = ground arith
