-- ===== src/Base/Decimal.antt =====
-- Decimal numbers in texts: what the standard library prints for an unsigned number and reads
-- from digits, in the "C" locale.
use Prim.Native.Nat.{ℕ, zero, suc, ◌+◌, ◌-◌, ◌*◌, ◌/◌, ◌%◌, ◌<◌}
use mathlib.Core.Path.{◌≡◌, refl, ◌∙◌}
use mathlib.Core.Bool.{Bool, true, ◌&&◌}
use mathlib.Core.List.{[], ◌∷◌, ◌++◌}
use native.Mathlib.Omega.{arith}
use p2p_desktop_share_new.Base.Tests.{ltb, leb, if◌then◌else◌, if-both, ltb→lt}
use p2p_desktop_share_new.Base.Lists.{All, All-append}
use p2p_desktop_share_new.Base.Int.{ℤ, pos, negsuc}
use p2p_desktop_share_new.Base.Text.{Text}

-- `std::isdigit`.
abbrev pub is_digit : ℕ → Bool
is_digit c = leb 48 c && leb c 57

-- The number that digits stand for, without a bound.
unfoldable pub number_of : ℕ → Text → ℕ
number_of n [] = n
number_of n (c ∷ s) = number_of (10 * n + (c - 48)) s

-- The last digits of a number, as many as there are or as the fuel allows.
unfoldable pub last_digits : ℕ → ℕ → Text
last_digits zero n = []
last_digits (suc fuel) n =
    let front = last_digits fuel (n / 10) in
    if ltb n 10 then (48 + n) ∷ [] else front ++ (48 + n % 10) ∷ []

-- A number has fewer digits than one more than itself.
unfoldable pub decimal : ℕ → Text
decimal n = last_digits (suc n) n

number_of-append :
    (n : ℕ) (front back : Text) → number_of n (front ++ back) ≡ number_of (number_of n front) back
unfolding number_of
number_of-append n [] back = refl
number_of-append n (c ∷ front) back = number_of-append (10 * n + (c - 48)) front back

number_of-last_digits : (fuel n : ℕ) → n < fuel → number_of 0 (last_digits fuel n) ≡ n
unfolding number_of last_digits
number_of-last_digits zero n few = omega (arith, few)
number_of-last_digits (suc fuel) n few =
    if-both (λ (s : Text). number_of 0 s ≡ n) (ltb n 10) _ _ (λ small. omega arith)
      (λ large.
        let more : 10 < suc n = ground arith in
        let front = number_of-last_digits fuel (n / 10) (omega arith) in
        number_of-append 0 (last_digits fuel (n / 10)) ((48 + n % 10) ∷ [])
        ∙ rw front (omega arith))

pub number_of-decimal : (n : ℕ) → number_of 0 (decimal n) ≡ n
unfolding decimal
number_of-decimal n = number_of-last_digits (suc n) n (omega arith)

abbrev pub Digits : Text → Type 0
Digits s = All (λ c. is_digit c ≡ true) s

last_digits-Digits : (fuel n : ℕ) → Digits (last_digits fuel n)
unfolding last_digits
last_digits-Digits zero n = tt
last_digits-Digits (suc fuel) n =
    if-both Digits (ltb n 10) _ _ (λ small. (let h = ltb→lt n 10 small in ground arith, tt))
      (λ large.
        All-append (λ c. is_digit c ≡ true) (last_digits fuel (n / 10)) ((48 + n % 10) ∷ [])
          (last_digits-Digits fuel (n / 10)) (ground arith, tt))

pub decimal-Digits : (n : ℕ) → Digits (decimal n)
unfolding decimal
decimal-Digits n = last_digits-Digits (suc n) n

snoc-cons : (front : Text) (c : ℕ) → (d : ℕ) × (back : Text) × (front ++ c ∷ [] ≡ d ∷ back)
snoc-cons [] c = (c, [], refl)
snoc-cons (d ∷ front) c = (d, front ++ c ∷ [], refl)

-- A number has a first digit.
pub decimal-cons : (n : ℕ) → (d : ℕ) × (back : Text) × (decimal n ≡ d ∷ back)
unfolding decimal last_digits
decimal-cons n =
    if-both (λ (s : Text). (d : ℕ) × (back : Text) × (s ≡ d ∷ back)) (ltb n 10) _ _
      (λ small. (48 + n, [], refl)) (λ large. snoc-cons (last_digits n (n / 10)) (48 + n % 10))

-- What is printed for an `int` or a `long`.
abbrev pub print_int : ℤ → Text
print_int (pos n) = decimal n
print_int (negsuc n) = b'-' ∷ decimal (suc n)
