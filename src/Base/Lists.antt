-- ===== src/Base/Lists.antt =====
-- Lists measured by native numbers, and predicates on lists by recursion.
use Prim.Native.Nat.{ℕ, zero, suc, ◌+◌, ◌-◌}
use mathlib.Core.Path.{◌≡◌, refl, ap}
use mathlib.Core.Logic.{◌⊎◌, ◌≢◌, inl, inr}
use mathlib.Core.List.{List, [], ◌∷◌, ◌++◌, map}
use native.Mathlib.Omega.{arith}

module _ {ℓ} {A : Type ℓ} where
  abbrev pub length : List A → ℕ
  length [] = 0
  length (x ∷ xs) = suc (length xs)

  pub length-append : (xs ys : List A) → length (xs ++ ys) ≡ length xs + length ys
  length-append [] ys = omega arith
  length-append (x ∷ xs) ys = omega (arith, length-append xs ys)

  pub append_assoc : (xs ys zs : List A) → (xs ++ ys) ++ zs ≡ xs ++ (ys ++ zs)
  append_assoc [] ys zs = refl
  append_assoc (x ∷ xs) ys zs = ap (λ t. x ∷ t) (append_assoc xs ys zs)

  pub append-nil : (xs : List A) → xs ++ [] ≡ xs
  append-nil [] = refl
  append-nil (x ∷ xs) = ap (λ t. x ∷ t) (append-nil xs)

  -- The list without its first elements.
  abbrev pub drop_first : ℕ → List A → List A
  drop_first zero xs = xs
  drop_first (suc n) [] = []
  drop_first (suc n) (x ∷ xs) = drop_first n xs

  pub length-drop_first : (n : ℕ) (xs : List A) → length (drop_first n xs) ≡ length xs - n
  length-drop_first zero xs = omega arith
  length-drop_first (suc n) [] = omega arith
  length-drop_first (suc n) (x ∷ xs) = omega (arith, length-drop_first n xs)

abbrev pub All {ℓ κ} : {B : Type ℓ} → (holds : B → Type κ) → List B → Type κ
All holds [] = Unit
All holds (first ∷ rest) = holds first × All holds rest

pub All-append {ℓ κ} :
    {B : Type ℓ} (holds : B → Type κ) (front back : List B)
    → All holds front
    → All holds back
    → All holds (front ++ back)
All-append holds [] back none_left there = there
All-append holds (first ∷ front) back (here, more) there =
    (here, All-append holds front back more there)

pub All-map {ℓ κ μ} :
    {A : Type ℓ} (P : A → Type κ) (Q : A → Type μ)
    → ((x : A) → P x → Q x)
    → (xs : List A) → All P xs
    → All Q xs
All-map P Q f [] h = tt
All-map P Q f (x ∷ xs) h = (f x h.0, All-map P Q f xs h.1)

-- Membership by recursion, which the tactics take apart.
abbrev pub Elem {ℓ} : {A : Type ℓ} → A → List A → Type ℓ
Elem x [] = x ≢ x
Elem x (y ∷ ys) = (x ≡ y) ⊎ Elem x ys

module _ {ℓ} {A : Type ℓ} (x : A) where
  pub Elem-append : (xs ys : List A) → Elem x (xs ++ ys) → Elem x xs ⊎ Elem x ys
  Elem-append [] ys e = inr e
  Elem-append (y ∷ xs) ys (inl e) = inl (inl e)
  Elem-append (y ∷ xs) ys (inr e) = elim (Elem-append xs ys e) [
    | inl a ↦ inl (inr a)
    | inr b ↦ inr b
  ]

  pub Elem-append_left : (xs ys : List A) → Elem x xs → Elem x (xs ++ ys)
  Elem-append_left [] ys e = absurd (e refl)
  Elem-append_left (y ∷ xs) ys (inl e) = inl e
  Elem-append_left (y ∷ xs) ys (inr e) = inr (Elem-append_left xs ys e)

  pub Elem-append_right : (xs ys : List A) → Elem x ys → Elem x (xs ++ ys)
  Elem-append_right [] ys e = e
  Elem-append_right (y ∷ xs) ys e = inr (Elem-append_right xs ys e)

-- Two functions that give the same list agree on each element.
pub Elem-map_same {ℓ κ} :
    {A : Type ℓ} {B : Type κ} (f g : A → B) (x : A) (xs : List A)
    → map f xs ≡ map g xs
    → Elem x xs
    → f x ≡ g x
Elem-map_same f g x [] same e = absurd (e refl)
Elem-map_same f g x (y ∷ xs) same (inl e) = rw e cc
Elem-map_same f g x (y ∷ xs) same (inr e) = Elem-map_same f g x xs (cc) e
