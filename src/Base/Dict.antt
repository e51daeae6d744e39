-- ===== src/Base/Dict.antt =====
-- `std::unordered_map<std::string, V>`: an association list with one entry for each key. The order
-- of the entries stands for the iteration order, which the container does not specify.
use p2p_desktop_share_new.Base.Tests.{str_eq, if◌then◌else◌, Bool-cases}
use p2p_desktop_share_new.Base.Lists.{length, All}
use Prim.Native.Nat.{ℕ, suc, ◌+◌, ◌≤◌}
use Prim.Native.String.{String}
use mathlib.Core.Path.{◌≡◌, refl, subst}
use mathlib.Core.Logic.{◌≢◌, inl, inr}
use mathlib.Core.Bool.{Bool, true}
use mathlib.Core.Option.{Option, none, some, some-injective}
use mathlib.Core.List.{List, [], ◌∷◌}
use native.Mathlib.Omega.{arith}
use text.Mathlib.TextEquality.{eq_iff}

abbrev pub Table {ℓ} : Type ℓ → Type ℓ
Table V = List (String × V)

module _ {ℓ} {V : Type ℓ} where
  unfoldable pub lookup : (wanted : String) → Table V → Option V
  lookup wanted [] = none
  lookup wanted ((key, value) ∷ rest) = if str_eq key wanted then some value else lookup wanted rest

  -- `operator[]`, then an assignment.
  unfoldable pub insert : (wanted : String) (value : V) → Table V → Table V
  insert wanted value [] = (wanted, value) ∷ []
  insert wanted value ((key, old) ∷ rest) =
      if str_eq key wanted then (wanted, value) ∷ rest else (key, old) ∷ insert wanted value rest

  unfoldable pub erase : String → List (String × V) → List (String × V)
  erase k [] = []
  erase k ((j, w) ∷ m) = if str_eq j k then erase k m else (j, w) ∷ erase k m

  -- The entries that a test keeps, as an erasing iteration leaves them.
  unfoldable pub retain : (V → Bool) → List (String × V) → List (String × V)
  retain p [] = []
  retain p ((j, w) ∷ m) = if p w then (j, w) ∷ retain p m else retain p m

  -- How many entries a test holds of.
  unfoldable pub count : (V → Bool) → List (String × V) → ℕ
  count p [] = 0
  count p ((j, w) ∷ m) = if p w then suc (count p m) else count p m

  pub lookup-insert :
      (key other : String) (value : V) (table : Table V)
      → lookup other (insert key value table)
        ≡ (if str_eq key other then some value else lookup other table)
  unfolding insert lookup
  lookup-insert key other value [] = refl
  lookup-insert key other value ((at, old) ∷ table) =
      ground (
        arith,
        lookup-insert key other value table,
        eq_iff at key,
        eq_iff at other,
        eq_iff key other,
      )

  pub lookup-erase :
      (key other : String) (table : Table V)
      → lookup other (erase key table) ≡ (if str_eq key other then none else lookup other table)
  unfolding erase lookup
  lookup-erase key other [] = ground arith
  lookup-erase key other ((at, old) ∷ table) =
      ground (arith, lookup-erase key other table, eq_iff at key, eq_iff at other, eq_iff key other)

  -- No key stands twice.
  abbrev pub Absent : String → List (String × V) → Type 0
  Absent k [] = Unit
  Absent k ((j, w) ∷ m) = (j ≢ k) × Absent k m

  abbrev pub Distinct : List (String × V) → Type 0
  Distinct [] = Unit
  Distinct ((j, w) ∷ m) = Absent j m × Distinct m

  pub lookup_absent : (k : String) (m : List (String × V)) → Absent k m → lookup k m ≡ none
  unfolding lookup
  lookup_absent k [] h = refl
  lookup_absent k ((j, w) ∷ m) h = ground (arith, eq_iff j k, lookup_absent k m h.1)

  pub Absent-insert :
      (k j : String) (v : V) (m : List (String × V)) → k ≢ j → Absent j m → Absent j (insert k v m)
  unfolding insert
  Absent-insert k j v [] n h = (n, tt)
  Absent-insert k j v ((i, w) ∷ m) n h = elim (Bool-cases (str_eq i k)) [
    | inl e ↦ rw e (n, h.1)
    | inr e ↦ rw e (h.0, Absent-insert k j v m n h.1)
  ]

  pub Distinct-insert :
      (k : String) (v : V) (m : List (String × V)) → Distinct m → Distinct (insert k v m)
  unfolding insert
  Distinct-insert k v [] d = (tt, tt)
  Distinct-insert k v ((i, w) ∷ m) d = elim (Bool-cases (str_eq i k)) [
    | inl e ↦ rw e (subst (λ x. Absent x m) ((eq_iff i k).0 e) d.0, d.1)
    | inr e ↦
        rw e (Absent-insert k i v m (ground (arith, eq_iff i k)) d.0, Distinct-insert k v m d.1)
  ]

  pub Absent-erase : (k j : String) (m : List (String × V)) → Absent j m → Absent j (erase k m)
  unfolding erase
  Absent-erase k j [] h = tt
  Absent-erase k j ((i, w) ∷ m) h = elim (Bool-cases (str_eq i k)) [
    | inl e ↦ rw e (Absent-erase k j m h.1)
    | inr e ↦ rw e (h.0, Absent-erase k j m h.1)
  ]

  pub Distinct-erase : (k : String) (m : List (String × V)) → Distinct m → Distinct (erase k m)
  unfolding erase
  Distinct-erase k [] d = tt
  Distinct-erase k ((i, w) ∷ m) d = elim (Bool-cases (str_eq i k)) [
    | inl e ↦ rw e (Distinct-erase k m d.1)
    | inr e ↦ rw e (Absent-erase k i m d.0, Distinct-erase k m d.1)
  ]

  pub Absent-retain :
      (p : V → Bool) (j : String) (m : List (String × V)) → Absent j m → Absent j (retain p m)
  unfolding retain
  Absent-retain p j [] h = tt
  Absent-retain p j ((i, w) ∷ m) h = elim (Bool-cases (p w)) [
    | inl e ↦ rw e (h.0, Absent-retain p j m h.1)
    | inr e ↦ rw e (Absent-retain p j m h.1)
  ]

  pub Distinct-retain : (p : V → Bool) (m : List (String × V)) → Distinct m → Distinct (retain p m)
  unfolding retain
  Distinct-retain p [] d = tt
  Distinct-retain p ((i, w) ∷ m) d = elim (Bool-cases (p w)) [
    | inl e ↦ rw e (Absent-retain p i m d.0, Distinct-retain p m d.1)
    | inr e ↦ rw e (Distinct-retain p m d.1)
  ]

  -- The value under a key, if a test holds of it.
  abbrev pub keep : (V → Bool) → Option V → Option V
  keep p none = none
  keep p (some v) = if p v then some v else none

  pub lookup-retain :
      (p : V → Bool) (k : String) (m : List (String × V))
      → Distinct m
      → lookup k (retain p m) ≡ keep p (lookup k m)
  unfolding lookup retain
  lookup-retain p k [] d = refl
  lookup-retain p k ((i, w) ∷ m) d = elim (Bool-cases (str_eq i k)) [
    | inl e ↦
        let gone =
          lookup_absent k (retain p m)
            (Absent-retain p k m (subst (λ x. Absent x m) ((eq_iff i k).0 e) d.0)) in
        ground (arith, e, gone)
    | inr e ↦ ground (arith, e, lookup-retain p k m d.1)
  ]

  pub count-retain : (p : V → Bool) (m : List (String × V)) → count p (retain p m) ≡ count p m
  unfolding count retain
  count-retain p [] = refl
  count-retain p ((i, w) ∷ m) = ground (arith, count-retain p m)

  -- What is left after a retaining pass is what the test holds of.
  pub count-length : (p : V → Bool) (m : List (String × V)) → length (retain p m) ≡ count p m
  unfolding count retain
  count-length p [] = refl
  count-length p ((i, w) ∷ m) = ground (arith, count-length p m)

  pub count-insert-le :
      (p : V → Bool) (k : String) (v : V) (m : List (String × V))
      → count p (insert k v m) ≤ count p m + 1
  unfolding count insert
  count-insert-le p k v [] = ground arith
  count-insert-le p k v ((i, w) ∷ m) = ground (arith, count-insert-le p k v m)

  pub count-erase-le :
      (p : V → Bool) (k : String) (m : List (String × V)) → count p (erase k m) ≤ count p m
  unfolding count erase
  count-erase-le p k [] = omega arith
  count-erase-le p k ((i, w) ∷ m) = ground (arith, count-erase-le p k m)

  pub count_mono :
      (p q : V → Bool)
      → ((v : V) → p v ≡ true → q v ≡ true)
      → (m : List (String × V)) → count p m ≤ count q m
  unfolding count
  count_mono p q h [] = omega arith
  count_mono p q h ((i, w) ∷ m) = ground (arith, h w, count_mono p q h m)

  -- An `All` over the entries' values.
  pub lookup-All {κ} :
      (P : V → Type κ) (k : String) {v : V} (m : List (String × V))
      → All (λ e. P e.1) m
      → lookup k m ≡ some v
      → P v
  unfolding lookup
  lookup-All P k [] h e = cc
  lookup-All P k {v} ((i, w) ∷ m) h e = elim (Bool-cases (str_eq i k)) [
    | inl q ↦ subst P (some-injective w v (ground (arith, q))) h.0
    | inr q ↦ lookup-All P k m h.1 (rw q at e)
  ]

  pub All-insert {κ} :
      (P : V → Type κ) (k : String) (v : V) (m : List (String × V))
      → P v
      → All (λ e. P e.1) m
      → All (λ e. P e.1) (insert k v m)
  unfolding insert
  All-insert P k v [] p h = (p, tt)
  All-insert P k v ((i, w) ∷ m) p h = elim (Bool-cases (str_eq i k)) [
    | inl q ↦ rw q (p, h.1)
    | inr q ↦ rw q (h.0, All-insert P k v m p h.1)
  ]

  pub All-erase {κ} :
      (P : V → Type κ) (k : String) (m : List (String × V))
      → All (λ e. P e.1) m
      → All (λ e. P e.1) (erase k m)
  unfolding erase
  All-erase P k [] h = tt
  All-erase P k ((i, w) ∷ m) h = elim (Bool-cases (str_eq i k)) [
    | inl q ↦ rw q (All-erase P k m h.1)
    | inr q ↦ rw q (h.0, All-erase P k m h.1)
  ]

  -- What a function sees of one entry after a write or an erasure.
  pub seen-insert {κ} :
      {B : Type κ} (f : Option V → B) (k j : String) (v : V) (m : List (String × V))
      → f (lookup j (insert k v m)) ≡ (if str_eq k j then f (some v) else f (lookup j m))
  seen-insert f k j v m =
      rw (lookup-insert k j v m) (elim (Bool-cases (str_eq k j)) [ inl e ↦ rw e | inr e ↦ rw e ])

  pub seen-erase {κ} :
      {B : Type κ} (f : Option V → B) (k j : String) (m : List (String × V))
      → f (lookup j (erase k m)) ≡ (if str_eq k j then f none else f (lookup j m))
  seen-erase f k j m =
      rw (lookup-erase k j m) (elim (Bool-cases (str_eq k j)) [ inl e ↦ rw e | inr e ↦ rw e ])

  -- 1 for an entry that is there.
  abbrev pub one_if : Option V → ℕ
  one_if none = 0
  one_if (some v) = 1

  count_absent :
      (p : V → Bool) (k : String) (v : V) (m : List (String × V))
      → p v ≡ true
      → Absent k m
      → count p (insert k v m) ≡ count p m + 1
  unfolding count insert
  count_absent p k v [] q h = ground (arith, q)
  count_absent p k v ((i, w) ∷ m) q h = ground (arith, eq_iff i k, count_absent p k v m q h.1)

  -- A write of a value that counts adds one, unless it replaces a value that counted.
  pub count-insert :
      (p : V → Bool) (k : String) (v : V) (m : List (String × V))
      → p v ≡ true
      → Distinct m
      → count p (insert k v m) + one_if (keep p (lookup k m)) ≡ count p m + 1
  unfolding count insert lookup
  count-insert p k v [] q d = ground (arith, q)
  count-insert p k v ((i, w) ∷ m) q d = elim (Bool-cases (str_eq i k)) [
    | inl e ↦ ground (arith, e, q)
    | inr e ↦ ground (arith, e, q, count-insert p k v m q d.1)
  ]

  erase_absent : (k : String) (m : List (String × V)) → Absent k m → erase k m ≡ m
  unfolding erase
  erase_absent k [] h = refl
  erase_absent k ((i, w) ∷ m) h = ground (arith, eq_iff i k, erase_absent k m h.1)

  pub count-erase :
      (p : V → Bool) (k : String) (m : List (String × V))
      → Distinct m
      → count p (erase k m) + one_if (keep p (lookup k m)) ≡ count p m
  unfolding count erase lookup
  count-erase p k [] d = refl
  count-erase p k ((i, w) ∷ m) d = elim (Bool-cases (str_eq i k)) [
    | inl e ↦
        let same = erase_absent k m (subst (λ x. Absent x m) ((eq_iff i k).0 e) d.0) in
        ground (arith, e, same)
    | inr e ↦ ground (arith, e, count-erase p k m d.1)
  ]

  pub count_empty : (p : V → Bool) → count p [] ≡ 0
  unfolding count
  count_empty p = refl

  pub lookup_empty : (k : String) → lookup k [] ≡ none
  unfolding lookup
  lookup_empty k = refl
