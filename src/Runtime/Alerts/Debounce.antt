-- ===== src/Runtime/Alerts/Debounce.antt =====
-- One watched value: what its stable value says about the samples seen so far.
use p2p_desktop_share_new.Base.{
  ℕ, zero, suc, ◌≤◌, ◌<◌, leb, Bool, true, false, List, [], ◌∷◌, ◌++◌, ◌≡◌, ◌≢◌, ◌⊎◌, inl, inr,
  arith, refl, sym, ap, subst, ◌∙◌, Bool-cases, leb→le, lt→not_leb, not_leb→lt,
}
use p2p_desktop_share_new.Runtime.Alerts.{Watch, observe, settle}

unfoldable pub repeat : {A : Type 0} → ℕ → A → List A
repeat zero a = []
repeat (suc n) a = a ∷ repeat n a

-- The last `n` samples of a history, newest first, were all `a`.
abbrev pub Recent : {A : Type 0} → ℕ → A → List A → Type 0
Recent {A} n a history = (rest : List A) × (history ≡ repeat n a ++ rest)

Recent-le :
    {A : Type 0} (m n : ℕ) (a : A) (history : List A)
    → m ≤ n
    → Recent n a history
    → Recent m a history
unfolding repeat
Recent-le zero n a history below r = (history, refl)
Recent-le (suc m) zero a history below r = ground arith
Recent-le (suc m) (suc n) a history below (rest, same) =
    let (rest', same') = Recent-le m n a (repeat n a ++ rest) (omega arith) (rest, refl) in
    (rest', same ∙ ap (λ h. a ∷ h) same')

module _ {A : Type 0} (same : A → A → Bool) (limit : ℕ)
    (sound : (a b : A) → same a b ≡ true → a ≡ b) where
  -- One sample.
  unfoldable pub watch : A → Watch A → Watch A
  watch now w = (settle limit (observe same now w)).0

  -- A history of samples, newest first.
  unfoldable pub watch_run : Watch A → List A → Watch A
  watch_run w [] = w
  watch_run w (now ∷ history) = watch now (watch_run w history)

  abbrev pub Counted : List A → Watch A → Type 0
  Counted history w = Recent w.samples w.pending history

  observe-Counted :
      (now : A) (history : List A) (w : Watch A)
      → Counted history w
      → Counted (now ∷ history) (observe same now w)
  unfolding observe repeat
  observe-Counted now history w (rest, c) = elim (Bool-cases (same now w.stable)) [
    | inl y ↦ rw y (now ∷ history, refl)
    | inr n ↦ elim (Bool-cases (same now w.pending)) [
      | inl p ↦
          rw (n, p)
            (
              rest,
              ap (λ h. now ∷ h) c
                  ∙ ap (λ a. a ∷ repeat w.samples w.pending ++ rest) (sound now w.pending p),
            )
      | inr q ↦ rw (n, q) (history, refl)
    ]
  ]

  settle-Counted :
      (history : List A) (w : Watch A) → Counted history w → Counted history (settle limit w).0
  unfolding settle repeat
  settle-Counted history w c = elim (Bool-cases (leb limit w.samples)) [
    | inl y ↦ rw y (history, refl)
    | inr n ↦ rw n c
  ]

  pub watch_run-Counted :
      (w : Watch A) (history : List A) → w.samples ≡ 0 → Counted history (watch_run w history)
  unfolding watch_run watch repeat
  watch_run-Counted w [] none_yet = rw none_yet ([], refl)
  watch_run-Counted w (now ∷ history) none_yet =
      settle-Counted (now ∷ history) (observe same now (watch_run w history))
        (observe-Counted now history (watch_run w history) (watch_run-Counted w history none_yet))

  pub observe-stable : (now : A) (w : Watch A) → (observe same now w).stable ≡ w.stable
  unfolding observe
  observe-stable now w = elim (Bool-cases (same now w.stable)) [
    | inl y ↦ rw y refl
    | inr n ↦ elim (Bool-cases (same now w.pending)) [
      | inl p ↦ rw (n, p) refl
      | inr q ↦ rw (n, q) refl
    ]
  ]

  -- The stable value moves only to a value that the last `limit` samples had.
  pub watch_sound :
      (now : A) (history : List A) (w : Watch A)
      → Counted history w
      → ((watch now w).stable ≡ w.stable) ⊎ Recent limit (watch now w).stable (now ∷ history)
  unfolding watch settle
  watch_sound now history w c =
      let seen = observe same now w in
      elim (Bool-cases (leb limit seen.samples)) [
        | inr n ↦ rw (n, watch, settle) (inl (observe-stable now w))
        | inl y ↦
            rw (y, watch, settle)
              (inr (
                Recent-le limit seen.samples seen.pending (now ∷ history)
                  (leb→le limit seen.samples y) (observe-Counted now history w c)))
      ]

  module _ (again : (a : A) → same a a ≡ true) (positive : 1 ≤ limit) where
    -- After `k` samples of `now` it is the stable value, or it is pending with `k` samples.
    abbrev Advanced : ℕ → A → Watch A → Type 0
    Advanced k now w =
        (w.samples < limit) × ((w.stable ≡ now) ⊎ ((w.pending ≡ now) × (k ≤ w.samples)) ⊎ (k ≡ 0))

    settle-low : (w : Watch A) → w.samples < limit → settle limit w ≡ (w, false)
    unfolding settle
    settle-low w low = rw (lt→not_leb limit w.samples low) refl

    settle-Advanced :
        (k : ℕ) (now : A) (w : Watch A)
        → w.pending ≡ now
        → k ≤ w.samples
        → Advanced k now (settle limit w).0
    unfolding settle
    settle-Advanced k now w p enough = elim (Bool-cases (leb limit w.samples)) [
      | inl y ↦ rw y (positive, inl p)
      | inr n ↦ rw n (not_leb→lt limit w.samples n, inr (inl (p, enough)))
    ]

    watch-Advanced :
        (k : ℕ) (now : A) (w : Watch A) → Advanced k now w → Advanced (suc k) now (watch now w)
    unfolding watch observe
    watch-Advanced k now w (few, adv) = elim (Bool-cases (same now w.stable)) [
      | inl y ↦
          rw
            (
              y,
              watch,
              observe,
              settle-low (record { stable = w.stable; pending = w.pending; samples = 0 }) positive,
            )
            (positive, inl (sym (sound now w.stable y)))
      | inr n ↦ elim (Bool-cases (same now w.pending)) [
        | inl p ↦
            rw (n, p, watch, observe)
              (settle-Advanced (suc k) now
                (record { stable = w.stable; pending = w.pending; samples = suc w.samples })
                (sym (sound now w.pending p)) (grown k now w n adv))
        | inr q ↦
            rw (n, q, watch, observe)
              (settle-Advanced (suc k) now
                (record { stable = w.stable; pending = now; samples = 1 }) refl
                (fresh k now w n q adv))
      ]
    ]
      where
        differ : (now a : A) → same now a ≡ false → a ≢ now
        differ now a n e =
            let bad : true ≡ false = sym (again now) ∙ subst (λ x. same now x ≡ false) e n in cc

        grown :
            (k : ℕ) (now : A) (w : Watch A)
            → same now w.stable ≡ false
            → ((w.stable ≡ now) ⊎ ((w.pending ≡ now) × (k ≤ w.samples)) ⊎ (k ≡ 0))
            → suc k ≤ suc w.samples
        grown k now w n (inl e) = absurd (differ now w.stable n e)
        grown k now w n (inr (inl (p, le))) = omega arith
        grown k now w n (inr (inr e)) = omega arith

        fresh :
            (k : ℕ) (now : A) (w : Watch A)
            → same now w.stable ≡ false
            → same now w.pending ≡ false
            → ((w.stable ≡ now) ⊎ ((w.pending ≡ now) × (k ≤ w.samples)) ⊎ (k ≡ 0))
            → suc k ≤ 1
        fresh k now w n q (inl e) = absurd (differ now w.stable n e)
        fresh k now w n q (inr (inl (p, le))) = absurd (differ now w.pending q p)
        fresh k now w n q (inr (inr e)) = omega arith

    watch_run-Advanced :
        (k : ℕ) (now : A) (w : Watch A)
        → w.samples < limit
        → Advanced k now (watch_run w (repeat k now))
    unfolding watch_run repeat
    watch_run-Advanced zero now w low = (low, inr (inr refl))
    watch_run-Advanced (suc k) now w low =
        watch-Advanced k now (watch_run w (repeat k now)) (watch_run-Advanced k now w low)

    -- `limit` samples of one value make it the stable one.
    pub watch_run-settles :
        (now : A) (w : Watch A) → w.samples < limit → (watch_run w (repeat limit now)).stable ≡ now
    watch_run-settles now w low =
        let (few, adv) = watch_run-Advanced limit now w low in
        elim adv [ inl e ↦ e | inr (inl (p, le)) ↦ ground arith | inr (inr e) ↦ ground arith ]
