-- ===== src/Runtime/RemoteProbe/Advice.antt =====
-- The advice of `BuildRemoteProbePlan` and the probed candidates.
use p2p_desktop_share_new.Base.{
  ℕ, Bool, true, false, not, ◌&&◌, Option, none, some, List, [], ◌∷◌, map, ◌≡◌, ◌⊎◌, inl, inr, refl,
  sym, ap, subst, ◌∙◌, Bool-cases, if-both, if_not-both, Elem,
}
use p2p_desktop_share_new.Base.Text.{text_eq}
use p2p_desktop_share_new.Runtime.RemoteProbe.{
  RemoteProbeCandidateInput, RemoteProbeCandidateViewModel, RemoteProbePlan, acceptable, find_first,
  find_first_ready, find_selected, view_of, ready_count, by_any, by_alternate, by_recommended,
  by_selected, build_remote_probe_plan,
}

-- Ready candidates of a list, and what a search may give.
abbrev pub ReadyIn : List RemoteProbeCandidateInput → RemoteProbeCandidateInput → Type 0
ReadyIn cs c = Elem c cs × (c.probe_ready ≡ true)

abbrev Found : (RemoteProbeCandidateInput → Type 0) → Option RemoteProbeCandidateInput → Type 0
Found P none = Unit
Found P (some c) = P c

find-Found :
    (test : RemoteProbeCandidateInput → Bool) (cs : List RemoteProbeCandidateInput)
    → Found (λ c. Elem c cs × (test c ≡ true)) (find_first test cs)
unfolding find_first
find-Found test [] = tt
find-Found test (c ∷ cs) =
    if-both (Found (λ d. Elem d (c ∷ cs) × (test d ≡ true))) (test c) (some c) (find_first test cs)
      (λ y. (inl refl, y)) (λ n. later (find_first test cs) (find-Found test cs))
  where
    later :
        (o : Option RemoteProbeCandidateInput)
        → Found (λ d. Elem d cs × (test d ≡ true)) o
        → Found (λ d. Elem d (c ∷ cs) × (test d ≡ true)) o
    later none f = tt
    later (some d) (e, y) = (inr e, y)

first_ready-Found :
    (cs : List RemoteProbeCandidateInput) (a b : Bool)
    → Found (ReadyIn cs) (find_first_ready cs a b)
first_ready-Found cs a b = weaker (find_first_ready cs a b) (find-Found (acceptable a b) cs)
  where
    and_left : (x y z : Bool) → (x && y && z) ≡ true → x ≡ true
    and_left true y z e = refl
    and_left false y z e = e

    weaker :
        (o : Option RemoteProbeCandidateInput)
        → Found (λ d. Elem d cs × (acceptable a b d ≡ true)) o
        → Found (ReadyIn cs) o
    weaker none f = tt
    weaker (some d) (e, y) =
        (e, and_left d.probe_ready (not (a && not d.recommended)) (not (b && d.selected)) y)

-- A plan for candidates, some of which may be ready: it suggests a ready candidate's address or
-- none, and it says that an address is ready when a search found one.
abbrev pub Honest : List RemoteProbeCandidateInput → RemoteProbePlan → Type 0
Honest cs plan =
    ((plan.suggested_ip ≡ [])
      ⊎ ((c : RemoteProbeCandidateInput) × ReadyIn cs c × (plan.suggested_ip ≡ c.ip)))
    × ((plan.selected_ready ≡ false)
        ⊎ ((c : RemoteProbeCandidateInput) × ReadyIn cs c × (c.selected ≡ true)))

module _ (cs : List RemoteProbeCandidateInput) (views : List RemoteProbeCandidateViewModel) where
  any-Honest :
      (o : Option RemoteProbeCandidateInput) → Found (ReadyIn cs) o → Honest cs (by_any views o)
  any-Honest none f = (inl refl, inl refl)
  any-Honest (some c) f = (inr (c, f, refl), inl refl)

  alternate-Honest :
      (s : RemoteProbeCandidateInput) (a o : Option RemoteProbeCandidateInput)
      → Found (ReadyIn cs) a
      → Found (ReadyIn cs) o
      → Honest cs (by_alternate views s a o)
  alternate-Honest s none o f g = any-Honest o g
  alternate-Honest s (some c) o f g = (inr (c, f, refl), inl refl)

  recommended-Honest :
      (s : RemoteProbeCandidateInput) (r a o : Option RemoteProbeCandidateInput)
      → Found (ReadyIn cs) r
      → Found (ReadyIn cs) a
      → Found (ReadyIn cs) o
      → Honest cs (by_recommended views s r a o)
  recommended-Honest s none a o f g h = alternate-Honest s a o g h
  recommended-Honest s (some c) a o f g h =
      if_not-both (Honest cs) (text_eq c.ip s.ip) _ _ (λ n. (inr (c, f, refl), inl refl))
        (λ y. alternate-Honest s a o g h)

  selected-Honest :
      (s r a o : Option RemoteProbeCandidateInput) (n : ℕ)
      → Found (λ c. Elem c cs × (c.selected ≡ true)) s
      → Found (ReadyIn cs) r
      → Found (ReadyIn cs) a
      → Found (ReadyIn cs) o
      → Honest cs (by_selected views s r a o n)
  selected-Honest none none a o n e f g h = any-Honest o h
  selected-Honest none (some r) a o n e f g h = (inr (r, f, refl), inl refl)
  selected-Honest (some s) r a o n e f g h =
      if-both (Honest cs) s.probe_ready _ _ (λ y. (inl refl, inr (s, (e.0, y), e.1)))
        (λ m. recommended-Honest s r a o f g h)

-- The suggested address is empty or that of a probed candidate that is ready, and the selected
-- address is called ready only when a selected candidate is.
pub plan-Honest : (cs : List RemoteProbeCandidateInput) → Honest cs (build_remote_probe_plan cs)
unfolding build_remote_probe_plan
plan-Honest [] = (inl refl, inl refl)
plan-Honest (c ∷ cs) =
    let all = c ∷ cs in
    selected-Honest all (map view_of all) (find_selected all) (find_first_ready all true false)
      (find_first_ready all false true) (find_first_ready all false false) (ready_count all)
      (find-Found (λ d. d.selected) all) (first_ready-Found all true false)
      (first_ready-Found all false true) (first_ready-Found all false false)

-- One of the two flags is set.
abbrev pub Reachable : RemoteProbePlan → Type 0
Reachable plan = (plan.selected_ready ≡ true) ⊎ (plan.alternate_ready ≡ true)

module _ (views : List RemoteProbeCandidateViewModel) (c : RemoteProbeCandidateInput) where
  alternate-Reachable :
      (s : RemoteProbeCandidateInput) (a : Option RemoteProbeCandidateInput)
      → Reachable (by_alternate views s a (some c))
  alternate-Reachable s none = inr refl
  alternate-Reachable s (some a) = inr refl

  recommended-Reachable :
      (s : RemoteProbeCandidateInput) (r a : Option RemoteProbeCandidateInput)
      → Reachable (by_recommended views s r a (some c))
  recommended-Reachable s none a = alternate-Reachable s a
  recommended-Reachable s (some r) a =
      if_not-both Reachable (text_eq r.ip s.ip) _ _ (λ n. inr refl) (λ y. alternate-Reachable s a)

  selected-Reachable :
      (s r a : Option RemoteProbeCandidateInput) (n : ℕ)
      → Reachable (by_selected views s r a (some c) n)
  selected-Reachable none none a n = inr refl
  selected-Reachable none (some r) a n = inr refl
  selected-Reachable (some s) r a n =
      if-both Reachable s.probe_ready _ _ (λ y. inl refl) (λ m. recommended-Reachable s r a)

find-misses_none :
    (cs : List RemoteProbeCandidateInput) (c : RemoteProbeCandidateInput)
    → ReadyIn cs c
    → (d : RemoteProbeCandidateInput) × (find_first_ready cs false false ≡ some d)
unfolding find_first
find-misses_none [] c (e, y) = absurd (e refl)
find-misses_none (b ∷ cs) c (e, y) = elim (Bool-cases b.probe_ready) [
  | inl up ↦ (b, rw (up, find_first) refl)
  | inr down ↦
      let (d, found) = find-misses_none cs c (elsewhere down e, y) in
      (d, rw (down, find_first) found)
]
  where
    elsewhere : b.probe_ready ≡ false → Elem c (b ∷ cs) → Elem c cs
    elsewhere down (inr later) = later
    elsewhere down (inl same) =
        let bad : true ≡ false = sym y ∙ ap (λ x. x.probe_ready) same ∙ down in cc

-- When any candidate answered its probe, the plan says that the selected address or another one is
-- ready.
pub plan-Reachable :
    (cs : List RemoteProbeCandidateInput) (c : RemoteProbeCandidateInput)
    → ReadyIn cs c
    → Reachable (build_remote_probe_plan cs)
unfolding build_remote_probe_plan
plan-Reachable [] c (e, y) = absurd (e refl)
plan-Reachable (b ∷ cs) c ready =
    let all = b ∷ cs in
    let (d, found) = find-misses_none all c ready in
    subst
      (λ o. Reachable (
        by_selected (map view_of all) (find_selected all) (find_first_ready all true false)
          (find_first_ready all false true) o (ready_count all)))
      (sym found)
      (selected-Reachable (map view_of all) d (find_selected all) (find_first_ready all true false)
        (find_first_ready all false true) (ready_count all))
