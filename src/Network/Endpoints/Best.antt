-- ===== src/Network/Endpoints/Best.antt =====
-- The interface that `SelectPreferredNetworkInfo` selects.
use p2p_desktop_share_new.Base.{
  true, false, none, some, List, [], ◌∷◌, ◌≡◌, ◌⊎◌, inl, inr, refl, sym, subst, Bool-cases, All,
  Elem,
}
use p2p_desktop_share_new.Base.Int.{int_ltb, int_ltb_irrefl, int_ltb-smaller, int_ltb-not_trans}
use p2p_desktop_share_new.Base.Text.{text_eq}
use p2p_desktop_share_new.Network.Endpoints.{
  EndpointProbeCandidate, score_endpoint_probe_candidate, best_loop,
}

abbrev pub Addressed : EndpointProbeCandidate → Type 0
Addressed c = text_eq c.host_ip [] ≡ false

-- `c` does not score above `best`, or it has no address.
abbrev pub Beaten : EndpointProbeCandidate → EndpointProbeCandidate → Type 0
Beaten best c =
    (text_eq c.host_ip [] ≡ true)
    ⊎ (int_ltb (score_endpoint_probe_candidate best) (score_endpoint_probe_candidate c) ≡ false)

-- The loop, begun with a best candidate.
record Improved (cs : List EndpointProbeCandidate) (b : EndpointProbeCandidate) : Type 0 where
  best : EndpointProbeCandidate
  result : best_loop cs (some b) ≡ some best
  origin : (best ≡ b) ⊎ (Elem best cs × Addressed best)
  not_worse :
      int_ltb (score_endpoint_probe_candidate best) (score_endpoint_probe_candidate b) ≡ false
  all_beaten : All (Beaten best) cs

later :
    (x c : EndpointProbeCandidate) (cs : List EndpointProbeCandidate) {P : Type 0}
    → (P ⊎ (Elem x cs × Addressed x))
    → P ⊎ (Elem x (c ∷ cs) × Addressed x)
later x c cs (inl p) = inl p
later x c cs (inr (e, a)) = inr (inr e, a)

improve : (cs : List EndpointProbeCandidate) (b : EndpointProbeCandidate) → Improved cs b
unfolding best_loop
improve [] b = record {
  best = b;
  result = refl;
  origin = inl refl;
  not_worse = int_ltb_irrefl (score_endpoint_probe_candidate b);
  all_beaten = tt;
}
improve (c ∷ cs) b =
    let skip = improve cs b in
    let take = improve cs c in
    let score = score_endpoint_probe_candidate in
    elim (Bool-cases (text_eq c.host_ip [])) [
      | inl bare ↦ record {
        best = skip.best;
        result = rw (bare, best_loop) skip.result;
        origin = later skip.best c cs skip.origin;
        not_worse = skip.not_worse;
        all_beaten = (inl bare, skip.all_beaten);
      }
      | inr full ↦ elim (Bool-cases (int_ltb (score b) (score c))) [
        | inl better ↦ record {
          best = take.best;
          result = rw (full, better, best_loop) take.result;
          origin = elim take.origin [
            | inl same ↦ inr (inl same, subst Addressed (sym same) full)
            | inr (e, a) ↦ inr (inr e, a)
          ];
          not_worse = int_ltb-smaller (score take.best) (score b) (score c) better take.not_worse;
          all_beaten = (inr take.not_worse, take.all_beaten);
        }
        | inr worse ↦ record {
          best = skip.best;
          result = rw (full, worse, best_loop) skip.result;
          origin = later skip.best c cs skip.origin;
          not_worse = skip.not_worse;
          all_beaten = (
            inr (int_ltb-not_trans (score skip.best) (score b) (score c) worse skip.not_worse),
            skip.all_beaten,
          );
        }
      ]
    ]

-- What the selection finds in a probe.
abbrev pub Selected : List EndpointProbeCandidate → Type 0
Selected cs =
    ((best_loop cs none ≡ none) × All (λ c. text_eq c.host_ip [] ≡ true) cs)
    ⊎ ((best : EndpointProbeCandidate) × (best_loop cs none ≡ some best)
        × Elem best cs
        × Addressed best
        × All (Beaten best) cs)

-- Either no probed interface has an address and none is selected, or the selected one was probed,
-- has an address, and no other one with an address has a higher score.
pub best_loop-Selected : (cs : List EndpointProbeCandidate) → Selected cs
unfolding best_loop
best_loop-Selected [] = inl (refl, tt)
best_loop-Selected (c ∷ cs) = elim (Bool-cases (text_eq c.host_ip [])) [
  | inl bare ↦ by_rest bare (best_loop-Selected cs)
  | inr full ↦
      let found = improve cs c in
      inr (
        found.best,
        rw (full, best_loop) found.result,
        elim found.origin [ inl same ↦ inl same | inr (e, a) ↦ inr e ],
        elim found.origin [ inl same ↦ subst Addressed (sym same) full | inr (e, a) ↦ a ],
        (inr found.not_worse, found.all_beaten),
      )
]
  where
    by_rest : text_eq c.host_ip [] ≡ true → Selected cs → Selected (c ∷ cs)
    by_rest bare (inl (e, all)) = inl (rw (bare, best_loop) e, (bare, all))
    by_rest bare (inr (best, e, m, a, all)) =
        inr (best, rw (bare, best_loop) e, inr m, a, (inl bare, all))
