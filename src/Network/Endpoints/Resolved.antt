-- ===== src/Network/Endpoints/Resolved.antt =====
-- The addresses that `ResolveEndpointSelection` gives.
use p2p_desktop_share_new.Base.{
  true, false, Option, none, some, [], ◌≡◌, inl, inr, refl, sym, subst, ◌∙◌, if-both, if_not-both,
  Elem, arith,
}
use p2p_desktop_share_new.Base.Text.{Text, text_eq}
use p2p_desktop_share_new.Network.Entries.{
  is_auto_endpoint_value, trim_network_text, first_entry-full,
}
use p2p_desktop_share_new.Network.Endpoints.{
  EndpointProbeCandidate, EndpointProbeResult, EndpointSelectionRequest, EndpointSelection,
  NetworkInfo, best_loop, select_preferred_network_info, selected_of, bind_of, loopback_selection,
  found_selection, probed_selection, resolve_endpoint_selection,
}
use p2p_desktop_share_new.Network.Endpoints.Best.{Addressed, best_loop-Selected}

-- Three addresses that can be used.
abbrev pub Usable : EndpointSelection → Type 0
Usable s =
    (text_eq s.bind_address [] ≡ false)
    × (text_eq s.advertise_address [] ≡ false)
    × (text_eq s.preferred_host [] ≡ false)

not_auto-full :
    (value : Text)
    → is_auto_endpoint_value value ≡ false
    → text_eq (trim_network_text value) [] ≡ false
unfolding is_auto_endpoint_value
not_auto-full value e = ground arith

bind_of-full : (request : EndpointSelectionRequest) → text_eq (bind_of request) [] ≡ false
unfolding text_eq
bind_of-full request =
    if-both (λ x. text_eq x [] ≡ false) (is_auto_endpoint_value request.bind_address) _ _
      (λ y. refl) (λ n. not_auto-full request.bind_address n)

loopback-Usable :
    (bind : Text) (probe : Option EndpointProbeResult)
    → text_eq bind [] ≡ false
    → Usable (loopback_selection bind probe)
unfolding loopback_selection text_eq
loopback-Usable bind probe full = (full, refl, refl)

found-Usable :
    (bind : Text) (probe : EndpointProbeResult) (found : Option NetworkInfo × Text)
    → text_eq bind [] ≡ false
    → Usable (found_selection bind probe found)
found-Usable bind probe (none, detail) full = loopback-Usable bind (some probe) full
found-Usable bind probe (some info, detail) full =
    if-both Usable (text_eq info.host_ip []) _ _ (λ y. loopback-Usable bind (some probe) full)
      (λ n. (full, n, n))

probed-Usable :
    (bind : Text) (probe : Option EndpointProbeResult)
    → text_eq bind [] ≡ false
    → Usable (probed_selection bind probe)
probed-Usable bind none full = loopback-Usable bind none full
probed-Usable bind (some probe) full =
    found-Usable bind probe (select_preferred_network_info probe) full

-- Whatever was asked for and probed, the bind address, the advertised address and the preferred
-- host are not empty.
pub resolve-Usable :
    (request : EndpointSelectionRequest) (probe : Option EndpointProbeResult)
    → Usable (resolve_endpoint_selection request probe)
unfolding resolve_endpoint_selection
resolve-Usable request probe =
    let bind = bind_of-full request in
    if_not-both Usable (is_auto_endpoint_value request.advertise_address) _ _
      (λ n. (
        bind,
        not_auto-full request.advertise_address n,
        first_entry-full request.advertise_address (bind_of request) bind,
      ))
      (λ y. probed-Usable (bind_of request) probe bind)

-- The selection used a probe's interface.
abbrev pub Discovered : EndpointProbeResult → EndpointSelection → Type 0
Discovered probe s =
    (best : EndpointProbeCandidate) × (best_loop probe.candidates none ≡ some best)
    × Elem best probe.candidates
    × (s.advertise_address ≡ best.host_ip)
    × (s.preferred_host ≡ best.host_ip)

best-Discovered :
    (bind : Text) (probe : EndpointProbeResult) (best : EndpointProbeCandidate)
    → best_loop probe.candidates none ≡ some best
    → Elem best probe.candidates
    → Addressed best
    → Discovered probe (found_selection bind probe (selected_of probe (some best)))
best-Discovered bind probe best found member full =
    if-both (Discovered probe) (text_eq best.host_ip []) _ _
      (λ bare. let bad : true ≡ false = sym bare ∙ full in cc)
      (λ n. (best, found, member, refl, refl))

no_best :
    (bind : Text) (probe : EndpointProbeResult)
    → (loopback_selection bind (some probe)).used_auto_discovery ≡ true
    → Discovered probe (loopback_selection bind (some probe))
unfolding loopback_selection
no_best bind probe e = cc

found-Discovered :
    (bind : Text) (probe : EndpointProbeResult)
    → (found_selection bind probe (select_preferred_network_info probe)).used_auto_discovery ≡ true
    → Discovered probe (found_selection bind probe (select_preferred_network_info probe))
unfolding select_preferred_network_info
found-Discovered bind probe = elim (best_loop-Selected probe.candidates) [
  | inl (nothing, all) ↦ subst Goal (sym nothing) (no_best bind probe)
  | inr (best, found, member, full, all) ↦
      subst Goal (sym found) (λ e. best-Discovered bind probe best found member full)
]
  where
    Goal : Option EndpointProbeCandidate → Type 0
    Goal o =
        (found_selection bind probe (selected_of probe o)).used_auto_discovery ≡ true
        → Discovered probe (found_selection bind probe (selected_of probe o))

-- Automatic discovery is used only for an automatic address, with a probe, and then the advertised
-- address is that of the selected interface, which was probed.
pub resolve-Discovered :
    (request : EndpointSelectionRequest) (probe : Option EndpointProbeResult)
    → (resolve_endpoint_selection request probe).used_auto_discovery ≡ true
    → (is_auto_endpoint_value request.advertise_address ≡ true)
      × ((p : EndpointProbeResult) × (probe ≡ some p)
          × Discovered p (resolve_endpoint_selection request probe))
unfolding resolve_endpoint_selection loopback_selection
resolve-Discovered request probe =
    if_not-both
      (λ s.
        s.used_auto_discovery ≡ true
        → (is_auto_endpoint_value request.advertise_address ≡ true)
          × ((p : EndpointProbeResult) × (probe ≡ some p) × Discovered p s))
      (is_auto_endpoint_value request.advertise_address) _ _ (λ n e. cc) (λ y. by_probe y probe)
  where
    by_probe :
        is_auto_endpoint_value request.advertise_address ≡ true
        → (probe : Option EndpointProbeResult)
        → (probed_selection (bind_of request) probe).used_auto_discovery ≡ true
        → (is_auto_endpoint_value request.advertise_address ≡ true)
          × ((p : EndpointProbeResult) × (probe ≡ some p)
              × Discovered p (probed_selection (bind_of request) probe))
    by_probe y none e = cc
    by_probe y (some p) e = (y, (p, refl, found-Discovered (bind_of request) p e))
