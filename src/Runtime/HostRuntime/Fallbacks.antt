-- ===== src/Runtime/HostRuntime/Fallbacks.antt =====
-- What the values from before a refresh are good for (host_runtime_coordinator.cpp).
use p2p_desktop_share_new.Base.{
  false, not, ◌&&◌, Option, none, some, [], ◌∷◌, ◌⊎◌, inl, inr, ◌≡◌, refl, ap, ◌∙◌, arith,
  Bool-cases,
}
use p2p_desktop_share_new.Base.Text.{Text, text_eq}
use p2p_desktop_share_new.Runtime.HostRuntime.{
  NetworkInfo, NetworkCapabilities, HotspotState, HostRuntimeRefreshInput, HostRuntimeRefreshResult,
  PlatformServices, ascii_wide, wide_or, existing, with_info, with_queried, with_state,
  with_network, with_capabilities, with_hotspot, coordinate_host_runtime_refresh,
  run_host_runtime_refresh_pipeline,
}

abbrev with_mode : Text → HostRuntimeRefreshInput → HostRuntimeRefreshInput
with_mode mode input = record input { existing_network_mode = mode }

coordinate-any_mode :
    (input : HostRuntimeRefreshInput) (mode : Text)
    → coordinate_host_runtime_refresh (with_mode mode input) ≡ coordinate_host_runtime_refresh input
unfolding coordinate_host_runtime_refresh with_network with_capabilities with_hotspot
coordinate-any_mode input mode = refl

info-with_mode :
    (probe : Text ⊎ NetworkInfo) (mode : Text) (input : HostRuntimeRefreshInput)
    → with_info probe (with_mode mode input) ≡ with_mode mode (with_info probe input)
info-with_mode (inl error) mode input = refl
info-with_mode (inr info) mode input = refl

queried-with_mode :
    (probe : Text ⊎ NetworkCapabilities) (mode : Text) (input : HostRuntimeRefreshInput)
    → with_queried probe (with_mode mode input) ≡ with_mode mode (with_queried probe input)
queried-with_mode (inl error) mode input = refl
queried-with_mode (inr capabilities) mode input = refl

state-with_mode :
    (probe : Text ⊎ HotspotState) (mode : Text) (input : HostRuntimeRefreshInput)
    → with_state probe (with_mode mode input) ≡ with_mode mode (with_state probe input)
state-with_mode (inl error) mode input = refl
state-with_mode (inr state) mode input = refl

-- Whatever the probes say, the network mode from before a refresh has no part in its result.
refresh-any_mode :
    (services : Option PlatformServices) (mode : Text) (base : HostRuntimeRefreshInput)
    → run_host_runtime_refresh_pipeline services (with_mode mode base)
      ≡ run_host_runtime_refresh_pipeline services base
refresh-any_mode none mode base = coordinate-any_mode base mode
refresh-any_mode (some services) mode base =
    ap
      (λ input. coordinate_host_runtime_refresh (
        with_state services.query_hotspot_state
          (with_queried services.query_network_capabilities input)))
      (info-with_mode services.get_current_network_info mode base)
    ∙ (ap (λ input. coordinate_host_runtime_refresh (with_state services.query_hotspot_state input))
          (queried-with_mode services.query_network_capabilities mode
            (with_info services.get_current_network_info base))
        ∙ (ap coordinate_host_runtime_refresh (
              state-with_mode services.query_hotspot_state mode (
                with_queried services.query_network_capabilities
                  (with_info services.get_current_network_info base)))
            ∙ coordinate-any_mode
                (with_state services.query_hotspot_state (
                  with_queried services.query_network_capabilities
                    (with_info services.get_current_network_info base)))
                mode))

wide-filled : (text : Text) → text_eq text [] ≡ false → text_eq (ascii_wide text) [] ≡ false
unfolding text_eq
wide-filled [] e = e
wide-filled (c ∷ text) e = refl

wide_or-filled :
    (otherwise text : Text)
    → text_eq otherwise [] ≡ false
    → text_eq (wide_or otherwise text) [] ≡ false
unfolding text_eq
wide_or-filled otherwise [] e = e
wide_or-filled otherwise (c ∷ text) e = refl

network-filled :
    (input : HostRuntimeRefreshInput) (result : HostRuntimeRefreshResult)
    → text_eq result.host_ip [] ≡ false
    → text_eq (with_network input result).host_ip [] ≡ false
unfolding with_network
network-filled input result e =
    elim (Bool-cases
      (input.network_info_available && not (text_eq input.network_info.host_ip []))) [
        | inl y ↦ rw y (wide-filled input.network_info.host_ip (ground arith))
        | inr n ↦ rw n e
      ]

capabilities-same_host :
    (input : HostRuntimeRefreshInput) (result : HostRuntimeRefreshResult)
    → (with_capabilities input result).host_ip ≡ result.host_ip
unfolding with_capabilities
capabilities-same_host input result = elim (Bool-cases input.capabilities_available) [
  | inl y ↦ rw y refl
  | inr n ↦ rw n refl
]

hotspot-filled :
    (input : HostRuntimeRefreshInput) (result : HostRuntimeRefreshResult)
    → text_eq result.host_ip [] ≡ false
    → text_eq (with_hotspot input result).host_ip [] ≡ false
unfolding with_hotspot
hotspot-filled input result e = elim (Bool-cases input.hotspot_state_available) [
  | inl y ↦ rw y (wide_or-filled result.host_ip input.hotspot_state.host_ip e)
  | inr n ↦ rw n e
]

-- A refresh that starts from an address has an address, whatever was probed.
coordinate-filled :
    (input : HostRuntimeRefreshInput)
    → text_eq input.fallback_host_ip [] ≡ false
    → text_eq (coordinate_host_runtime_refresh input).host_ip [] ≡ false
unfolding coordinate_host_runtime_refresh
coordinate-filled input e =
    let probed = with_network input (existing input) in
    hotspot-filled input (with_capabilities input probed) (
      ap (λ ip. text_eq ip []) (capabilities-same_host input probed)
      ∙ network-filled input (existing input) e)
