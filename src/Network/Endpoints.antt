-- ===== src/Network/Endpoints.antt =====
-- core/network/endpoint_selection: the score of a probed interface, and the address it leads to.
-- A score is an `int`; what a probe adds to it is taken to be small, so that nothing wraps.
pub mod Best
pub mod Resolved
mod Tests
use p2p_desktop_share_new.Base.{
  ℕ, Bool, true, false, not, ◌&&◌, ◌||◌, Option, none, some, List, [], ◌∷◌, ◌++◌, if◌then◌else◌,
}
use p2p_desktop_share_new.Base.Int.{ℤ, pos, negsuc, add_nat, sub_nat, int_ltb}
use p2p_desktop_share_new.Base.Text.{Text, codes, text_eq, contains}
use p2p_desktop_share_new.Network.Entries.{
  to_lower, trim_network_text, is_auto_endpoint_value, first_endpoint_entry_or,
}

pub record EndpointProbeCandidate : Type 0 where
  pub interface_name : Text
  pub interface_description : Text
  pub mode : Text
  pub host_ip : Text
  pub is_up : Bool
  pub is_running : Bool
  pub is_loopback : Bool
  pub is_tunnel : Bool
  pub is_virtual : Bool
  pub is_private_ipv4 : Bool
  pub is_apipa : Bool
  pub has_gateway : Bool
  pub is_wifi : Bool
  pub ipv4_enabled : Bool
  pub score_adjustment : ℤ

pub record EndpointProbeResult : Type 0 where
  pub candidates : List EndpointProbeCandidate
  pub detail : Text

pub record EndpointSelectionRequest : Type 0 where
  pub bind_address : Text
  pub advertise_address : Text

-- The fields of `NetworkInfo` that the selection sets.
pub record NetworkInfo : Type 0 where
  pub mode : Text
  pub host_ip : Text

pub record EndpointSelection : Type 0 where
  pub bind_address : Text
  pub advertise_address : Text
  pub preferred_host : Text
  pub used_auto_discovery : Bool
  pub network_info_available : Bool
  pub detail : Text
  pub network_info : NetworkInfo

abbrev pub plus_if : Bool → ℕ → ℤ → ℤ
plus_if b n score = if b then add_nat score n else score

abbrev pub minus_if : Bool → ℕ → ℤ → ℤ
minus_if b n score = if b then sub_nat score n else score

abbrev pub has_any : List Text → Text → Bool
has_any [] s = false
has_any (p ∷ ps) s = contains p s || has_any ps s

abbrev pub direct_words : List Text
direct_words = codes "wi-fi direct" ∷ codes "wifi direct" ∷ codes "miracast" ∷ []

abbrev pub hotspot_words : List Text
hotspot_words = codes "mobile hotspot" ∷ codes "hotspot" ∷ codes "hosted" ∷ []

abbrev pub virtual_words : List Text
virtual_words =
    codes "virtual"
    ∷ codes "hyper-v"
    ∷ codes "vmware"
    ∷ codes "vethernet"
    ∷ codes "virtualbox"
    ∷ codes "wsl"
    ∷ []

abbrev pub tunnel_words : List Text
tunnel_words =
    codes "bluetooth"
    ∷ codes "loopback"
    ∷ codes "teredo"
    ∷ codes "pseudo"
    ∷ codes "isatap"
    ∷ codes "vpn"
    ∷ codes "tap"
    ∷ codes "tun"
    ∷ []

-- `ScoreEndpointProbeCandidate`.
unfoldable pub score_endpoint_probe_candidate : EndpointProbeCandidate → ℤ
score_endpoint_probe_candidate candidate =
    let c = candidate in
    let combined =
      to_lower
        (c.interface_name ++ (codes " " ++ (c.interface_description ++ (codes " " ++ c.mode)))) in
    let s0 =
      if c.is_private_ipv4 then add_nat c.score_adjustment 200 else add_nat c.score_adjustment 20 in
    let s1 = plus_if c.is_wifi 40 s0 in
    let s2 = plus_if c.has_gateway 20 s1 in
    let s3 = plus_if c.ipv4_enabled 10 s2 in
    let s4 = plus_if c.is_up 100 s3 in
    let s5 = plus_if c.is_running 40 s4 in
    let s6 = plus_if (has_any direct_words combined) 60 s5 in
    let s7 = plus_if (has_any hotspot_words combined) 50 s6 in
    let s8 = minus_if (c.is_virtual || has_any virtual_words combined) 120 s7 in
    let s9 = minus_if (c.is_tunnel || c.is_loopback || has_any tunnel_words combined) 80 s8 in
    minus_if c.is_apipa 200 s9

-- The loop of `SelectPreferredNetworkInfo`: the first of the best candidates with an address.
pub best_loop :
    List EndpointProbeCandidate → Option EndpointProbeCandidate → Option EndpointProbeCandidate
best_loop [] best = best
best_loop (candidate ∷ candidates) best =
    let skipped = best_loop candidates best in
    let taken = best_loop candidates (some candidate) in
    if text_eq candidate.host_ip [] then skipped else elim best [
      | none ↦ taken
      | some b ↦
          if int_ltb (score_endpoint_probe_candidate b) (score_endpoint_probe_candidate candidate)
          then taken
          else skipped
    ]

abbrev pub describe_candidate : EndpointProbeCandidate → Text
describe_candidate c =
    (if text_eq c.interface_name [] then codes "unknown" else c.interface_name)
    ++ (codes " -> "
        ++ (c.host_ip ++ (if text_eq c.mode [] then [] else codes " (" ++ (c.mode ++ codes ")"))))

-- What `SelectPreferredNetworkInfo` makes of the best candidate; the detail in both cases.
abbrev pub selected_of :
    EndpointProbeResult → Option EndpointProbeCandidate → Option NetworkInfo × Text
selected_of probe none = (
  none,
  if text_eq probe.detail [] then codes "No active IPv4 adapter was detected." else probe.detail,
)
selected_of probe (some best) = (
  some (record {
    host_ip = best.host_ip;
    mode = if text_eq best.mode [] then codes "lan" else best.mode;
  }),
  if text_eq probe.detail []
      then codes "Auto-discovered host IP from " ++ describe_candidate best
      else probe.detail ++ (codes " Selected " ++ describe_candidate best),
)

-- `SelectPreferredNetworkInfo`.
pub select_preferred_network_info : EndpointProbeResult → Option NetworkInfo × Text
select_preferred_network_info probe = selected_of probe (best_loop probe.candidates none)

abbrev pub no_network_info : NetworkInfo
no_network_info = record { mode = []; host_ip = [] }

abbrev pub bind_of : EndpointSelectionRequest → Text
bind_of request =
    if is_auto_endpoint_value request.bind_address
    then codes "0.0.0.0"
    else trim_network_text request.bind_address

-- The end of `ResolveEndpointSelection`, without a probe that found an address.
pub loopback_selection : Text → Option EndpointProbeResult → EndpointSelection
loopback_selection bind probe = record {
  bind_address = bind;
  advertise_address = codes "127.0.0.1";
  preferred_host = codes "127.0.0.1";
  used_auto_discovery = false;
  network_info_available = false;
  network_info = no_network_info;
  detail = elim probe [
    | none ↦
        codes "Falling back to loopback advertise address because network discovery is unavailable."
    | some p ↦
        if text_eq p.detail []
        then codes
            "Falling back to loopback advertise address because network discovery is unavailable."
        else p.detail ++ codes " Falling back to loopback advertise address."
  ];
}

abbrev pub found_selection :
    Text → EndpointProbeResult → Option NetworkInfo × Text → EndpointSelection
found_selection bind probe (none, detail) = loopback_selection bind (some probe)
found_selection bind probe (some info, detail) =
    if text_eq info.host_ip [] then loopback_selection bind (some probe) else record {
      bind_address = bind;
      advertise_address = info.host_ip;
      preferred_host = info.host_ip;
      used_auto_discovery = true;
      network_info_available = true;
      network_info = info;
      detail = detail;
    }

abbrev pub probed_selection : Text → Option EndpointProbeResult → EndpointSelection
probed_selection bind none = loopback_selection bind none
probed_selection bind (some probe) =
    found_selection bind probe (select_preferred_network_info probe)

-- `ResolveEndpointSelection`; a null probe is `none`.
pub resolve_endpoint_selection :
    EndpointSelectionRequest → Option EndpointProbeResult → EndpointSelection
resolve_endpoint_selection request probe =
    let bind = bind_of request in
    if not (is_auto_endpoint_value request.advertise_address)
    then record {
      bind_address = bind;
      advertise_address = trim_network_text request.advertise_address;
      preferred_host = first_endpoint_entry_or request.advertise_address bind;
      used_auto_discovery = false;
      network_info_available = false;
      network_info = no_network_info;
      detail = codes "Using explicit advertise address from CLI arguments.";
    }
    else probed_selection bind probe
