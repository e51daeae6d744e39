-- ===== src/Runtime/HostRuntime.antt =====
-- core/runtime/host_runtime_coordinator and platform/host_runtime_refresh_pipeline: what the shell
-- takes over from the probes of the network. Texts are lists of codes.
pub mod Fallbacks
use p2p_desktop_share_new.Base.{
  ℕ, ◌+◌, ltb, Bool, true, false, not, ◌&&◌, Option, none, some, List, [], ◌∷◌, ◌++◌, map, ◌⊎◌, inl,
  inr, if◌then◌else◌,
}
use p2p_desktop_share_new.Base.Text.{Text, codes, text_eq}

pub record NetworkInfo : Type 0 where
  pub mode : Text
  pub ssid : Text
  pub password : Text
  pub host_ip : Text

pub record NetworkCapabilities : Type 0 where
  pub wifi_adapter_present : Bool
  pub hotspot_supported : Bool
  pub process_elevated : Bool
  pub wifi_direct_api_available : Bool
  pub wifi_direct_needs_pairing_ui : Bool
  pub summary : Text

pub record HotspotState : Type 0 where
  pub supported : Bool
  pub running : Bool
  pub mode : Text
  pub ssid : Text
  pub password : Text
  pub host_ip : Text
  pub raw_status : Text

pub record HostRuntimeRefreshInput : Type 0 where
  pub fallback_host_ip : Text
  pub existing_network_mode : Text
  pub existing_hotspot_ssid : Text
  pub existing_hotspot_password : Text
  pub existing_wifi_adapter_present : Bool
  pub existing_hotspot_supported : Bool
  pub existing_wifi_direct_api_available : Bool
  pub network_info_available : Bool
  pub network_info : NetworkInfo
  pub network_info_error : Text
  pub capabilities_available : Bool
  pub capabilities : NetworkCapabilities
  pub capabilities_error : Text
  pub hotspot_state_available : Bool
  pub hotspot_state : HotspotState
  pub hotspot_state_error : Text

pub record HostRuntimeRefreshResult : Type 0 where
  pub host_ip : Text
  pub network_mode : Text
  pub hotspot_ssid : Text
  pub hotspot_password : Text
  pub hotspot_status : Text
  pub hotspot_running : Bool
  pub wifi_adapter_present : Bool
  pub hotspot_supported : Bool
  pub wifi_direct_api_available : Bool
  pub log_lines : List Text

-- A `char` made a `wchar_t` of 16 bits; `char` is signed.
abbrev pub wide_char : ℕ → ℕ
wide_char c = if ltb c 128 then c else 65280 + c

abbrev pub ascii_wide : Text → Text
ascii_wide text = map wide_char text

abbrev pub default_network_mode : Text → Text
default_network_mode host_ip = if text_eq host_ip [] then codes "unknown" else codes "lan"

abbrev pub resolve_hotspot_status : HotspotState → Text
resolve_hotspot_status state =
    if state.running
    then codes "running"
    else if not state.supported
    then codes "system settings required"
    else codes "stopped"

-- `error.empty()` or the line about the error.
abbrev pub error_line : Text → Text → List Text
error_line start error = if text_eq error [] then [] else (start ++ ascii_wide error) ∷ []

-- `text.empty() ? otherwise : text` and the like.
abbrev pub wide_or : Text → Text → Text
wide_or otherwise text = if text_eq text [] then otherwise else ascii_wide text

-- The result before any probe was looked at.
abbrev pub existing : HostRuntimeRefreshInput → HostRuntimeRefreshResult
existing input = record {
  host_ip = input.fallback_host_ip;
  network_mode =
      if text_eq input.existing_network_mode []
      then default_network_mode input.fallback_host_ip
      else input.existing_network_mode;
  hotspot_ssid = input.existing_hotspot_ssid;
  hotspot_password = input.existing_hotspot_password;
  hotspot_status = codes "stopped";
  hotspot_running = false;
  wifi_adapter_present = input.existing_wifi_adapter_present;
  hotspot_supported = input.existing_hotspot_supported;
  wifi_direct_api_available = input.existing_wifi_direct_api_available;
  log_lines = [];
}

-- The three blocks of `CoordinateHostRuntimeRefresh`.
unfoldable pub with_network :
    HostRuntimeRefreshInput → HostRuntimeRefreshResult → HostRuntimeRefreshResult
with_network input result =
    if input.network_info_available && not (text_eq input.network_info.host_ip [])
    then (let host_ip = ascii_wide input.network_info.host_ip in
        let mode = wide_or (codes "lan") input.network_info.mode in
        record result {
          host_ip = host_ip;
          network_mode = mode;
          log_lines =
              result.log_lines
              ++ ((codes "Network detected: mode=" ++ (mode ++ (codes ", ip=" ++ host_ip))) ∷ []);
        })
    else record result {
      network_mode = default_network_mode result.host_ip;
      log_lines =
          result.log_lines
          ++ (error_line (codes "NetworkManager fallback: ") input.network_info_error
              ++ ((codes "Host IP refreshed: "
                    ++ (if text_eq result.host_ip [] then codes "(none)" else result.host_ip))
                  ∷ []));
    }

unfoldable pub with_capabilities :
    HostRuntimeRefreshInput → HostRuntimeRefreshResult → HostRuntimeRefreshResult
with_capabilities input result =
    if input.capabilities_available
    then record result {
      wifi_adapter_present = input.capabilities.wifi_adapter_present;
      hotspot_supported = input.capabilities.hotspot_supported;
      wifi_direct_api_available = input.capabilities.wifi_direct_api_available;
    }
    else record result {
      log_lines =
          result.log_lines
          ++ error_line (codes "Capability probe failed: ") input.capabilities_error;
    }

unfoldable pub with_hotspot :
    HostRuntimeRefreshInput → HostRuntimeRefreshResult → HostRuntimeRefreshResult
with_hotspot input result =
    if input.hotspot_state_available
    then record result {
      hotspot_running = input.hotspot_state.running;
      hotspot_status = resolve_hotspot_status input.hotspot_state;
      hotspot_ssid = wide_or result.hotspot_ssid input.hotspot_state.ssid;
      hotspot_password = wide_or result.hotspot_password input.hotspot_state.password;
      host_ip = wide_or result.host_ip input.hotspot_state.host_ip;
    }
    else record result {
      log_lines =
          result.log_lines ++ error_line (codes "Hotspot state probe: ") input.hotspot_state_error;
    }

unfoldable pub coordinate_host_runtime_refresh : HostRuntimeRefreshInput → HostRuntimeRefreshResult
coordinate_host_runtime_refresh input =
    with_hotspot input (with_capabilities input (with_network input (existing input)))

-- `BuildNetworkCapabilitiesText`.
pub build_network_capabilities_text : HostRuntimeRefreshResult → Text
build_network_capabilities_text result =
    codes "Wi-Fi adapter: "
    ++ ((if result.wifi_adapter_present then codes "present" else codes "missing")
        ++ (codes "\r\nHotspot control: "
            ++ ((if result.hotspot_supported
                  then codes "supported / best effort"
                  else codes "not detected; use Windows Mobile Hotspot settings")
                ++ (codes "\r\nWi-Fi Direct API: "
                    ++ (if result.wifi_direct_api_available
                        then codes "available (pair via Windows UI)"
                        else codes "not detected")))))

-- The three probes of the platform; `inl` is a failure with its error.
pub record PlatformServices : Type 0 where
  pub get_current_network_info : Text ⊎ NetworkInfo
  pub query_network_capabilities : Text ⊎ NetworkCapabilities
  pub query_hotspot_state : Text ⊎ HotspotState

abbrev pub with_info : Text ⊎ NetworkInfo → HostRuntimeRefreshInput → HostRuntimeRefreshInput
with_info (inr info) input = record input {
  network_info_available = not (text_eq info.host_ip []);
  network_info = info;
}
with_info (inl error) input = record input { network_info_error = error }

abbrev pub with_queried :
    Text ⊎ NetworkCapabilities → HostRuntimeRefreshInput → HostRuntimeRefreshInput
with_queried (inr capabilities) input = record input {
  capabilities_available = true;
  capabilities = capabilities;
}
with_queried (inl error) input = record input { capabilities_error = error }

abbrev pub with_state : Text ⊎ HotspotState → HostRuntimeRefreshInput → HostRuntimeRefreshInput
with_state (inr state) input = record input {
  hotspot_state_available = true;
  hotspot_state = state;
}
with_state (inl error) input = record input { hotspot_state_error = error }

abbrev pub run_host_runtime_refresh_pipeline :
    Option PlatformServices → HostRuntimeRefreshInput → HostRuntimeRefreshResult
run_host_runtime_refresh_pipeline none base = coordinate_host_runtime_refresh base
run_host_runtime_refresh_pipeline (some services) base = coordinate_host_runtime_refresh (
    with_state services.query_hotspot_state (
      with_queried services.query_network_capabilities
        (with_info services.get_current_network_info base)))
