-- ===== src/Runtime/Controller.antt =====
-- core/runtime/runtime_controller: the links of a session, the state of the handoff and the state
-- that the dashboard shows. Texts are lists of codes.
pub mod Links
mod Tests
use p2p_desktop_share_new.Base.{
  ℕ, suc, ◌==◌, ltb, String, Bool, true, false, not, ◌&&◌, ◌||◌, [], ◌∷◌, ◌++◌, if◌then◌else◌,
}
use p2p_desktop_share_new.Base.Int.{ℤ, pos, int_eq}
use p2p_desktop_share_new.Base.Text.{Text, codes, text_eq}
use p2p_desktop_share_new.Base.Decimal.{print_int}
use p2p_desktop_share_new.I18n.{append_locale_query}

-- The fields of `RuntimeSessionState` that these functions read.
pub record RuntimeSessionState : Type 0 where
  pub locale_code : Text
  pub host_ip : Text
  pub port : ℤ
  pub room : Text
  pub token : Text
  pub host_page_state : Text
  pub viewer_url_copied : Bool
  pub share_card_exported : Bool
  pub share_wizard_opened : Bool
  pub handoff_started : Bool
  pub handoff_delivered : Bool
  pub last_viewers : ℕ

-- The fields of `RuntimeHealthState` that these functions read.
pub record RuntimeHealthState : Type 0 where
  pub server_process_running : Bool
  pub local_health_ready : Bool
  pub host_ip_reachable : Bool

-- `IsHostStateSharing` and `IsHostStateReadyOrLoading`.
unfoldable pub is_host_state_sharing : Text → Bool
is_host_state_sharing state =
    text_eq state (codes "sharing")
    || text_eq state (codes "shared")
    || text_eq state (codes "streaming")

unfoldable pub is_host_state_ready_or_loading : Text → Bool
is_host_state_ready_or_loading state =
    text_eq state (codes "ready") || text_eq state (codes "loading") || is_host_state_sharing state

-- `ViewerHostOrLoopback`.
abbrev pub viewer_host_or_loopback : RuntimeSessionState → Text
viewer_host_or_loopback session =
    if text_eq session.host_ip [] then codes "127.0.0.1" else session.host_ip

-- A link without its locale.
abbrev pub link : Text → Text → RuntimeSessionState → Text
link host page session =
    codes "http://"
    ++ (host
        ++ (b':'
            ∷ (print_int session.port
                ++ (page
                    ++ (codes "?room=" ++ (session.room ++ (codes "&token=" ++ session.token)))))))

-- `BuildHostUrl`; the host page is always opened on this machine.
unfoldable pub build_host_url : RuntimeSessionState → Text
build_host_url session =
    append_locale_query (link (codes "127.0.0.1") (codes "/host") session) session.locale_code

-- `BuildViewerUrl`.
unfoldable pub build_viewer_url : RuntimeSessionState → Text
build_viewer_url session =
    append_locale_query (link (viewer_host_or_loopback session) (codes "/view") session)
      session.locale_code

pub record RuntimeHandoffSummary : Type 0 where
  pub state : String
  pub label : String
  pub detail : String

-- `BuildHandoffSummary`.
unfoldable pub build_handoff_summary :
    RuntimeSessionState → RuntimeHealthState → RuntimeHandoffSummary
build_handoff_summary session health =
    let begun =
      session.share_wizard_opened || session.handoff_started || session.viewer_url_copied
      || session.share_card_exported in
    let blocked =
      not health.server_process_running
      || not health.local_health_ready
      || not health.host_ip_reachable in
    if ltb 0 session.last_viewers || session.handoff_delivered
    then record {
      state = "delivered";
      label = "Delivered";
      detail =
          "A viewer is connected. Keep sharing, or open diagnostics if the remote device still reports issues.";
    }
    else if not begun
    then record {
      state = "not-started";
      label = "Not started";
      detail =
          "Open Share Wizard or copy the Viewer URL when you are ready to hand off the session.";
    }
    else if not blocked
    then record {
      state = "ready-for-handoff";
      label = "Ready For Handoff";
      detail =
          "The session looks healthy. Copy the Viewer URL, show the QR, or keep Share Wizard open while the other device connects.";
    }
    else record {
      state = "needs-fix";
      label = "Needs Fix";
      detail =
          if not health.server_process_running
          then "The share handoff has started, but the local service is not running. Start sharing again before sending the link."
          else if not health.host_ip_reachable
          then "The share handoff has started, but the selected LAN address is still not reachable. Refresh network selection before handing off again."
          else "The share handoff has started, but one or more live checks are still failing. Re-run checks before handing off again.";
    }

-- `ComputeDashboardOverallState`.
unfoldable pub compute_dashboard_overall_state :
    RuntimeSessionState → RuntimeHealthState → ℤ → String
compute_dashboard_overall_state session health p0_failure_count =
    if is_host_state_sharing session.host_page_state
    then "Sharing"
    else if int_eq p0_failure_count (pos 0)
        && health.server_process_running
        && is_host_state_ready_or_loading session.host_page_state
    then "Ready"
    else if health.server_process_running
        && (not health.local_health_ready || not health.host_ip_reachable)
    then "Error"
    else "Not Ready"
