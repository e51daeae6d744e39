-- ===== src/Runtime/Observability/Handoff.antt =====
-- The handoff flag in sequences of events (host_observability_coordinator.cpp).
use p2p_desktop_share_new.Base.{
  ℕ, ◌<◌, ltb, true, Option, none, some, List, [], ◌∷◌, if◌then◌else◌, ◌≡◌, refl, arith, if-both,
}
use p2p_desktop_share_new.Base.Int.{ℤ, pos, int_eq}
use p2p_desktop_share_new.Base.Text.{Text, text_eq}
use p2p_desktop_share_new.Runtime.Observability.{
  HostObservabilityState, append_timeline, append_host_observability_log, trim_log_storage,
  append_host_observability_timeline_event, trim_timeline_storage, note, note_change, take_page,
  take_capture, take_label, take_viewers, coordinate_host_status_message, viewers_event, page_event,
  capture_event, label_event, coordinate_host_poll_result,
}
use p2p_desktop_share_new.Runtime.Observability.Bounds.{
  HostEvent, line_logged, event_noted, status_received, server_polled, observed, observe_all,
}

abbrev Delivered : HostObservabilityState → Type 0
Delivered state = state.handoff_delivered ≡ true

module _ (timestamp : Text) where
  note-Delivered :
      (event : Option Text) (s : HostObservabilityState)
      → Delivered s
      → Delivered (note timestamp event s)
  unfolding append_timeline trim_timeline_storage
  note-Delivered none s d = d
  note-Delivered (some event) s d = d

  note_change-Delivered :
      (before now : Text) (event : Option Text) (s : HostObservabilityState)
      → Delivered s
      → Delivered (note_change timestamp before now event s)
  note_change-Delivered before now event s d =
      if-both Delivered (text_eq before now) _ _ (λ e. d) (λ e. note-Delivered event s d)

  take_page-Delivered :
      (now : Text) (s : HostObservabilityState)
      → Delivered s
      → Delivered (take_page timestamp now s)
  unfolding take_page
  take_page-Delivered now s d =
      if-both Delivered (text_eq now []) _ _ (λ e. d)
        (λ e. note_change-Delivered s.host_page_state now (page_event now) s d)

  take_capture-Delivered :
      (now : Option Text) (s : HostObservabilityState)
      → Delivered s
      → Delivered (take_capture timestamp now s)
  unfolding take_capture
  take_capture-Delivered none s d = d
  take_capture-Delivered (some now) s d =
      note_change-Delivered s.capture_state now (capture_event now) s d

  take_label-Delivered :
      (now : Option Text) (s : HostObservabilityState)
      → Delivered s
      → Delivered (take_label timestamp now s)
  unfolding take_label
  take_label-Delivered none s d = d
  take_label-Delivered (some now) s d =
      note_change-Delivered s.capture_label now (label_event s.capture_label now) s d

  poll-Delivered :
      (s : HostObservabilityState) (status : ℤ) (rooms viewers : ℕ)
      → Delivered s
      → Delivered (coordinate_host_poll_result timestamp s status rooms viewers).state
  unfolding coordinate_host_poll_result
  poll-Delivered s status rooms viewers d =
      if-both
        (λ (p : HostObservabilityState × Text).
          (if ltb 0 p.0.last_viewers then true else p.0.handoff_delivered) ≡ true)
        (int_eq status (pos 200)) _ _
        (λ e.
          if-both (λ b. b ≡ true) (ltb 0 viewers) true _ (λ e. refl)
            (λ e. note-Delivered (viewers_event s.last_viewers viewers) s d))
        (λ e.
          if-both (λ b. b ≡ true) (ltb 0 s.last_viewers) true s.handoff_delivered (λ e. refl)
            (λ e. d))

take_viewers-Delivered :
    (now : Option ℕ) (s : HostObservabilityState) → Delivered s → Delivered (take_viewers now s)
unfolding take_viewers
take_viewers-Delivered none s d = d
take_viewers-Delivered (some now) s d = d

observed-Delivered :
    (s : HostObservabilityState) (event : HostEvent) → Delivered s → Delivered (observed s event)
unfolding observed append_host_observability_log trim_log_storage append_timeline
    append_host_observability_timeline_event trim_timeline_storage coordinate_host_status_message
observed-Delivered s (line_logged time line) d = d
observed-Delivered s (event_noted time event) d = d
observed-Delivered s (status_received time m) d =
    let page = take_page time m.host_state s in
    let capture = take_capture time m.capture_state page in
    let label = take_label time m.capture_label capture in
    take_viewers-Delivered m.viewers label (
      take_label-Delivered time m.capture_label capture (
        take_capture-Delivered time m.capture_state page
          (take_page-Delivered time m.host_state s d)))
observed-Delivered s (server_polled time status rooms viewers) d =
    poll-Delivered time s status rooms viewers d

observe_all-Delivered :
    (s : HostObservabilityState) (events : List HostEvent)
    → Delivered s
    → Delivered (observe_all s events)
unfolding observe_all
observe_all-Delivered s [] d = d
observe_all-Delivered s (event ∷ events) d =
    observe_all-Delivered (observed s event) events (observed-Delivered s event d)

-- A poll that the server answers with status 200 and a viewer marks the handoff as delivered, and
-- it stays so in whatever the shell passes on afterwards.
pub viewer-delivers :
    (s : HostObservabilityState) (time : Text) (rooms viewers : ℕ) (later : List HostEvent)
    → 0 < viewers
    → (observe_all s (server_polled time (pos 200) rooms viewers ∷ later)).handoff_delivered ≡ true
unfolding observe_all observed coordinate_host_poll_result
viewer-delivers s time rooms viewers later some_viewer =
    let there : ltb 0 viewers ≡ true = ground arith in
    observe_all-Delivered (observed s (server_polled time (pos 200) rooms viewers)) later
      (rw there refl)
