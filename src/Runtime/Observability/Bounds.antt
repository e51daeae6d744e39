-- ===== src/Runtime/Observability/Bounds.antt =====
-- The size of the log and of the timeline, and what trimming keeps
-- (host_observability_coordinator.cpp).
use p2p_desktop_share_new.Base.{
  ℕ, zero, suc, ◌-◌, ◌≤◌, ltb, Option, none, some, List, [], ◌∷◌, ◌++◌, length, length-append,
  drop_first, length-drop_first, ◌≡◌, refl, arith, if-both, ltb→lt,
}
use p2p_desktop_share_new.Base.Int.{ℤ, pos, int_eq}
use p2p_desktop_share_new.Base.Text.{Text, text_eq}
use p2p_desktop_share_new.Runtime.Bridge.Inbound.{ShellBridgeInboundMessage}
use p2p_desktop_share_new.Runtime.Observability.{
  HostObservabilityState, HostObservabilityLogEntry, keep_back, trim_entries, trim_log_storage,
  detect_log_level, detect_log_source, trim_timeline_storage, stamped_line, append_timeline,
  append_host_observability_log, append_host_observability_timeline_event, page_event,
  capture_event, label_event, note, note_change, take_page, take_capture, take_label, take_viewers,
  coordinate_host_status_message, viewers_event, coordinate_host_poll_result,
}

-- The limits of the log text, of the entries and of the timeline.
abbrev pub Bounded : HostObservabilityState → Type 0
Bounded state =
    (length state.log_text ≤ 32000)
    × (length state.log_entries ≤ 400)
    × (length state.timeline_text ≤ 24000)

keep_back-le :
    {A : Type 0} (limit kept : ℕ) (xs : List A)
    → kept ≤ limit
    → length (keep_back limit kept xs) ≤ limit
unfolding keep_back
keep_back-le {A = A} limit kept xs less =
    if-both (λ (ys : List A). length ys ≤ limit) (ltb limit (length xs)) _ _
      (λ long. let h = length-drop_first (length xs - kept) xs in ground arith)
      (λ short. ground arith)

trim_entries-le : {A : Type 0} (xs : List A) → length xs ≤ 401 → length (trim_entries xs) ≤ 400
unfolding trim_entries
trim_entries-le {A = A} xs few =
    if-both (λ (ys : List A). length ys ≤ 400) (ltb 400 (length xs)) _ _
      (λ long. let h = length-drop_first 120 xs in omega arith) (λ short. ground arith)

add_entry-le :
    {A : Type 0} (xs : List A) (x : A)
    → length xs ≤ 400
    → length (trim_entries (xs ++ x ∷ [])) ≤ 400
add_entry-le xs x few =
    trim_entries-le (xs ++ x ∷ []) (let h = length-append xs (x ∷ []) in omega arith)

append_timeline-Bounded :
    (timestamp event : Text) (state : HostObservabilityState)
    → Bounded state
    → Bounded (append_timeline timestamp event state)
unfolding append_timeline trim_timeline_storage
append_timeline-Bounded timestamp event state (log, entries, timeline) = (
  log,
  entries,
  keep_back-le 24000 20000 (state.timeline_text ++ stamped_line timestamp event) (omega arith),
)

note-Bounded :
    (timestamp : Text) (event : Option Text) (state : HostObservabilityState)
    → Bounded state
    → Bounded (note timestamp event state)
note-Bounded timestamp none state bounded = bounded
note-Bounded timestamp (some event) state bounded =
    append_timeline-Bounded timestamp event state bounded

note_change-Bounded :
    (timestamp before now : Text) (event : Option Text) (state : HostObservabilityState)
    → Bounded state
    → Bounded (note_change timestamp before now event state)
note_change-Bounded timestamp before now event state bounded =
    if-both Bounded (text_eq before now) _ _ (λ same. bounded)
      (λ changed. note-Bounded timestamp event state bounded)

module _ (timestamp : Text) (state : HostObservabilityState) (bounded : Bounded state) where
  log-Bounded : (line : Text) → Bounded (append_host_observability_log state timestamp line).state
  unfolding append_host_observability_log trim_log_storage
  log-Bounded line = (
    keep_back-le 32000 28000 (state.log_text ++ stamped_line timestamp line) (omega arith),
    add_entry-le state.log_entries _ bounded.1,
    bounded.2,
  )

  take_page-Bounded : (now : Text) → Bounded (take_page timestamp now state)
  unfolding take_page
  take_page-Bounded now =
      if-both Bounded (text_eq now []) _ _ (λ e. bounded)
        (λ e.
          note_change-Bounded timestamp state.host_page_state now (page_event now) state bounded)

  take_capture-Bounded : (now : Option Text) → Bounded (take_capture timestamp now state)
  unfolding take_capture
  take_capture-Bounded none = bounded
  take_capture-Bounded (some now) =
      note_change-Bounded timestamp state.capture_state now (capture_event now) state bounded

  take_label-Bounded : (now : Option Text) → Bounded (take_label timestamp now state)
  unfolding take_label
  take_label-Bounded none = bounded
  take_label-Bounded (some now) =
      note_change-Bounded timestamp state.capture_label now (label_event state.capture_label now)
        state bounded

  take_viewers-Bounded : (viewers : Option ℕ) → Bounded (take_viewers viewers state)
  unfolding take_viewers
  take_viewers-Bounded none = bounded
  take_viewers-Bounded (some viewers) = bounded

  poll-Bounded :
      (status : ℤ) (rooms viewers : ℕ)
      → Bounded (coordinate_host_poll_result timestamp state status rooms viewers).state
  unfolding coordinate_host_poll_result
  poll-Bounded status rooms viewers =
      if-both (λ (p : HostObservabilityState × Text). Bounded p.0) (int_eq status (pos 200)) _ _
        (λ e. note-Bounded timestamp (viewers_event state.last_viewers viewers) state bounded)
        (λ e. bounded)

status-Bounded :
    (timestamp : Text) (state : HostObservabilityState) (message : ShellBridgeInboundMessage)
    → Bounded state
    → Bounded (coordinate_host_status_message timestamp state message).state
unfolding coordinate_host_status_message
status-Bounded timestamp state message bounded =
    let page = take_page timestamp message.host_state state in
    let capture = take_capture timestamp message.capture_state page in
    let label = take_label timestamp message.capture_label capture in
    let page_b = take_page-Bounded timestamp state bounded message.host_state in
    let capture_b = take_capture-Bounded timestamp page page_b message.capture_state in
    let label_b = take_label-Bounded timestamp capture capture_b message.capture_label in
    take_viewers-Bounded timestamp label label_b message.viewers

-- What the shell passes on, each with its time.
pub data HostEvent : Type 0 where
  line_logged : Text → Text → HostEvent
  event_noted : Text → Text → HostEvent
  status_received : Text → ShellBridgeInboundMessage → HostEvent
  server_polled : Text → ℤ → ℕ → ℕ → HostEvent

unfoldable pub observed : HostObservabilityState → HostEvent → HostObservabilityState
observed state (line_logged time line) = (append_host_observability_log state time line).state
observed state (event_noted time event) =
    (append_host_observability_timeline_event state time event).state
observed state (status_received time message) =
    (coordinate_host_status_message time state message).state
observed state (server_polled time status rooms viewers) =
    (coordinate_host_poll_result time state status rooms viewers).state

unfoldable pub observe_all : HostObservabilityState → List HostEvent → HostObservabilityState
observe_all state [] = state
observe_all state (event ∷ events) = observe_all (observed state event) events

observed-Bounded :
    (state : HostObservabilityState) (event : HostEvent)
    → Bounded state
    → Bounded (observed state event)
unfolding observed append_host_observability_timeline_event
observed-Bounded state (line_logged time line) bounded = log-Bounded time state bounded line
observed-Bounded state (event_noted time event) bounded =
    append_timeline-Bounded time event state bounded
observed-Bounded state (status_received time message) bounded =
    status-Bounded time state message bounded
observed-Bounded state (server_polled time status rooms viewers) bounded =
    poll-Bounded time state bounded status rooms viewers

-- From a state within the limits, no sequence of logged lines, events, status messages and polls
-- leaves them: the log text has at most 32000 codes, the log 400 entries, the timeline 24000 codes.
pub observe_all-Bounded :
    (state : HostObservabilityState) (events : List HostEvent)
    → Bounded state
    → Bounded (observe_all state events)
unfolding observe_all
observe_all-Bounded state [] bounded = bounded
observe_all-Bounded state (event ∷ events) bounded =
    observe_all-Bounded (observed state event) events (observed-Bounded state event bounded)

drop_first-append :
    {A : Type 0} (n : ℕ) (front back : List A)
    → n ≤ length front
    → drop_first n (front ++ back) ≡ drop_first n front ++ back
drop_first-append zero front back few = refl
drop_first-append (suc n) [] back few = let bad : suc n ≤ 0 = few in ground arith
drop_first-append (suc n) (x ∷ front) back few = drop_first-append n front back (omega (arith, few))

-- Trimming keeps the back as a whole if it is not longer than what is kept.
keep_back-append :
    {A : Type 0} (limit kept : ℕ) (front back : List A)
    → length back ≤ kept
    → (rest : List A) × (keep_back limit kept (front ++ back) ≡ rest ++ back)
unfolding keep_back
keep_back-append {A = A} limit kept front back short =
    if-both (λ (ys : List A). (rest : List A) × (ys ≡ rest ++ back))
      (ltb limit (length (front ++ back)))
      (drop_first (length (front ++ back) - kept) (front ++ back)) (front ++ back)
      (λ long.
        let n = length (front ++ back) - kept in
        let h = length-append front back in
        (drop_first n front, drop_first-append n front back (omega (arith, h, short))))
      (λ fits. (front, refl))

trim_entries-append :
    {A : Type 0} (front : List A) (x : A)
    → (rest : List A) × (trim_entries (front ++ x ∷ []) ≡ rest ++ x ∷ [])
unfolding trim_entries
trim_entries-append {A = A} front x =
    if-both (λ (ys : List A). (rest : List A) × (ys ≡ rest ++ x ∷ []))
      (ltb 400 (length (front ++ x ∷ []))) (drop_first 120 (front ++ x ∷ [])) (front ++ x ∷ [])
      (λ long.
        let h = length-append front (x ∷ []) in
        let many = ltb→lt 400 (length (front ++ x ∷ [])) long in
        (drop_first 120 front, drop_first-append 120 front (x ∷ []) (omega (arith, h, many))))
      (λ fits. (front, refl))

-- A logged line that is not longer than 28000 codes with its time and its end stands at the end of
-- the log text, and its entry is the last one, whatever was trimmed.
pub log-keeps :
    (state : HostObservabilityState) (timestamp line : Text)
    → length (stamped_line timestamp line) ≤ 28000
    → let after = (append_host_observability_log state timestamp line).state in
      ((front : Text) × (after.log_text ≡ front ++ stamped_line timestamp line))
      × ((older : List HostObservabilityLogEntry) × (after.log_entries
            ≡ older
              ++ record {
                timestamp = timestamp;
                level = detect_log_level line;
                source = detect_log_source line;
                message = line;
              }
                ∷ []))
unfolding append_host_observability_log trim_log_storage
log-keeps state timestamp line short = (
  keep_back-append 32000 28000 state.log_text (stamped_line timestamp line) short,
  trim_entries-append state.log_entries _,
)
