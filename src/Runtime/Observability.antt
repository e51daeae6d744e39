-- ===== src/Runtime/Observability.antt =====
-- core/runtime/host_observability_coordinator: the log, the timeline and what the host page
-- reported. Texts are lists of codes; numbers are printed and case is folded as in the "C" locale.
pub mod Bounds
pub mod Events
pub mod Handoff
mod Tests
use p2p_desktop_share_new.Base.{
  ℕ, zero, suc, ◌+◌, ◌-◌, ◌==◌, leb, ltb, Bool, true, false, not, ◌&&◌, ◌||◌, Option, none, some,
  List, [], ◌∷◌, ◌++◌, map, if◌then◌else◌, length, drop_first, String,
}
use p2p_desktop_share_new.Base.Int.{ℤ, pos, negsuc, int_eq}
use p2p_desktop_share_new.Base.Text.{Text, codes, text_eq, contains, fold_case}
use p2p_desktop_share_new.Base.Decimal.{decimal, print_int}
use p2p_desktop_share_new.Runtime.Bridge.Inbound.{ShellBridgeInboundMessage}

pub record HostObservabilityLogEntry : Type 0 where
  pub timestamp : Text
  pub level : Text
  pub source : Text
  pub message : Text

pub record HostObservabilityState : Type 0 where
  pub log_text : Text
  pub timeline_text : Text
  pub last_error_summary : Text
  pub host_page_state : Text
  pub capture_state : Text
  pub capture_label : Text
  pub last_rooms : ℕ
  pub last_viewers : ℕ
  pub handoff_delivered : Bool
  pub log_entries : List HostObservabilityLogEntry

pub record HostObservabilityMutationResult : Type 0 where
  pub state : HostObservabilityState
  pub refresh_share_info : Bool
  pub refresh_share_info_lightweight : Bool
  pub refresh_dashboard : Bool
  pub refresh_diagnostics : Bool
  pub update_tray_icon : Bool
  pub stats_text : Text

pub record HostObservabilityFilter : Type 0 where
  pub search_text : Text
  pub level_filter : Text
  pub source_filter : Text

-- `ContainsCaseInsensitive`.
unfoldable pub contains_case_insensitive : Text → Text → Bool
contains_case_insensitive text needle = contains (map fold_case needle) (map fold_case text)

abbrev pub mentions : Text → String → Bool
mentions line word = contains_case_insensitive line (codes word)

-- `DetectLogLevel` and `DetectLogSource`.
unfoldable pub detect_log_level : Text → Text
detect_log_level line =
    if mentions line "failed" || mentions line "error"
    then codes "Error"
    else if mentions line "warn" || mentions line "attention"
    then codes "Warning"
    else codes "Info"

unfoldable pub detect_log_source : Text → Text
detect_log_source line =
    if mentions line "[host-page]" || mentions line "webview"
    then codes "webview"
    else if mentions line "network" || mentions line "hotspot" || mentions line "wifi"
    then codes "network"
    else if mentions line "[spawn]" || mentions line "/health" || mentions line "server"
    then codes "server"
    else codes "app"

-- A sequence above the limit loses its front down to what is kept.
unfoldable pub keep_back {ℓ} : {A : Type ℓ} → ℕ → ℕ → List A → List A
keep_back limit kept xs = if ltb limit (length xs) then drop_first (length xs - kept) xs else xs

-- More than 400 entries lose their first 120.
unfoldable pub trim_entries {ℓ} : {A : Type ℓ} → List A → List A
trim_entries xs = if ltb 400 (length xs) then drop_first 120 xs else xs

-- `TrimLogStorage` and `TrimTimelineStorage`.
unfoldable pub trim_log_storage : HostObservabilityState → HostObservabilityState
trim_log_storage state = record state {
  log_text = keep_back 32000 28000 state.log_text;
  log_entries = trim_entries state.log_entries;
}

unfoldable pub trim_timeline_storage : HostObservabilityState → HostObservabilityState
trim_timeline_storage state = record state {
  timeline_text = keep_back 24000 20000 state.timeline_text;
}

-- A line with its time.
abbrev pub stamped_line : Text → Text → Text
stamped_line timestamp text = b'[' ∷ (timestamp ++ (codes "] " ++ (text ++ (13 ∷ 10 ∷ []))))

-- `AppendTimeline`.
unfoldable pub append_timeline : Text → Text → HostObservabilityState → HostObservabilityState
append_timeline timestamp event state =
    trim_timeline_storage
      (record state { timeline_text = state.timeline_text ++ stamped_line timestamp event })

abbrev pub unchanged_result : HostObservabilityState → HostObservabilityMutationResult
unchanged_result state = record {
  state = state;
  refresh_share_info = false;
  refresh_share_info_lightweight = false;
  refresh_dashboard = false;
  refresh_diagnostics = false;
  update_tray_icon = false;
  stats_text = [];
}

abbrev pub is_problem : Text → Bool
is_problem line =
    mentions line "failed"
    || mentions line "error"
    || mentions line "blocked"
    || mentions line "missing"

-- `AppendHostObservabilityLog`.
unfoldable pub append_host_observability_log :
    HostObservabilityState → Text → Text → HostObservabilityMutationResult
append_host_observability_log state timestamp line =
    let entry : HostObservabilityLogEntry = record {
      timestamp = timestamp;
      level = detect_log_level line;
      source = detect_log_source line;
      message = line;
    } in
    let trimmed = trim_log_storage (record state {
      log_text = state.log_text ++ stamped_line timestamp line;
      log_entries = state.log_entries ++ entry ∷ [];
    }) in
    record (unchanged_result (record trimmed {
      last_error_summary = if is_problem line then line else trimmed.last_error_summary;
    })) { refresh_dashboard = true; refresh_diagnostics = true }

-- `AppendHostObservabilityTimelineEvent`.
unfoldable pub append_host_observability_timeline_event :
    HostObservabilityState → Text → Text → HostObservabilityMutationResult
append_host_observability_timeline_event state timestamp event =
    unchanged_result (append_timeline timestamp event state)

-- The event of a new state of the host page, of the capture and of its label, if it has one.
unfoldable pub page_event : Text → Option Text
page_event now =
    if text_eq now (codes "loading")
    then some (codes "Host page loading")
    else if text_eq now (codes "ready")
    then some (codes "Host page loaded")
    else if text_eq now (codes "sharing")
    then some (codes "Host page sharing started")
    else none

unfoldable pub capture_event : Text → Option Text
capture_event now =
    if text_eq now (codes "selecting")
    then some (codes "Capture picker opened")
    else if text_eq now (codes "active")
    then some (codes "Capture source selected")
    else if text_eq now (codes "idle")
    then some (codes "Capture stopped")
    else if not (text_eq now [])
    then some (codes "Capture state: " ++ now)
    else none

unfoldable pub label_event : Text → Text → Option Text
label_event before now =
    if not (text_eq now [])
    then some (codes "Capture target: " ++ now)
    else if not (text_eq before [])
    then some (codes "Capture target cleared")
    else none

unfoldable pub take_viewers : Option ℕ → HostObservabilityState → HostObservabilityState
take_viewers none state = state
take_viewers (some viewers) state = record state { last_viewers = viewers }

-- The event of a change in the number of viewers.
unfoldable pub viewers_event : ℕ → ℕ → Option Text
viewers_event before now =
    if before == 0 && ltb 0 now
    then some (codes "First viewer connected")
    else if ltb 0 before && now == 0
    then some (codes "Viewer disconnected")
    else none

module _ (timestamp : Text) where
  abbrev pub note : Option Text → HostObservabilityState → HostObservabilityState
  note none state = state
  note (some event) state = append_timeline timestamp event state

  -- The event is noted only if the value differs from the one before.
  abbrev pub note_change :
      Text → Text → Option Text → HostObservabilityState → HostObservabilityState
  note_change before now event state = if text_eq before now then state else note event state

  unfoldable pub take_page : Text → HostObservabilityState → HostObservabilityState
  take_page now state =
      if text_eq now []
      then state
      else record (note_change state.host_page_state now (page_event now) state) {
        host_page_state = now;
      }

  unfoldable pub take_capture : Option Text → HostObservabilityState → HostObservabilityState
  take_capture none state = state
  take_capture (some now) state =
      record (note_change state.capture_state now (capture_event now) state) { capture_state = now }

  unfoldable pub take_label : Option Text → HostObservabilityState → HostObservabilityState
  take_label none state = state
  take_label (some now) state =
      record (note_change state.capture_label now (label_event state.capture_label now) state) {
        capture_label = now;
      }

  -- `CoordinateHostStatusMessage`.
  unfoldable pub coordinate_host_status_message :
      HostObservabilityState → ShellBridgeInboundMessage → HostObservabilityMutationResult
  coordinate_host_status_message state message =
      let page = take_page message.host_state state in
      let capture = take_capture message.capture_state page in
      let label = take_label message.capture_label capture in
      record (unchanged_result (take_viewers message.viewers label)) {
        refresh_share_info_lightweight = true;
      }

  abbrev pub polled : ℤ → ℕ → ℕ → HostObservabilityState → HostObservabilityState × Text
  polled status rooms viewers state =
      if int_eq status (pos 200)
      then (
        record (note (viewers_event state.last_viewers viewers) state) {
          last_rooms = rooms;
          last_viewers = viewers;
        },
        codes "Rooms: " ++ (decimal rooms ++ (codes "  Viewers: " ++ decimal viewers)),
      )
      else (state, codes "Rooms: -  Viewers: - (status=" ++ (print_int status ++ (b')' ∷ [])))

  -- `CoordinateHostPollResult`.
  unfoldable pub coordinate_host_poll_result :
      HostObservabilityState → ℤ → ℕ → ℕ → HostObservabilityMutationResult
  coordinate_host_poll_result state status rooms viewers =
      let (next, stats) = polled status rooms viewers state in
      record (unchanged_result (record next {
        handoff_delivered = if ltb 0 next.last_viewers then true else next.handoff_delivered;
      })) { stats_text = stats; refresh_share_info = true; update_tray_icon = true }

-- An entry is skipped by the first test that it fails.
unfoldable pub passes : HostObservabilityFilter → HostObservabilityLogEntry → Bool
passes filter entry =
    if not (text_eq filter.level_filter []) && not (text_eq entry.level filter.level_filter)
    then false
    else if not (text_eq filter.source_filter []) && not (text_eq entry.source filter.source_filter)
    then false
    else if not (text_eq filter.search_text [])
        && not (contains_case_insensitive entry.message filter.search_text)
    then false
    else true

abbrev pub entry_line : HostObservabilityLogEntry → Text
entry_line entry =
    b'['
    ∷ (entry.timestamp
        ++ (codes "]["
            ++ (entry.level
                ++ (codes "]["
                    ++ (entry.source ++ (codes "] " ++ (entry.message ++ (13 ∷ 10 ∷ []))))))))

unfoldable pub filtered_lines : HostObservabilityFilter → List HostObservabilityLogEntry → Text
filtered_lines filter [] = []
filtered_lines filter (entry ∷ entries) =
    let rest = filtered_lines filter entries in
    if passes filter entry then entry_line entry ++ rest else rest

-- `BuildHostObservabilityFilteredLogText`.
unfoldable pub build_host_observability_filtered_log_text :
    HostObservabilityState → HostObservabilityFilter → Text
build_host_observability_filtered_log_text state filter = filtered_lines filter state.log_entries
