-- ===== src/Runtime/Observability/Events.antt =====
-- Status messages that repeat what is known, the handoff, and the filtered log
-- (host_observability_coordinator.cpp).
use p2p_desktop_share_new.Base.{
  ℕ, Bool, true, false, not, ◌&&◌, Option, none, some, List, [], ◌∷◌, ◌++◌, if◌then◌else◌, ◌≡◌, ◌⊎◌,
  inl, inr, refl, sym, ap, ◌∙◌, if-both, Bool-cases, subst, ◌↔◌,
}
use p2p_desktop_share_new.Base.Text.{Text, text_eq, text_eq_refl, text_eq_sound}
use p2p_desktop_share_new.Runtime.Bridge.Inbound.{ShellBridgeInboundMessage}
use p2p_desktop_share_new.Runtime.Observability.{
  HostObservabilityState, HostObservabilityLogEntry, HostObservabilityFilter, append_timeline,
  trim_timeline_storage, note, note_change, take_page, take_capture, take_label, take_viewers,
  coordinate_host_status_message, page_event, capture_event, label_event, passes, entry_line,
  filtered_lines, build_host_observability_filtered_log_text, contains_case_insensitive,
}

-- What the host page reported.
record Same (s t : HostObservabilityState) : Type 0 where
  page : s.host_page_state ≡ t.host_page_state
  capture : s.capture_state ≡ t.capture_state
  label : s.capture_label ≡ t.capture_label
  viewers : s.last_viewers ≡ t.last_viewers
  delivered : s.handoff_delivered ≡ t.handoff_delivered

Same_refl : (s : HostObservabilityState) → Same s s
Same_refl s = record { page = refl; capture = refl; label = refl; viewers = refl; delivered = refl }

module _ (timestamp : Text) where
  note-Same : (event : Option Text) (s : HostObservabilityState) → Same (note timestamp event s) s
  unfolding append_timeline trim_timeline_storage
  note-Same none s = Same_refl s
  note-Same (some event) s = record {
    page = refl;
    capture = refl;
    label = refl;
    viewers = refl;
    delivered = refl;
  }

  note_change-Same :
      (before now : Text) (event : Option Text) (s : HostObservabilityState)
      → Same (note_change timestamp before now event s) s
  note_change-Same before now event s =
      if-both (λ x. Same x s) (text_eq before now) _ _ (λ e. Same_refl s) (λ e. note-Same event s)

  note_change-still :
      (now : Text) (event : Option Text) (s : HostObservabilityState)
      → note_change timestamp now now event s ≡ s
  note_change-still now event s = rw (text_eq_refl now) refl

abbrev Reports : Option Text → Text → Type 0
Reports none known = Unit
Reports (some now) known = known ≡ now

abbrev Counts : Option ℕ → ℕ → Type 0
Counts none known = Unit
Counts (some now) known = known ≡ now

-- The state has what the message says.
record Known (m : ShellBridgeInboundMessage) (s : HostObservabilityState) : Type 0 where
  page : (text_eq m.host_state [] ≡ true) ⊎ (s.host_page_state ≡ m.host_state)
  capture : Reports m.capture_state s.capture_state
  label : Reports m.capture_label s.capture_label
  viewers : Counts m.viewers s.last_viewers

module _ (timestamp : Text) where
  take_page-still :
      (now : Text) (s : HostObservabilityState)
      → (text_eq now [] ≡ true) ⊎ (s.host_page_state ≡ now)
      → take_page timestamp now s ≡ s
  unfolding take_page
  take_page-still now s (inl nothing) = rw nothing refl
  take_page-still now s (inr same) =
      if-both (λ x. x ≡ s) (text_eq now []) _ _ (λ e. refl)
        (λ e.
          ap {B = HostObservabilityState}
            (λ x. record (note_change timestamp s.host_page_state x (page_event x) s) {
              host_page_state = x;
            })
            (sym same)
          ∙ ap (λ (x : HostObservabilityState). record x { host_page_state = s.host_page_state })
              (note_change-still timestamp s.host_page_state (page_event s.host_page_state) s))

  take_capture-still :
      (now : Option Text) (s : HostObservabilityState)
      → Reports now s.capture_state
      → take_capture timestamp now s ≡ s
  unfolding take_capture
  take_capture-still none s same = refl
  take_capture-still (some now) s same =
      ap {B = HostObservabilityState}
        (λ x. record (note_change timestamp s.capture_state x (capture_event x) s) {
          capture_state = x;
        })
        (sym same)
      ∙ ap (λ (x : HostObservabilityState). record x { capture_state = s.capture_state })
          (note_change-still timestamp s.capture_state (capture_event s.capture_state) s)

  take_label-still :
      (now : Option Text) (s : HostObservabilityState)
      → Reports now s.capture_label
      → take_label timestamp now s ≡ s
  unfolding take_label
  take_label-still none s same = refl
  take_label-still (some now) s same =
      ap {B = HostObservabilityState}
        (λ x. record (note_change timestamp s.capture_label x (label_event s.capture_label x) s) {
          capture_label = x;
        })
        (sym same)
      ∙ ap (λ (x : HostObservabilityState). record x { capture_label = s.capture_label })
          (note_change-still timestamp s.capture_label (label_event s.capture_label s.capture_label)
            s)

take_viewers-still :
    (now : Option ℕ) (s : HostObservabilityState)
    → Counts now s.last_viewers
    → take_viewers now s ≡ s
unfolding take_viewers
take_viewers-still none s same = refl
take_viewers-still (some now) s same =
    ap {B = HostObservabilityState} (λ x. record s { last_viewers = x }) (sym same)

Known-still :
    (timestamp : Text) (s : HostObservabilityState) (m : ShellBridgeInboundMessage)
    → Known m s
    → (coordinate_host_status_message timestamp s m).state ≡ s
unfolding coordinate_host_status_message
Known-still timestamp s m known =
    rw
      (
        take_page-still timestamp m.host_state s known.page,
        take_capture-still timestamp m.capture_state s known.capture,
        take_label-still timestamp m.capture_label s known.label,
        take_viewers-still m.viewers s known.viewers,
      )
      refl

module _ (timestamp : Text) where
  take_page-takes :
      (now : Text) (s : HostObservabilityState)
      → (text_eq now [] ≡ true) ⊎ ((take_page timestamp now s).host_page_state ≡ now)
  unfolding take_page
  take_page-takes now s = elim (Bool-cases (text_eq now [])) [
    | inl e ↦ inl e
    | inr e ↦ inr (rw e refl)
  ]

  take_capture-takes :
      (now : Option Text) (s : HostObservabilityState)
      → Reports now (take_capture timestamp now s).capture_state
  unfolding take_capture
  take_capture-takes none s = tt
  take_capture-takes (some now) s = refl

  take_capture-page :
      (now : Option Text) (s : HostObservabilityState)
      → (take_capture timestamp now s).host_page_state ≡ s.host_page_state
  unfolding take_capture
  take_capture-page none s = refl
  take_capture-page (some now) s =
      (note_change-Same timestamp s.capture_state now (capture_event now) s).page

  take_label-takes :
      (now : Option Text) (s : HostObservabilityState)
      → Reports now (take_label timestamp now s).capture_label
  unfolding take_label
  take_label-takes none s = tt
  take_label-takes (some now) s = refl

  take_label-Same :
      (now : Option Text) (s : HostObservabilityState)
      → ((take_label timestamp now s).host_page_state ≡ s.host_page_state)
        × ((take_label timestamp now s).capture_state ≡ s.capture_state)
  unfolding take_label
  take_label-Same none s = (refl, refl)
  take_label-Same (some now) s =
      let same =
        note_change-Same timestamp s.capture_label now (label_event s.capture_label now) s in
      (same.page, same.capture)

take_viewers-takes :
    (now : Option ℕ) (s : HostObservabilityState) → Counts now (take_viewers now s).last_viewers
unfolding take_viewers
take_viewers-takes none s = tt
take_viewers-takes (some now) s = refl

take_viewers-Same :
    (now : Option ℕ) (s : HostObservabilityState)
    → ((take_viewers now s).host_page_state ≡ s.host_page_state)
      × ((take_viewers now s).capture_state ≡ s.capture_state)
      × ((take_viewers now s).capture_label ≡ s.capture_label)
unfolding take_viewers
take_viewers-Same none s = (refl, refl, refl)
take_viewers-Same (some now) s = (refl, refl, refl)

coordinate-Known :
    (timestamp : Text) (s : HostObservabilityState) (m : ShellBridgeInboundMessage)
    → Known m (coordinate_host_status_message timestamp s m).state
unfolding coordinate_host_status_message
coordinate-Known timestamp s m =
    let p = take_page timestamp m.host_state s in
    let c = take_capture timestamp m.capture_state p in
    let l = take_label timestamp m.capture_label c in
    let (v_page, v_capture, v_label) = take_viewers-Same m.viewers l in
    let (l_page, l_capture) = take_label-Same timestamp m.capture_label c in
    let c_page = take_capture-page timestamp m.capture_state p in
    record {
      page = elim (take_page-takes timestamp m.host_state s) [
        | inl e ↦ inl e
        | inr e ↦ inr (v_page ∙ l_page ∙ c_page ∙ e)
      ];
      capture =
          subst (Reports m.capture_state) (sym (v_capture ∙ l_capture))
            (take_capture-takes timestamp m.capture_state p);
      label =
          subst (Reports m.capture_label) (sym v_label)
            (take_label-takes timestamp m.capture_label c);
      viewers = take_viewers-takes m.viewers l;
    }

-- A status message that is received once more, at whatever time, changes nothing: neither what is
-- known of the host page nor the timeline.
status-twice :
    (first second : Text) (s : HostObservabilityState) (m : ShellBridgeInboundMessage)
    → let once = (coordinate_host_status_message first s m).state in
      (coordinate_host_status_message second once m).state ≡ once
status-twice first second s m =
    Known-still second (coordinate_host_status_message first s m).state m
      (coordinate-Known first s m)

abbrev Wants : Text → Text → Type 0
Wants filter value = (filter ≡ []) ⊎ (value ≡ filter)

-- What a filter asks of an entry.
abbrev pub Wanted : HostObservabilityFilter → HostObservabilityLogEntry → Type 0
Wanted filter entry =
    Wants filter.level_filter entry.level
    × Wants filter.source_filter entry.source
    × ((filter.search_text ≡ [])
        ⊎ (contains_case_insensitive entry.message filter.search_text ≡ true))

skips : Text → Bool → Bool
skips filter holds = not (text_eq filter []) && not holds

skips_iff :
    (filter : Text) (holds : Bool) → (skips filter holds ≡ false) ↔ ((filter ≡ []) ⊎ (holds ≡ true))
unfolding skips text_eq
skips_iff [] holds = (λ e. inl refl, λ e. refl)
skips_iff (c ∷ filter) true = (λ e. inr refl, λ e. refl)
skips_iff (c ∷ filter) false = (λ e. cc, by_side)
  where
    by_side : ((c ∷ filter) ≡ []) ⊎ (false ≡ true) → true ≡ false
    by_side (inl e) = cc
    by_side (inr e) = cc

ladder_iff :
    (a b c : Bool)
    → ((if a then false else if b then false else if c then false else true) ≡ true)
      ↔ ((a ≡ false) × (b ≡ false) × (c ≡ false))
ladder_iff true b c = (λ e. cc, λ e. (let h = e.0 in cc))
ladder_iff false true c = (λ e. cc, λ e. (let h = e.1 in cc))
ladder_iff false false true = (λ e. cc, λ e. (let h = e.2 in cc))
ladder_iff false false false = (λ e. (refl, refl, refl), λ e. refl)

Wants-iff :
    (filter value : Text) → ((filter ≡ []) ⊎ (text_eq value filter ≡ true)) ↔ Wants filter value
Wants-iff filter value = (there, back)
  where
    there : (filter ≡ []) ⊎ (text_eq value filter ≡ true) → Wants filter value
    there (inl e) = inl e
    there (inr e) = inr (text_eq_sound value filter e)

    back : Wants filter value → (filter ≡ []) ⊎ (text_eq value filter ≡ true)
    back (inl e) = inl e
    back (inr e) = inr (rw e (text_eq_refl filter))

passes_iff :
    (filter : HostObservabilityFilter) (entry : HostObservabilityLogEntry)
    → (passes filter entry ≡ true) ↔ Wanted filter entry
unfolding passes skips
passes_iff filter entry =
    let level = skips_iff filter.level_filter (text_eq entry.level filter.level_filter) in
    let source = skips_iff filter.source_filter (text_eq entry.source filter.source_filter) in
    let search =
      skips_iff filter.search_text (contains_case_insensitive entry.message filter.search_text) in
    let ladder =
      ladder_iff (skips filter.level_filter (text_eq entry.level filter.level_filter))
        (skips filter.source_filter (text_eq entry.source filter.source_filter))
        (skips filter.search_text (contains_case_insensitive entry.message filter.search_text)) in
    (
      λ e. (
        (Wants-iff filter.level_filter entry.level).0 (level.0 (ladder.0 e).0),
        (Wants-iff filter.source_filter entry.source).0 (source.0 (ladder.0 e).1),
        search.0 (ladder.0 e).2,
      ),
      λ w. ladder.1 (
        level.1 ((Wants-iff filter.level_filter entry.level).1 w.0),
        source.1 ((Wants-iff filter.source_filter entry.source).1 w.1),
        search.1 w.2,
      ),
    )

-- The lines of the wanted entries, in their order, and nothing else.
data Filtered (filter : HostObservabilityFilter)
    : List HostObservabilityLogEntry → Text → Type 0 where
  none_listed : Filtered filter [] []
  listed :
      {entry : HostObservabilityLogEntry} {entries : List HostObservabilityLogEntry} {text : Text}
      → Wanted filter entry
      → Filtered filter entries text
      → Filtered filter (entry ∷ entries) (entry_line entry ++ text)
  skipped :
      {entry : HostObservabilityLogEntry} {entries : List HostObservabilityLogEntry} {text : Text}
      → ¬ Wanted filter entry
      → Filtered filter entries text
      → Filtered filter (entry ∷ entries) text

filtered_lines-Filtered :
    (filter : HostObservabilityFilter) (entries : List HostObservabilityLogEntry)
    → Filtered filter entries (filtered_lines filter entries)
unfolding filtered_lines
filtered_lines-Filtered filter [] = none_listed
filtered_lines-Filtered filter (entry ∷ entries) =
    let rest = filtered_lines-Filtered filter entries in
    if-both (Filtered filter (entry ∷ entries)) (passes filter entry) _ _
      (λ e. listed ((passes_iff filter entry).0 e) rest)
      (λ e. skipped (λ w. let h = (passes_iff filter entry).1 w in cc) rest)

-- The filtered log has, in their order, the lines of the entries whose level and source are the
-- filter's and whose message contains its search text in any case, and no others; an empty part of
-- the filter asks for nothing.
log_text-Filtered :
    (state : HostObservabilityState) (filter : HostObservabilityFilter)
    → Filtered filter state.log_entries (build_host_observability_filtered_log_text state filter)
unfolding build_host_observability_filtered_log_text
log_text-Filtered state filter = filtered_lines-Filtered filter state.log_entries
