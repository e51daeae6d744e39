-- ===== src/Runtime/Alerts.antt =====
-- core/runtime/native_shell_alert_coordinator: which changes of the service the tray announces.
-- The counters of the memory are `int`s that are never negative; the configured ones may be.
pub mod Debounce
pub mod Tick
pub mod Exit
pub mod Runs
mod Tests
use p2p_desktop_share_new.Base.{
  ℕ, suc, ◌+◌, ◌-◌, ◌==◌, leb, String, Bool, true, false, not, ◌&&◌, List, [], ◌∷◌, ◌++◌,
  if◌then◌else◌,
}
use p2p_desktop_share_new.Base.Int.{ℤ, at_least, or_text, bool_eq}

pub data NotificationKind : Type 0 where
  health_recovered health_degraded viewer_count_changed server_exited_unexpectedly :
      NotificationKind

pub record RuntimeState : Type 0 where
  pub server_running : Bool
  pub local_health_ready : Bool
  pub attention_needed : Bool
  pub stop_requested : Bool
  pub viewer_count : ℕ
  pub host_page_state : String
  pub detail_text : String

pub record DebounceConfig : Type 0 where
  pub health_stable_samples : ℤ
  pub viewer_stable_samples : ℤ
  pub exit_stable_samples : ℤ
  pub notification_cooldown_ticks : ℤ

-- The body of the viewer notification: `BuildViewerBody` puts the count into a sentence.
pub data Body : Type 0 where
  sentence : String → Body
  count_connected : ℕ → Body

pub record Notification : Type 0 where
  pub kind : NotificationKind
  pub title : String
  pub body : Body

-- What the program keeps for each of the three values it watches.
pub record Watch (A : Type 0) : Type 0 where
  pub stable : A
  pub pending : A
  pub samples : ℕ

pub record AlertMemory : Type 0 where
  pub initialized : Bool
  pub health : Watch Bool
  pub viewers : Watch ℕ
  pub server : Watch Bool
  pub cooldown_remaining : ℕ

abbrev pub build_viewer_body : ℕ → Body
build_viewer_body count =
    if count == 0
    then sentence "No viewers are connected right now."
    else if count == 1
    then sentence "1 viewer is connected."
    else count_connected count

-- The `if` ladder on the sample counter, the same for the three values.
pub observe : {A : Type 0} → (A → A → Bool) → A → Watch A → Watch A
observe same now w =
    if same now w.stable
    then record { stable = w.stable; pending = w.pending; samples = 0 }
    else if same now w.pending
    then record { stable = w.stable; pending = w.pending; samples = suc w.samples }
    else record { stable = w.stable; pending = now; samples = 1 }

-- The block behind `samples >= max(1, configured)`; the flag says that the block was entered.
pub settle : {A : Type 0} → ℕ → Watch A → Watch A × Bool
settle limit w =
    if leb limit w.samples
    then (record { stable = w.pending; pending = w.pending; samples = 0 }, true)
    else (w, false)

abbrev pub adopt : {A : Type 0} → A → Watch A
adopt now = record { stable = now; pending = now; samples = 0 }

-- What a tick adds to: the cooldown and the notifications so far.
pub record Announcements : Type 0 where
  pub cooldown : ℕ
  pub sent : List Notification

-- `AddNotification`.
pub add_notification :
    DebounceConfig → NotificationKind → String → Body → Announcements → Announcements
add_notification config kind title body out = if leb 1 out.cooldown then out else record {
  cooldown = at_least 0 config.notification_cooldown_ticks;
  sent = out.sent ++ record { kind = kind; title = title; body = body } ∷ [];
}

module _ (config : DebounceConfig) (runtime : RuntimeState) where
  abbrev pub health_settled : Watch Bool → Watch Bool × Bool
  health_settled w =
      settle (at_least 1 config.health_stable_samples)
        (observe bool_eq runtime.local_health_ready w)

  abbrev pub viewers_settled : Watch ℕ → Watch ℕ × Bool
  viewers_settled w =
      settle (at_least 1 config.viewer_stable_samples)
        (observe (λ a b. a == b) runtime.viewer_count w)

  abbrev pub server_settled : Watch Bool → Watch Bool × Bool
  server_settled w =
      settle (at_least 1 config.exit_stable_samples) (observe bool_eq runtime.server_running w)

  pub announce_health : Bool → Bool → Announcements → Announcements
  announce_health previous stable out =
      if bool_eq stable previous
      then out
      else if stable
      then add_notification config health_recovered "Sharing service recovered"
          (sentence "The local sharing service is healthy again.") out
      else add_notification config health_degraded "Sharing service needs attention"
          (sentence
            (or_text runtime.detail_text "The local sharing service health probe is failing."))
          out

  pub announce_viewers : ℕ → ℕ → Announcements → Announcements
  announce_viewers previous stable out =
      if stable == previous
      then out
      else add_notification config viewer_count_changed "Viewer count changed"
          (build_viewer_body stable) out

  pub announce_server : Bool → Bool → Announcements → Announcements
  announce_server previous stable out =
      if previous && not stable && not runtime.stop_requested
      then add_notification config server_exited_unexpectedly "Sharing service stopped"
          (sentence (or_text runtime.detail_text "The local sharing service exited unexpectedly."))
          out
      else out

  -- A block is skipped, its notification included, below its number of samples.
  abbrev pub when : Bool → (Announcements → Announcements) → Announcements → Announcements
  when entered add out = if entered then add out else out

  pub announced : AlertMemory → Announcements
  announced memory =
      let (h, entered_h) = health_settled memory.health in
      let (v, entered_v) = viewers_settled memory.viewers in
      let (s, entered_s) = server_settled memory.server in
      let start : Announcements = record { cooldown = memory.cooldown_remaining - 1; sent = [] } in
      let first = when entered_h (announce_health memory.health.stable h.stable) start in
      let second = when entered_v (announce_viewers memory.viewers.stable v.stable) first in
      when entered_s (announce_server memory.server.stable s.stable) second

  pub first_memory : AlertMemory → AlertMemory
  first_memory memory = record {
    initialized = true;
    health = adopt runtime.local_health_ready;
    viewers = adopt runtime.viewer_count;
    server = adopt runtime.server_running;
    cooldown_remaining = memory.cooldown_remaining - 1;
  }

  pub next_memory : AlertMemory → AlertMemory
  next_memory memory = record {
    initialized = true;
    health = (health_settled memory.health).0;
    viewers = (viewers_settled memory.viewers).0;
    server = (server_settled memory.server).0;
    cooldown_remaining = (announced memory).cooldown;
  }

  -- `TickNativeShellAlerts`.
  pub tick_native_shell_alerts : AlertMemory → AlertMemory × List Notification
  tick_native_shell_alerts memory =
      if memory.initialized
      then (next_memory memory, (announced memory).sent)
      else (first_memory memory, [])
