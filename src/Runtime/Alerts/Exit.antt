-- ===== src/Runtime/Alerts/Exit.antt =====
-- What a tick sends when the stable health changes in it.
use p2p_desktop_share_new.Base.{
  ℕ, ◌-◌, ◌≤◌, leb, String, Bool, true, false, [], ◌≡◌, ◌≢◌, inl, inr, refl, sym, subst, Bool-cases,
  leb→le, All,
}
use p2p_desktop_share_new.Base.Int.{at_least, or_text, bool_eq}
use p2p_desktop_share_new.Runtime.Alerts.{
  NotificationKind, health_recovered, health_degraded, viewer_count_changed,
  server_exited_unexpectedly, RuntimeState, DebounceConfig, Body, Notification, AlertMemory,
  Announcements, add_notification, announce_health, announce_viewers, announce_server, when,
  announced, next_memory, first_memory, tick_native_shell_alerts, observe, health_settled,
  viewers_settled, server_settled, sentence, build_viewer_body,
}
use p2p_desktop_share_new.Base.Int.{bool_eq_sound}
use p2p_desktop_share_new.Runtime.Alerts.Debounce.{observe-stable}
use p2p_desktop_share_new.Runtime.Alerts.Tick.{
  After, Ok, tick_started, viewers-keeps, server-keeps, add-quiet,
}

module _ (config : DebounceConfig) (runtime : RuntimeState) (memory : AlertMemory) where
  abbrev NoExit : Announcements → Type 0
  NoExit out = (1 ≤ out.cooldown) × All (λ n. n.kind ≢ server_exited_unexpectedly) out.sent

  add-NoExit :
      1 ≤ at_least 0 config.notification_cooldown_ticks
      → (k : NotificationKind) (title : String) (body : Body) (cooldown : ℕ)
      → k ≢ server_exited_unexpectedly
      → NoExit (add_notification config k title body (record { cooldown = cooldown; sent = [] }))
  unfolding add_notification
  add-NoExit wait k title body cooldown other = elim (Bool-cases (leb 1 cooldown)) [
    | inl y ↦ rw y (leb→le 1 cooldown y, tt)
    | inr n ↦ rw n (wait, (other, tt))
  ]

  health-NoExit :
      1 ≤ at_least 0 config.notification_cooldown_ticks
      → (previous stable : Bool) (cooldown : ℕ) → previous ≢ stable
      → NoExit (
          announce_health config runtime previous stable
            (record { cooldown = cooldown; sent = [] }))
  unfolding announce_health
  health-NoExit wait true true c d = absurd (d refl)
  health-NoExit wait false false c d = absurd (d refl)
  health-NoExit wait false true c d =
      add-NoExit wait health_recovered "Sharing service recovered"
        (sentence "The local sharing service is healthy again.") c (λ e. cc)
  health-NoExit wait true false c d =
      add-NoExit wait health_degraded "Sharing service needs attention"
        (sentence
          (or_text runtime.detail_text "The local sharing service health probe is failing."))
        c (λ e. cc)

  quiet-NoExit :
      (k : NotificationKind) (title : String) (body : Body) (out : Announcements)
      → (Ok config runtime memory) k
      → NoExit out
      → NoExit (add_notification config k title body out)
  quiet-NoExit k title body out ok h =
      subst NoExit (sym (add-quiet config runtime memory k title body out h.0)) h

  entered-health :
      memory.health.stable ≢ (After config runtime memory).health.stable
      → (health_settled config runtime memory.health).1 ≡ true
  unfolding next_memory p2p_desktop_share_new.Runtime.Alerts.settle
  entered-health flip =
      let seen = observe bool_eq runtime.local_health_ready memory.health in
      elim (Bool-cases (leb (at_least 1 config.health_stable_samples) seen.samples)) [
        | inl y ↦ rw y refl
        | inr n ↦ absurd (
            flip (
              rw n (
                sym (
                  observe-stable bool_eq (at_least 1 config.health_stable_samples) bool_eq_sound
                    runtime.local_health_ready memory.health))))
      ]

  announced-NoExit :
      1 ≤ at_least 0 config.notification_cooldown_ticks
      → memory.health.stable ≢ (After config runtime memory).health.stable
      → NoExit (announced config runtime memory)
  unfolding announced p2p_desktop_share_new.Runtime.Alerts.settle next_memory
  announced-NoExit wait flip =
      let start : Announcements = record { cooldown = memory.cooldown_remaining - 1; sent = [] } in
      let first : Announcements =
        when config runtime (health_settled config runtime memory.health).1
          (announce_health config runtime memory.health.stable
            (After config runtime memory).health.stable)
          start in
      let p : NoExit first =
        subst
          (λ b. NoExit (
            when config runtime b
              (announce_health config runtime memory.health.stable
                (After config runtime memory).health.stable)
              start))
          (sym (entered-health flip))
          (health-NoExit wait memory.health.stable (After config runtime memory).health.stable
            (memory.cooldown_remaining - 1) flip) in
      server-keeps config runtime memory NoExit quiet-NoExit
        (server_settled config runtime memory.server).1
        (when config runtime (viewers_settled config runtime memory.viewers).1
          (announce_viewers config runtime memory.viewers.stable
            (After config runtime memory).viewers.stable)
          first)
        (viewers-keeps config runtime memory NoExit quiet-NoExit
          (viewers_settled config runtime memory.viewers).1 first p)

  -- With an initialised memory and a configured cooldown of at least one tick: when the stable
  -- health changes in a tick, that tick does not announce an exit of the service.
  pub tick-hides_exit :
      memory.initialized ≡ true
      → 1 ≤ at_least 0 config.notification_cooldown_ticks
      → memory.health.stable ≢ (tick_native_shell_alerts config runtime memory).0.health.stable
      → All
          (λ n. n.kind ≢ server_exited_unexpectedly)
          (tick_native_shell_alerts config runtime memory).1
  tick-hides_exit started wait =
      subst
        (λ r.
          memory.health.stable ≢ r.0.health.stable
          → All (λ n. n.kind ≢ server_exited_unexpectedly) r.1)
        (sym (tick_started config runtime memory started)) (λ flip. (announced-NoExit wait flip).1)
