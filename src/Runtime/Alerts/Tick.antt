-- ===== src/Runtime/Alerts/Tick.antt =====
-- One tick: which notifications it sends, and how the cooldown limits them.
use p2p_desktop_share_new.Base.{
  ◌-◌, ◌≤◌, ◌<◌, ◌==◌, leb, String, Bool, true, false, not, ◌&&◌, List, [], ◌∷◌, if◌then◌else◌, ◌≡◌,
  ◌≢◌, ◌⊎◌, inl, inr, arith, refl, sym, ◌∙◌, Bool-cases, le→leb, not_leb→lt, ==_iff, length, All,
  All-append,
}
use p2p_desktop_share_new.Base.Int.{at_least, or_text}
use p2p_desktop_share_new.Runtime.Alerts.{
  NotificationKind, health_recovered, health_degraded, viewer_count_changed,
  server_exited_unexpectedly, RuntimeState, DebounceConfig, Body, Notification, AlertMemory,
  Announcements, add_notification, announce_health, announce_viewers, announce_server, when,
  announced, next_memory, first_memory, tick_native_shell_alerts, observe, health_settled,
  viewers_settled, server_settled, sentence, build_viewer_body,
}

-- What must have happened between two memories for a notification to be sent.
abbrev pub Justified : RuntimeState → AlertMemory → AlertMemory → NotificationKind → Type 0
Justified runtime before after health_recovered =
    (before.health.stable ≡ false) × (after.health.stable ≡ true)
Justified runtime before after health_degraded =
    (before.health.stable ≡ true) × (after.health.stable ≡ false)
Justified runtime before after viewer_count_changed = before.viewers.stable ≢ after.viewers.stable
Justified runtime before after server_exited_unexpectedly =
    (before.server.stable ≡ true) × (after.server.stable ≡ false) × (runtime.stop_requested ≡ false)

module _ (config : DebounceConfig) (runtime : RuntimeState) (memory : AlertMemory) where
  abbrev pub After : AlertMemory
  After = next_memory config runtime memory

  abbrev pub Ok : NotificationKind → Type 0
  Ok k = Justified runtime memory After k

  -- Whatever holds of an outbox and of every justified addition to it holds at the end.
  module _ (P : Announcements → Type 0)
      (keeps : (k : NotificationKind) (title : String) (body : Body) (out : Announcements)
        → Ok k
        → P out
        → P (add_notification config k title body out)) where
    health_by :
        (previous stable : Bool) (out : Announcements)
        → memory.health.stable ≡ previous
        → After.health.stable ≡ stable
        → P out
        → P (announce_health config runtime previous stable out)
    unfolding announce_health
    health_by true true out e f p = p
    health_by false false out e f p = p
    health_by false true out e f p =
        keeps health_recovered "Sharing service recovered"
          (sentence "The local sharing service is healthy again.") out (e, f) p
    health_by true false out e f p =
        keeps health_degraded "Sharing service needs attention"
          (sentence
            (or_text runtime.detail_text "The local sharing service health probe is failing."))
          out (e, f) p

    health-keeps :
        (b : Bool) (out : Announcements)
        → P out
        → P (
            when config runtime b
              (announce_health config runtime memory.health.stable After.health.stable)
              out)
    health-keeps true out p = health_by memory.health.stable After.health.stable out refl refl p
    health-keeps false out p = p

    viewers_by :
        (out : Announcements)
        → P out
        → P (announce_viewers config runtime memory.viewers.stable After.viewers.stable out)
    unfolding announce_viewers
    viewers_by out p = elim (Bool-cases (After.viewers.stable == memory.viewers.stable)) [
      | inl y ↦ rw y p
      | inr n ↦ rw n (
          keeps viewer_count_changed "Viewer count changed" (build_viewer_body After.viewers.stable)
            out
            (λ same.
              let bad : true ≡ false =
                sym ((==_iff After.viewers.stable memory.viewers.stable).1 (sym same)) ∙ n in
              cc)
            p)
    ]

    pub viewers-keeps :
        (b : Bool) (out : Announcements)
        → P out
        → P (
            when config runtime b
              (announce_viewers config runtime memory.viewers.stable After.viewers.stable)
              out)
    viewers-keeps true out p = viewers_by out p
    viewers-keeps false out p = p

    server_by :
        (previous stable stop : Bool) (out : Announcements)
        → memory.server.stable ≡ previous
        → After.server.stable ≡ stable
        → runtime.stop_requested ≡ stop
        → P out
        → P (
            if previous && not stable && not stop
            then add_notification config server_exited_unexpectedly "Sharing service stopped"
                (sentence
                  (or_text runtime.detail_text "The local sharing service exited unexpectedly."))
                out
            else out)
    server_by true false false out e f g p =
        keeps server_exited_unexpectedly "Sharing service stopped"
          (sentence (or_text runtime.detail_text "The local sharing service exited unexpectedly."))
          out (e, f, g) p
    server_by true false true out e f g p = p
    server_by true true stop out e f g p = p
    server_by false stable stop out e f g p = p

    pub server-keeps :
        (b : Bool) (out : Announcements)
        → P out
        → P (
            when config runtime b
              (announce_server config runtime memory.server.stable After.server.stable)
              out)
    unfolding announce_server
    server-keeps true out p =
        server_by memory.server.stable After.server.stable runtime.stop_requested out refl refl refl
          p
    server-keeps false out p = p

    announced-keeps :
        P (record { cooldown = memory.cooldown_remaining - 1; sent = [] })
        → P (announced config runtime memory)
    unfolding announced p2p_desktop_share_new.Runtime.Alerts.settle next_memory
    announced-keeps p =
        server-keeps (server_settled config runtime memory.server).1
          (when config runtime (viewers_settled config runtime memory.viewers).1
            (announce_viewers config runtime memory.viewers.stable After.viewers.stable)
            (when config runtime (health_settled config runtime memory.health).1
              (announce_health config runtime memory.health.stable After.health.stable)
              (record { cooldown = memory.cooldown_remaining - 1; sent = [] })))
          (viewers-keeps (viewers_settled config runtime memory.viewers).1
            (when config runtime (health_settled config runtime memory.health).1
              (announce_health config runtime memory.health.stable After.health.stable)
              (record { cooldown = memory.cooldown_remaining - 1; sent = [] }))
            (health-keeps (health_settled config runtime memory.health).1
              (record { cooldown = memory.cooldown_remaining - 1; sent = [] }) p))

  -- A notification is added to nothing, and it starts the cooldown.
  abbrev Slim : Announcements → Type 0
  Slim out = (length out.sent ≤ 1) × ((out.sent ≡ []) ⊎ (1 ≤ out.cooldown))

  add-Slim :
      1 ≤ at_least 0 config.notification_cooldown_ticks
      → (k : NotificationKind) (title : String) (body : Body) (out : Announcements) → Slim out
      → Slim (add_notification config k title body out)
  unfolding add_notification
  add-Slim wait k title body out (few, quiet) = elim (Bool-cases (leb 1 out.cooldown)) [
    | inl y ↦ rw y (few, quiet)
    | inr n ↦ elim quiet [
      | inl e ↦ rw (n, e) (omega arith, inr wait)
      | inr c ↦ let low : out.cooldown < 1 = not_leb→lt 1 out.cooldown n in ground arith
    ]
  ]

  pub add-quiet :
      (k : NotificationKind) (title : String) (body : Body) (out : Announcements)
      → 1 ≤ out.cooldown
      → add_notification config k title body out ≡ out
  unfolding add_notification
  add-quiet k title body out waiting = rw (le→leb 1 out.cooldown waiting) refl

  -- With a configured cooldown of at least one tick, a tick sends at most one notification.
  pub tick-sends_one :
      1 ≤ at_least 0 config.notification_cooldown_ticks
      → length (tick_native_shell_alerts config runtime memory).1 ≤ 1
  unfolding tick_native_shell_alerts announced
  tick-sends_one wait = elim (Bool-cases memory.initialized) [
    | inl y ↦
        rw y
          (announced-keeps Slim (λ k title body out ok. add-Slim wait k title body out)
            (omega arith, inl refl)).0
    | inr n ↦ rw n (omega arith)
  ]

  add-All :
      (k : NotificationKind) (title : String) (body : Body) (out : Announcements)
      → Ok k
      → All (λ n. Ok n.kind) out.sent
      → All (λ n. Ok n.kind) (add_notification config k title body out).sent
  unfolding add_notification
  add-All k title body out ok all = elim (Bool-cases (leb 1 out.cooldown)) [
    | inl y ↦ rw y all
    | inr n ↦ rw n (
        All-append (λ n. Ok n.kind) out.sent (record { kind = k; title = title; body = body } ∷ [])
          all (ok, tt))
  ]

  -- Every notification of a tick is about a change of the stable value that it names, and the one
  -- about the exit is sent only when no stop was requested.
  pub tick-Justified :
      All
        (λ n. Justified runtime memory (tick_native_shell_alerts config runtime memory).0 n.kind)
        (tick_native_shell_alerts config runtime memory).1
  unfolding tick_native_shell_alerts next_memory announced
  tick-Justified = elim (Bool-cases memory.initialized) [
    | inl y ↦ rw y (announced-keeps (λ out. All (λ n. Ok n.kind) out.sent) add-All tt)
    | inr n ↦ rw n tt
  ]

  abbrev pub Ran : AlertMemory × List Notification
  Ran = (After, (announced config runtime memory).sent)

  if_true :
      (b : Bool) → b ≡ true → (if b then Ran else (first_memory config runtime memory, [])) ≡ Ran
  if_true true e = refl
  if_true false e = cc

  pub tick_started :
      memory.initialized ≡ true → tick_native_shell_alerts config runtime memory ≡ Ran
  unfolding tick_native_shell_alerts
  tick_started started = if_true memory.initialized started
