-- ===== src/Runtime/Alerts/Runs.antt =====
-- Runs of ticks, and the three watched values in them.
use p2p_desktop_share_new.Base.{
  ℕ, zero, suc, ◌≤◌, ◌<◌, ◌==◌, ==_iff, Bool, true, List, [], ◌∷◌, map, ◌≡◌, ◌⊎◌, arith, refl, sym,
  ap, subst,
}
use p2p_desktop_share_new.Base.Int.{ℤ, pos, negsuc, at_least, bool_eq, bool_eq_sound, bool_eq_refl}
use p2p_desktop_share_new.Runtime.Alerts.{
  Watch, RuntimeState, DebounceConfig, AlertMemory, next_memory, tick_native_shell_alerts,
}
use p2p_desktop_share_new.Runtime.Alerts.Debounce.{
  Recent, repeat, watch, watch_run, watch_run-Counted, watch_sound, watch_run-settles,
}
use p2p_desktop_share_new.Runtime.Alerts.Tick.{tick_started}

eq_sound : (a b : ℕ) → (a == b) ≡ true → a ≡ b
eq_sound a b e = (==_iff a b).0 e

eq_refl_nat : (a : ℕ) → (a == a) ≡ true
eq_refl_nat a = (==_iff a a).1 refl

limit-positive : (i : ℤ) → 1 ≤ at_least 1 i
unfolding at_least
limit-positive (pos n) = ground arith
limit-positive (negsuc n) = omega arith

map-repeat : {A B : Type 0} (f : A → B) (n : ℕ) (a : A) → map f (repeat n a) ≡ repeat n (f a)
unfolding repeat
map-repeat f zero a = refl
map-repeat f (suc n) a = ap (λ xs. f a ∷ xs) (map-repeat f n a)

-- One watched value after a history.
watched_sound :
    {A : Type 0} (same : A → A → Bool) (limit : ℕ) (sound : (a b : A) → same a b ≡ true → a ≡ b)
    (w before after : Watch A) (now : A) (history : List A)
    → w.samples ≡ 0
    → before ≡ watch_run same limit sound w history
    → after ≡ watch_run same limit sound w (now ∷ history)
    → (after.stable ≡ before.stable) ⊎ Recent limit after.stable (now ∷ history)
unfolding watch_run
watched_sound same limit sound w before after now history none_yet b a =
    rw (a, b)
      (watch_sound same limit sound now history (watch_run same limit sound w history)
        (watch_run-Counted same limit sound w history none_yet))

module _ (config : DebounceConfig) (start : AlertMemory) where
  -- The memory after a history of samples, newest first.
  abbrev pub ticked : List RuntimeState → AlertMemory
  ticked [] = start
  ticked (now ∷ history) = (tick_native_shell_alerts config now (ticked history)).0

  -- Each value is watched by itself.
  record Apart (history : List RuntimeState) (memory : AlertMemory) : Type 0 where
    started : memory.initialized ≡ true
    by_health :
        memory.health
        ≡ watch_run bool_eq
            (at_least 1 config.health_stable_samples)
            bool_eq_sound
            start.health
            (map (λ r. r.local_health_ready) history)
    by_viewers :
        memory.viewers
        ≡ watch_run
            (λ a b. a == b)
            (at_least 1 config.viewer_stable_samples)
            eq_sound
            start.viewers
            (map (λ r. r.viewer_count) history)
    by_server :
        memory.server
        ≡ watch_run bool_eq
            (at_least 1 config.exit_stable_samples)
            bool_eq_sound
            start.server
            (map (λ r. r.server_running) history)

  ticked-Apart :
      start.initialized ≡ true → (history : List RuntimeState) → Apart history (ticked history)
  unfolding watch_run watch next_memory
  ticked-Apart started [] = record {
    started = started;
    by_health = refl;
    by_viewers = refl;
    by_server = refl;
  }
  ticked-Apart started (now ∷ history) =
      let before = ticked-Apart started history in
      subst (Apart (now ∷ history))
        (sym (ap (λ r. r.0) (tick_started config now (ticked history) before.started)))
        (next-Apart now history before)
    where
      next-Apart :
          (now : RuntimeState) (history : List RuntimeState)
          → Apart history (ticked history)
          → Apart (now ∷ history) (next_memory config now (ticked history))
      next-Apart now history before = record {
        started = refl;
        by_health =
            ap
              (watch bool_eq (at_least 1 config.health_stable_samples) bool_eq_sound
                now.local_health_ready)
              before.by_health;
        by_viewers =
            ap
              (watch (λ a b. a == b) (at_least 1 config.viewer_stable_samples) eq_sound
                now.viewer_count)
              before.by_viewers;
        by_server =
            ap
              (watch bool_eq (at_least 1 config.exit_stable_samples) bool_eq_sound
                now.server_running)
              before.by_server;
      }

  -- No counter has begun.
  abbrev pub Idle : Type 0
  Idle =
      (start.initialized ≡ true)
      × (start.health.samples ≡ 0)
      × (start.viewers.samples ≡ 0)
      × (start.server.samples ≡ 0)

  -- From an initialised memory with no counter begun, the stable health moves in a tick only
  -- when the last configured number of samples, this one included, all had the new value; the
  -- same holds of the viewer count and of the server. A configured number below one counts as
  -- one.
  pub ticked_sound :
      Idle
      → (now : RuntimeState) (history : List RuntimeState)
      → let before = ticked history in
        let after = ticked (now ∷ history) in
        ((after.health.stable ≡ before.health.stable)
          ⊎ Recent
              (at_least 1 config.health_stable_samples)
              after.health.stable
              (map (λ r. r.local_health_ready) (now ∷ history)))
        × ((after.viewers.stable ≡ before.viewers.stable)
            ⊎ Recent
                (at_least 1 config.viewer_stable_samples)
                after.viewers.stable
                (map (λ r. r.viewer_count) (now ∷ history)))
        × ((after.server.stable ≡ before.server.stable)
            ⊎ Recent
                (at_least 1 config.exit_stable_samples)
                after.server.stable
                (map (λ r. r.server_running) (now ∷ history)))
  ticked_sound (started, h0, v0, s0) now history =
      let before = ticked-Apart started history in
      let after = ticked-Apart started (now ∷ history) in
      (
        watched_sound bool_eq (at_least 1 config.health_stable_samples) bool_eq_sound start.health
            (ticked history).health (ticked (now ∷ history)).health now.local_health_ready
            (map (λ r. r.local_health_ready) history) h0 before.by_health after.by_health,
        watched_sound (λ a b. a == b) (at_least 1 config.viewer_stable_samples) eq_sound
            start.viewers (ticked history).viewers (ticked (now ∷ history)).viewers now.viewer_count
            (map (λ r. r.viewer_count) history) v0 before.by_viewers after.by_viewers,
        watched_sound bool_eq (at_least 1 config.exit_stable_samples) bool_eq_sound start.server
            (ticked history).server (ticked (now ∷ history)).server now.server_running
            (map (λ r. r.server_running) history) s0 before.by_server after.by_server,
      )

  -- From an initialised memory whose counters are below the configured numbers, as many equal
  -- samples as configured make their value the stable one, for the health, the viewer count and
  -- the server.
  pub ticked-settles :
      start.initialized ≡ true
      → start.health.samples < at_least 1 config.health_stable_samples
      → start.viewers.samples < at_least 1 config.viewer_stable_samples
      → start.server.samples < at_least 1 config.exit_stable_samples
      → (now : RuntimeState)
      → ((ticked (repeat (at_least 1 config.health_stable_samples) now)).health.stable
          ≡ now.local_health_ready)
        × ((ticked (repeat (at_least 1 config.viewer_stable_samples) now)).viewers.stable
            ≡ now.viewer_count)
        × ((ticked (repeat (at_least 1 config.exit_stable_samples) now)).server.stable
            ≡ now.server_running)
  ticked-settles started h v s now =
      let health = ticked-Apart started (repeat (at_least 1 config.health_stable_samples) now) in
      let viewers = ticked-Apart started (repeat (at_least 1 config.viewer_stable_samples) now) in
      let server = ticked-Apart started (repeat (at_least 1 config.exit_stable_samples) now) in
      (
        rw
            (
              health.by_health,
              map-repeat (λ r. r.local_health_ready) (at_least 1 config.health_stable_samples) now,
            )
            (watch_run-settles bool_eq (at_least 1 config.health_stable_samples) bool_eq_sound
              bool_eq_refl (limit-positive config.health_stable_samples) now.local_health_ready
              start.health h),
        rw
            (
              viewers.by_viewers,
              map-repeat (λ r. r.viewer_count) (at_least 1 config.viewer_stable_samples) now,
            )
            (watch_run-settles (λ a b. a == b) (at_least 1 config.viewer_stable_samples) eq_sound
              eq_refl_nat (limit-positive config.viewer_stable_samples) now.viewer_count
              start.viewers v),
        rw
            (
              server.by_server,
              map-repeat (λ r. r.server_running) (at_least 1 config.exit_stable_samples) now,
            )
            (watch_run-settles bool_eq (at_least 1 config.exit_stable_samples) bool_eq_sound
              bool_eq_refl (limit-positive config.exit_stable_samples) now.server_running
              start.server s),
      )
