-- ===== src/Runtime/Alerts/Tests.antt =====
-- The alerts on small examples: a service that runs with one viewer and then stops.
use p2p_desktop_share_new.Base.{true, false, [], ◌∷◌, map, ◌≡◌, ◌≢◌, ◌⊎◌, refl, arith, All}
use p2p_desktop_share_new.Base.Int.{pos, at_least}
use p2p_desktop_share_new.Runtime.Alerts.{
  RuntimeState, DebounceConfig, AlertMemory, Notification, server_exited_unexpectedly,
  tick_native_shell_alerts, next_memory, announced, observe,
}
use p2p_desktop_share_new.Runtime.Alerts.Debounce.{Recent, repeat}
use p2p_desktop_share_new.Runtime.Alerts.Tick.{Justified, tick-Justified}
use p2p_desktop_share_new.Runtime.Alerts.Exit.{tick-hides_exit}
use p2p_desktop_share_new.Runtime.Alerts.Runs.{ticked, ticked_sound, ticked-settles}

abbrev defaults : DebounceConfig
defaults = record {
  health_stable_samples = pos 2;
  viewer_stable_samples = pos 2;
  exit_stable_samples = pos 2;
  notification_cooldown_ticks = pos 1;
}

abbrev stopped : RuntimeState
stopped = record {
  server_running = false;
  local_health_ready = false;
  attention_needed = true;
  stop_requested = false;
  viewer_count = 0;
  host_page_state = "";
  detail_text = "";
}

abbrev healthy : AlertMemory
healthy = record {
  initialized = true;
  health = record { stable = true; pending = true; samples = 0 };
  viewers = record { stable = 1; pending = 1; samples = 0 };
  server = record { stable = true; pending = true; samples = 0 };
  cooldown_remaining = 0;
}

-- One sample before the health and the exit are stable.
abbrev wavering : AlertMemory
wavering = record {
  initialized = true;
  health = record { stable = true; pending = false; samples = 1 };
  viewers = record { stable = 0; pending = 0; samples = 0 };
  server = record { stable = true; pending = false; samples = 1 };
  cooldown_remaining = 0;
}

tick-Justified_example :
    All
      (λ n.
        Justified stopped wavering (tick_native_shell_alerts defaults stopped wavering).0 n.kind)
      (tick_native_shell_alerts defaults stopped wavering).1
tick-Justified_example = tick-Justified defaults stopped wavering

health_flips :
    wavering.health.stable ≢ (tick_native_shell_alerts defaults stopped wavering).0.health.stable
unfolding tick_native_shell_alerts next_memory observe p2p_desktop_share_new.Runtime.Alerts.settle
    at_least
health_flips = λ e. cc

tick-hides_exit_example :
    All
      (λ n. n.kind ≢ server_exited_unexpectedly)
      (tick_native_shell_alerts defaults stopped wavering).1
unfolding at_least
tick-hides_exit_example = tick-hides_exit defaults stopped wavering refl (omega arith) health_flips

ticked_sound_example :
    let before = ticked defaults healthy (stopped ∷ []) in
    let after = ticked defaults healthy (stopped ∷ stopped ∷ []) in
    ((after.health.stable ≡ before.health.stable)
      ⊎ Recent
          (at_least 1 (pos 2))
          after.health.stable
          (map (λ r. r.local_health_ready) (stopped ∷ stopped ∷ [])))
    × ((after.viewers.stable ≡ before.viewers.stable)
        ⊎ Recent
            (at_least 1 (pos 2))
            after.viewers.stable
            (map (λ r. r.viewer_count) (stopped ∷ stopped ∷ [])))
    × ((after.server.stable ≡ before.server.stable)
        ⊎ Recent
            (at_least 1 (pos 2))
            after.server.stable
            (map (λ r. r.server_running) (stopped ∷ stopped ∷ [])))
ticked_sound_example = ticked_sound defaults healthy (refl, refl, refl, refl) stopped (stopped ∷ [])

ticked-settles_example :
    ((ticked defaults healthy (repeat (at_least 1 (pos 2)) stopped)).health.stable ≡ false)
    × ((ticked defaults healthy (repeat (at_least 1 (pos 2)) stopped)).viewers.stable ≡ 0)
    × ((ticked defaults healthy (repeat (at_least 1 (pos 2)) stopped)).server.stable ≡ false)
unfolding at_least
ticked-settles_example =
    ticked-settles defaults healthy refl (omega arith) (omega arith) (omega arith) stopped
