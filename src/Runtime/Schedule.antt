-- ===== src/Runtime/Schedule.antt =====
-- core/runtime/host_runtime_scheduler: what a tick of the runtime timer asks for.
use p2p_desktop_share_new.Base.{ℕ, suc, ◌%◌, Bool, true, not, ◌&&◌, ◌||◌}

pub record HostRuntimeSchedulerConfig : Type 0 where
  pub tick_interval_ms : ℕ
  pub refresh_ui_every_tick : Bool
  pub poll_when_server_running : Bool

abbrev pub default_host_runtime_scheduler_config : HostRuntimeSchedulerConfig
default_host_runtime_scheduler_config = record {
  tick_interval_ms = 1000;
  refresh_ui_every_tick = true;
  poll_when_server_running = true;
}

pub record HostRuntimeTickInput : Type 0 where
  pub server_running : Bool
  pub poll_in_flight : Bool
  pub force_ui_refresh : Bool
  pub force_poll : Bool

-- `next_tick_count` is `nextState.tickCount`.
pub record HostRuntimeTickResult : Type 0 where
  pub next_tick_count : ℕ
  pub refresh_ui : Bool
  pub kick_poll : Bool
  pub next_tick_interval_ms : ℕ

-- `CoordinateHostRuntimeTick`; the count of ticks is a `uint64_t` and
-- wraps at 2 ^ 64.
pub coordinate_host_runtime_tick :
    ℕ → HostRuntimeTickInput → HostRuntimeSchedulerConfig → HostRuntimeTickResult
coordinate_host_runtime_tick tick_count input config = record {
  next_tick_count = suc tick_count % 18446744073709551616;
  refresh_ui = config.refresh_ui_every_tick || input.force_ui_refresh;
  kick_poll =
      (config.poll_when_server_running && input.server_running && not input.poll_in_flight)
      || input.force_poll;
  next_tick_interval_ms = config.tick_interval_ms;
}
