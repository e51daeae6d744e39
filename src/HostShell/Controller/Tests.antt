-- ===== src/HostShell/Controller/Tests.antt =====
-- A service that comes up at once, on a clock that only sleeping moves.
use p2p_desktop_share_new.Base.{ℕ, ◌+◌, true, some, some, [], ◌≡◌, refl, arith}
use mathlib.Core.Option.{some-injective}
use p2p_desktop_share_new.Base.Int.{pos}
use p2p_desktop_share_new.Base.Text.{codes}
use p2p_desktop_share_new.HostShell.Controller.{
  System, NativeShellActionConfig, NativeShellLiveSnapshot, start_server_action, stop_server_action,
}
use p2p_desktop_share_new.HostShell.Controller.Terminates.{Clock, Returns, actions-return}
use p2p_desktop_share_new.HostShell.Controller.Outcomes.{
  Yields, Started, Stopped, start-Started, stop-Stopped,
}

abbrev up : NativeShellLiveSnapshot
up = record {
  server_running = true;
  local_health_ready = true;
  detail_text = [];
  status_endpoint_ready = true;
  diagnostic = [];
}

-- The world is the time.
abbrev small : System ℕ
small = record {
  fork = λ time. (some 7, time);
  kill = λ pid signal time. (true, time);
  reaped = λ pid time. (true, time);
  wait_for = λ pid time. time;
  now = λ time. (time, time);
  sleep_for = λ ms time. time + ms;
  poll_live = λ time. (up, time);
}

small-Clock : Clock small
small-Clock = record {
  reading = λ time. time;
  now-reads = λ time. refl;
  now-later = λ time. omega arith;
  reaped-later = λ pid time. omega arith;
  poll-later = λ time. omega arith;
  sleep-later = λ ms time. omega arith;
}

abbrev config : NativeShellActionConfig
config = record {
  server_executable = codes "/usr/bin/server";
  live_probe_timeout_ms = pos 5000;
  live_probe_interval_ms = pos 250;
}

actions-return_example :
    Returns (start_server_action small config 7 0) × Returns (stop_server_action small config 7 0)
actions-return_example = actions-return small small-Clock config 7 0

start-Started_example : Yields (Started 0) (start_server_action small config 0 0)
start-Started_example =
    start-Started small config small-Clock
      (λ time same. let h : 7 ≡ 0 = some-injective 7 0 same in cc) 0 0

stop-Stopped_example : Yields (Stopped true 7) (stop_server_action small config 7 0)
stop-Stopped_example = stop-Stopped small config small-Clock 7 0
