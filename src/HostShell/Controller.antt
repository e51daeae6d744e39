-- ===== src/HostShell/Controller.antt =====
-- host_shell/native_shell_action_controller: starting and stopping the managed service on POSIX. The
-- system's calls are functions on a world `W`; times are milliseconds of the steady clock. A loop is
-- recursion on fuel, and `none` says that the fuel ran out.
pub mod Terminates
pub mod Outcomes
mod Tests
use p2p_desktop_share_new.Base.{
  ℕ, zero, suc, ◌+◌, ◌-◌, ◌==◌, ltb, String, Bool, true, false, not, ◌&&◌, Option, none, some, List,
  [], ◌∷◌, ◌++◌, map, if◌then◌else◌, str_eq,
}
use p2p_desktop_share_new.Base.Int.{ℤ, pos, negsuc, at_least}
use p2p_desktop_share_new.Base.Text.{Text, codes, text_eq}

pub record NativeShellLiveSnapshot : Type 0 where
  pub server_running : Bool
  pub local_health_ready : Bool
  pub detail_text : Text
  pub status_endpoint_ready : Bool
  pub diagnostic : Text

pub record NativeShellActionConfig : Type 0 where
  pub server_executable : Text
  pub live_probe_timeout_ms : ℤ
  pub live_probe_interval_ms : ℤ

pub data Signal : Type 0 where
  sigterm sigkill no_signal : Signal

-- `fork` in the parent, `kill`, `waitpid`, the clock, and the poll of the service.
pub record System (W : Type 0) : Type 0 where
  pub fork : W → Option ℕ × W
  pub kill : ℕ → Signal → W → Bool × W
  -- `waitpid(pid, &status, WNOHANG) == pid`.
  pub reaped : ℕ → W → Bool × W
  pub wait_for : ℕ → W → W
  pub now : W → ℕ × W
  pub sleep_for : ℕ → W → W
  pub poll_live : W → NativeShellLiveSnapshot × W

-- `Narrow`.
pub narrow : Text → Text
narrow [] = []
narrow (c ∷ text) = (if ltb c 128 then c else b'?') ∷ narrow text

-- `BuildLiveProbeError`.
unfoldable pub build_live_probe_error : Text → NativeShellLiveSnapshot → Text
build_live_probe_error action_name snapshot =
    let sentence = action_name ++ codes " did not reach the expected live state." in
    if not (text_eq snapshot.diagnostic [])
    then sentence ++ (codes " detail=" ++ snapshot.diagnostic)
    else if not (text_eq snapshot.detail_text [])
    then sentence ++ (codes " detail=" ++ narrow snapshot.detail_text)
    else sentence

-- `ValidateDashboardSnapshot`: the result, with the error or no text.
unfoldable pub validate_dashboard_snapshot : NativeShellLiveSnapshot → Bool × Text
validate_dashboard_snapshot snapshot =
    if not snapshot.local_health_ready
    then (false, build_live_probe_error (codes "Dashboard refresh") snapshot)
    else if not snapshot.status_endpoint_ready
    then (false, build_live_probe_error (codes "Dashboard refresh") snapshot)
    else if not snapshot.server_running
    then (false, codes "Dashboard refresh reports that the sharing service is not running.")
    else (true, [])

-- What `WaitForLiveCondition` waits for.
unfoldable pub live_ready : Bool → NativeShellLiveSnapshot → Bool
live_ready expect_running last =
    if expect_running
    then last.local_health_ready && last.status_endpoint_ready && last.server_running
    else not last.local_health_ready && not last.status_endpoint_ready && not last.server_running

abbrev pub no_snapshot : NativeShellLiveSnapshot
no_snapshot = record {
  server_running = false;
  local_health_ready = false;
  detail_text = [];
  status_endpoint_ready = false;
  diagnostic = [];
}

-- The first moment after `time + timeout`: `now <= deadline` says that now is before it.
unfoldable pub past_deadline : ℕ → ℤ → ℕ
past_deadline time (pos n) = time + suc n
past_deadline time (negsuc n) = time - n

-- What an action leaves: the result, the error or no text, the last snapshot if one was asked for,
-- the managed process (0 for none) and the world.
pub record ActionOutcome (W : Type 0) : Type 0 where
  pub ok : Bool
  pub err : Text
  pub snapshot : Option NativeShellLiveSnapshot
  pub managed_server_pid : ℕ
  pub world : W

-- 2000 ms in steps of 50 ms.
abbrev pub reap_fuel : ℕ
reap_fuel = 42

module _ {W : Type 0} (system : System W) where
  -- The loop of `TerminateServerProcess`; `true` says that the process was reaped in time.
  unfoldable pub reap_loop : ℕ → ℕ → ℕ → W → Option (Bool × W)
  reap_loop zero deadline pid w = none
  reap_loop (suc fuel) deadline pid w =
      let (time, timed) = system.now w in
      let (done, tried) = system.reaped pid timed in
      let rest = reap_loop fuel deadline pid (system.sleep_for 50 tried) in
      if ltb time deadline then (if done then some (true, tried) else rest) else some (false, timed)

  -- `SIGKILL`, if the process was not reaped.
  abbrev pub after_reaping : ℕ → Option (Bool × W) → Option (Bool × Text × W)
  after_reaping pid none = none
  after_reaping pid (some (true, w)) = some (true, [], w)
  after_reaping pid (some (false, w)) =
      some (true, [], system.wait_for pid (system.kill pid sigkill w).1)

  abbrev pub signalled : ℕ → Bool × W → Option (Bool × Text × W)
  signalled pid (false, w) =
      some (false, codes "Failed to signal managed sharing service process.", w)
  signalled pid (true, w) =
      let (time, timed) = system.now w in
      after_reaping pid (reap_loop reap_fuel (time + 2000) pid timed)

  -- `TerminateServerProcess`.
  unfoldable pub terminate_server_process : ℕ → W → Option (Bool × Text × W)
  terminate_server_process zero w =
      some (false, codes "No managed sharing service process is running.", w)
  terminate_server_process (suc pid) w = signalled (suc pid) (system.kill (suc pid) sigterm w)

  abbrev pub forked : Option ℕ × W → Option ℕ × Text × W
  forked (none, w) = (none, codes "Failed to fork managed sharing service process.", w)
  forked (some pid, w) = (some pid, [], w)

  -- `SpawnServerProcess`: the process, if there is one, and the error.
  unfoldable pub spawn_server_process : NativeShellActionConfig → W → Option ℕ × Text × W
  spawn_server_process config w =
      if text_eq config.server_executable []
      then (none, codes "Server executable is not configured.", w)
      else forked (system.fork w)

  module _ (config : NativeShellActionConfig) where
    abbrev pub interval : ℕ
    interval = at_least 10 config.live_probe_interval_ms

    -- The loop of `WaitForLiveCondition`, up to the deadline.
    unfoldable pub wait_loop :
        ℕ → ℕ → Bool → NativeShellLiveSnapshot → W → Option (Bool × NativeShellLiveSnapshot × W)
    wait_loop zero past expect last w = none
    wait_loop (suc fuel) past expect last w =
        let (time, timed) = system.now w in
        let (seen, polled) = system.poll_live timed in
        let rest = wait_loop fuel past expect seen (system.sleep_for interval polled) in
        if ltb time past
        then (if live_ready expect seen then some (true, seen, polled) else rest)
        else some (false, last, timed)

    -- `WaitForLiveCondition`; every turn takes a millisecond or more.
    unfoldable pub wait_for_live_condition : Bool → W → Option (Bool × NativeShellLiveSnapshot × W)
    wait_for_live_condition expect w =
        let (time, timed) = system.now w in
        wait_loop (suc (suc (at_least 0 config.live_probe_timeout_ms)))
          (past_deadline time config.live_probe_timeout_ms) expect no_snapshot timed

    abbrev pub wait_error : Text → Bool → NativeShellLiveSnapshot → Text
    wait_error action_name ok last = if ok then [] else build_live_probe_error action_name last

    -- `CleanupManagedServer`, of whose errors nothing is kept.
    abbrev pub cleaned : Option (Bool × Text × W) → Option W
    cleaned none = none
    cleaned (some (ok, err, w)) = some w

    unfoldable pub cleanup_managed_server : ℕ → W → Option W
    cleanup_managed_server pid w =
        if pid == 0 then some w else cleaned (terminate_server_process pid w)

    abbrev pub failed_start : NativeShellLiveSnapshot → Option W → Option (ActionOutcome W)
    failed_start last none = none
    failed_start last (some w) = some (record {
      ok = false;
      err = build_live_probe_error (codes "Start sharing service") last;
      snapshot = some last;
      managed_server_pid = 0;
      world = w;
    })

    abbrev pub after_start_wait :
        ℕ → Option (Bool × NativeShellLiveSnapshot × W) → Option (ActionOutcome W)
    after_start_wait pid none = none
    after_start_wait pid (some (true, last, w)) =
        some (record {
          ok = true;
          err = [];
          snapshot = some last;
          managed_server_pid = pid;
          world = w;
        })
    after_start_wait pid (some (false, last, w)) = failed_start last (cleanup_managed_server pid w)

    abbrev pub refused : ℕ → Text → W → Option (ActionOutcome W)
    refused pid err w =
        some
          (record { ok = false; err = err; snapshot = none; managed_server_pid = pid; world = w })

    abbrev pub after_spawn : Option ℕ × Text × W → Option (ActionOutcome W)
    after_spawn (none, err, w) = refused 0 err w
    after_spawn (some pid, err, w) = after_start_wait pid (wait_for_live_condition true w)

    -- `StartServer`, from the managed process on.
    unfoldable pub start_server_action : ℕ → W → Option (ActionOutcome W)
    start_server_action zero w = after_spawn (spawn_server_process config w)
    start_server_action (suc pid) w =
        refused (suc pid) (codes "A managed sharing service process is already running.") w

    abbrev pub after_stop_wait :
        Option (Bool × NativeShellLiveSnapshot × W) → Option (ActionOutcome W)
    after_stop_wait none = none
    after_stop_wait (some (ok, last, w)) = some (record {
      ok = ok;
      err = wait_error (codes "Stop sharing service") ok last;
      snapshot = some last;
      managed_server_pid = 0;
      world = w;
    })

    abbrev pub after_terminate : ℕ → Option (Bool × Text × W) → Option (ActionOutcome W)
    after_terminate pid none = none
    after_terminate pid (some (false, err, w)) = refused pid err w
    after_terminate pid (some (true, err, w)) = after_stop_wait (wait_for_live_condition false w)

    -- `StopServer`.
    unfoldable pub stop_server_action : ℕ → W → Option (ActionOutcome W)
    stop_server_action zero w = refused 0 (codes "No managed sharing service process is running.") w
    stop_server_action (suc pid) w =
        after_terminate (suc pid) (terminate_server_process (suc pid) w)

    -- `IsServerRunning`.
    pub is_server_running : ℕ → W → Bool
    is_server_running pid w = if pid == 0 then false else (system.kill pid no_signal w).0
