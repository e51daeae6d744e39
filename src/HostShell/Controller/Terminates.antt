-- ===== src/HostShell/Controller/Terminates.antt =====
-- The loops of native_shell_action_controller.cpp end: the fuel is enough on a clock that runs.
use p2p_desktop_share_new.Base.{
  ℕ, zero, suc, ◌+◌, ◌*◌, ◌≤◌, ◌==◌, ltb, Bool, true, false, Option, none, some, ◌≡◌, refl, arith,
  if-both,
}
use p2p_desktop_share_new.Base.Int.{ℤ, pos, negsuc, at_least}
use p2p_desktop_share_new.Base.Text.{Text}
use p2p_desktop_share_new.HostShell.Controller.{
  past_deadline, System, NativeShellActionConfig, NativeShellLiveSnapshot, live_ready, no_snapshot,
  reap_loop, reap_fuel, after_reaping, signalled, terminate_server_process, spawn_server_process,
  interval, wait_loop, wait_for_live_condition, cleaned, cleanup_managed_server, failed_start,
  after_start_wait, after_spawn, start_server_action, after_stop_wait, after_terminate,
  stop_server_action, sigterm,
}

-- The clock does not go back, and a sleep takes as long as it was asked to.
pub record Clock {W : Type 0} (system : System W) : Type 0 where
  pub reading : W → ℕ
  pub now-reads : (w : W) → (system.now w).0 ≡ reading w
  pub now-later : (w : W) → reading w ≤ reading (system.now w).1
  pub reaped-later : (pid : ℕ) (w : W) → reading w ≤ reading (system.reaped pid w).1
  pub poll-later : (w : W) → reading w ≤ reading (system.poll_live w).1
  pub sleep-later : (ms : ℕ) (w : W) → reading w + ms ≤ reading (system.sleep_for ms w)

-- There is a result.
abbrev pub Returns : {A : Type 0} → Option A → Type 0
Returns {A = A} o = (a : A) × (o ≡ some a)

at_least-le : (low : ℕ) (i : ℤ) → low ≤ at_least low i
unfolding at_least
at_least-le low (pos n) = ground arith
at_least-le low (negsuc n) = omega arith

past_deadline-le :
    (time : ℕ) (timeout : ℤ) → past_deadline time timeout ≤ time + suc (at_least 0 timeout)
unfolding past_deadline at_least
past_deadline-le time (pos zero) = ground arith
past_deadline-le time (pos (suc n)) = ground arith
past_deadline-le time (negsuc n) = omega arith

module _ {W : Type 0} (system : System W) (clock : Clock system) where
  reap_loop-Returns :
      (fuel deadline pid : ℕ) (w : W)
      → deadline ≤ clock.reading w + 50 * fuel
      → Returns (reap_loop system (suc fuel) deadline pid w)
  unfolding reap_loop
  reap_loop-Returns zero deadline pid w enough =
      let (time, timed) = system.now w in
      let (done, tried) = system.reaped pid timed in
      let reads = clock.now-reads w in
      let over : ltb time deadline ≡ false = ground arith in rw over (_, refl)
  reap_loop-Returns (suc fuel) deadline pid w enough =
      let timed = (system.now w).1 in
      let tried = (system.reaped pid timed).1 in
      let later = clock.now-later w in
      let later' = clock.reaped-later pid timed in
      let slept = clock.sleep-later 50 tried in
      let rest = reap_loop-Returns fuel deadline pid (system.sleep_for 50 tried) (omega arith) in
      if-both Returns (ltb (system.now w).0 deadline) _ _
        (λ e. if-both Returns (system.reaped pid timed).0 _ _ (λ d. (_, refl)) (λ d. rest))
        (λ e. (_, refl))

  module _ (config : NativeShellActionConfig) where
    wait_loop-Returns :
        (fuel past : ℕ) (expect : Bool) (last : NativeShellLiveSnapshot) (w : W)
        → past ≤ clock.reading w + 10 * fuel
        → Returns (wait_loop system config (suc fuel) past expect last w)
    unfolding wait_loop
    wait_loop-Returns zero past expect last w enough =
        let reads = clock.now-reads w in
        let over : ltb (system.now w).0 past ≡ false = ground arith in rw over (_, refl)
    wait_loop-Returns (suc fuel) past expect last w enough =
        let timed = (system.now w).1 in
        let seen = (system.poll_live timed).0 in
        let polled = (system.poll_live timed).1 in
        let later = clock.now-later w in
        let later' = clock.poll-later timed in
        let slept = clock.sleep-later (interval system config) polled in
        let ten = at_least-le 10 config.live_probe_interval_ms in
        let rest =
          wait_loop-Returns fuel past expect seen (system.sleep_for (interval system config) polled)
            (omega arith) in
        if-both Returns (ltb (system.now w).0 past) _ _
          (λ e. if-both Returns (live_ready expect seen) _ _ (λ d. (_, refl)) (λ d. rest))
          (λ e. (_, refl))

  after_reaping-Returns :
      (pid : ℕ) (o : Option (Bool × W)) → Returns o → Returns (after_reaping system pid o)
  after_reaping-Returns pid none (a, e) = cc
  after_reaping-Returns pid (some (true, w)) r = (_, refl)
  after_reaping-Returns pid (some (false, w)) r = (_, refl)

  signalled-Returns : (pid : ℕ) (p : Bool × W) → Returns (signalled system pid p)
  signalled-Returns pid (false, w) = (_, refl)
  signalled-Returns pid (true, w) =
      let time = (system.now w).0 in
      let timed = (system.now w).1 in
      let reads = clock.now-reads w in
      let later = clock.now-later w in
      after_reaping-Returns pid (reap_loop system reap_fuel (time + 2000) pid timed)
        (reap_loop-Returns 41 (time + 2000) pid timed (omega arith))

  terminate-Returns : (pid : ℕ) (w : W) → Returns (terminate_server_process system pid w)
  unfolding terminate_server_process
  terminate-Returns zero w = (_, refl)
  terminate-Returns (suc pid) w = signalled-Returns (suc pid) (system.kill (suc pid) sigterm w)

  module _ (config : NativeShellActionConfig) where
    wait-Returns :
        (expect : Bool) (w : W) → Returns (wait_for_live_condition system config expect w)
    unfolding wait_for_live_condition
    wait-Returns expect w =
        let timeout = config.live_probe_timeout_ms in
        let time = (system.now w).0 in
        let reads = clock.now-reads w in
        let later = clock.now-later w in
        let soon = past_deadline-le time timeout in
        wait_loop-Returns config (suc (at_least 0 timeout)) (past_deadline time timeout) expect
          no_snapshot (system.now w).1 (omega arith)

    cleaned-Returns : (o : Option (Bool × Text × W)) → Returns o → Returns (cleaned system config o)
    cleaned-Returns none (a, e) = cc
    cleaned-Returns (some (ok, err, w)) r = (_, refl)

    cleanup-Returns : (pid : ℕ) (w : W) → Returns (cleanup_managed_server system config pid w)
    unfolding cleanup_managed_server
    cleanup-Returns pid w =
        if-both Returns (pid == 0) _ _ (λ e. (w, refl))
          (λ e. cleaned-Returns (terminate_server_process system pid w) (terminate-Returns pid w))

    failed_start-Returns :
        (last : NativeShellLiveSnapshot) (o : Option W)
        → Returns o
        → Returns (failed_start system config last o)
    failed_start-Returns last none (a, e) = cc
    failed_start-Returns last (some w) r = (_, refl)

    after_start_wait-Returns :
        (pid : ℕ) (o : Option (Bool × NativeShellLiveSnapshot × W))
        → Returns o
        → Returns (after_start_wait system config pid o)
    after_start_wait-Returns pid none (a, e) = cc
    after_start_wait-Returns pid (some (true, last, w)) r = (_, refl)
    after_start_wait-Returns pid (some (false, last, w)) r =
        failed_start-Returns last (cleanup_managed_server system config pid w)
          (cleanup-Returns pid w)

    after_spawn-Returns :
        (spawned : Option ℕ × Text × W) → Returns (after_spawn system config spawned)
    after_spawn-Returns (none, err, w) = (_, refl)
    after_spawn-Returns (some pid, err, w) =
        after_start_wait-Returns pid (wait_for_live_condition system config true w)
          (wait-Returns true w)

    after_stop_wait-Returns :
        (o : Option (Bool × NativeShellLiveSnapshot × W))
        → Returns o
        → Returns (after_stop_wait system config o)
    after_stop_wait-Returns none (a, e) = cc
    after_stop_wait-Returns (some (ok, last, w)) r = (_, refl)

    after_terminate-Returns :
        (pid : ℕ) (o : Option (Bool × Text × W))
        → Returns o
        → Returns (after_terminate system config pid o)
    after_terminate-Returns pid none (a, e) = cc
    after_terminate-Returns pid (some (false, err, w)) r = (_, refl)
    after_terminate-Returns pid (some (true, err, w)) r =
        after_stop_wait-Returns (wait_for_live_condition system config false w)
          (wait-Returns false w)

    -- On a clock that does not go back, and on which a sleep takes the time it was asked for,
    -- starting and stopping the service both return: the fuel of their loops is enough.
    pub actions-return :
        (pid : ℕ) (w : W)
        → Returns (start_server_action system config pid w)
          × Returns (stop_server_action system config pid w)
    unfolding start_server_action stop_server_action
    actions-return zero w = (after_spawn-Returns (spawn_server_process system config w), (_, refl))
    actions-return (suc pid) w = (
      (_, refl),
      after_terminate-Returns (suc pid) (terminate_server_process system (suc pid) w)
          (terminate-Returns (suc pid) w),
    )
