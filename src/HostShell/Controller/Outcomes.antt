-- ===== src/HostShell/Controller/Outcomes.antt =====
-- What starting and stopping the service leave (native_shell_action_controller.cpp).
use p2p_desktop_share_new.Base.{
  [], ℕ, zero, suc, ◌+◌, ltb, Bool, true, false, Option, none, some, ◌≡◌, ◌≢◌, ◌⊎◌, inl, inr, refl,
  ap, if-both,
}
use p2p_desktop_share_new.Base.Int.{at_least}
use p2p_desktop_share_new.Base.Text.{Text, text_eq}
use p2p_desktop_share_new.HostShell.Controller.{
  past_deadline, System, NativeShellActionConfig, NativeShellLiveSnapshot, ActionOutcome,
  live_ready, no_snapshot, after_reaping, signalled, terminate_server_process, spawn_server_process,
  forked, interval, wait_loop, wait_for_live_condition, cleanup_managed_server, failed_start,
  after_start_wait, after_spawn, start_server_action, after_stop_wait, after_terminate,
  stop_server_action, sigterm, reap_loop, reap_fuel,
}
use p2p_desktop_share_new.HostShell.Controller.Terminates.{Clock, Returns, actions-return}

-- A predicate of the result, if there is one.
abbrev Whenever {κ} : {A : Type 0} → (A → Type κ) → Option A → Type κ
Whenever P none = Unit
Whenever P (some a) = P a

-- There is a result, and it has the property.
abbrev pub Yields {κ} : {A : Type 0} → (A → Type κ) → Option A → Type κ
Yields {A = A} P o = (a : A) × (o ≡ some a) × P a

yields {κ} : {A : Type 0} (P : A → Type κ) (o : Option A) → Returns o → Whenever P o → Yields P o
yields P none (a, e) w = cc
yields P (some b) (a, e) w = (b, refl, w)

-- The action ended with a snapshot of the state that was waited for.
abbrev pub Seen : {W : Type 0} → Bool → ActionOutcome W → Type 0
Seen expect r =
    (last : NativeShellLiveSnapshot) × (r.snapshot ≡ some last) × (live_ready expect last ≡ true)

-- A start succeeds with a process and a live service, or fails and leaves the managed process as
-- it was.
abbrev pub Started : {W : Type 0} → ℕ → ActionOutcome W → Type 0
Started pid r =
    ((r.ok ≡ true) × (pid ≡ 0) × (r.managed_server_pid ≢ 0) × Seen true r)
    ⊎ ((r.ok ≡ false) × (r.managed_server_pid ≡ pid))

-- A stop succeeds without a process and with a service that is down; or the service is still seen
-- after the process was ended; or there was none; or the process could not be signalled and stays.
abbrev pub Stopped : {W : Type 0} → (signal_sent : Bool) → ℕ → ActionOutcome W → Type 0
Stopped signal_sent pid r =
    ((r.ok ≡ true) × (pid ≢ 0) × (r.managed_server_pid ≡ 0) × Seen false r)
    ⊎ ((r.ok ≡ false) × (r.managed_server_pid ≡ 0))
    ⊎ ((r.ok ≡ false) × (r.managed_server_pid ≡ pid) × (signal_sent ≡ false))

module _ {W : Type 0} (system : System W) (config : NativeShellActionConfig) where
  -- A wait that succeeds has seen what it waited for.
  abbrev Waited : Bool → Bool × NativeShellLiveSnapshot × W → Type 0
  Waited expect (ok, last, w) = (ok ≡ false) ⊎ (live_ready expect last ≡ true)

  wait_loop-Waited :
      (fuel past : ℕ) (expect : Bool) (last : NativeShellLiveSnapshot) (w : W)
      → Whenever (Waited expect) (wait_loop system config fuel past expect last w)
  unfolding wait_loop
  wait_loop-Waited zero past expect last w = tt
  wait_loop-Waited (suc fuel) past expect last w =
      let timed = (system.now w).1 in
      let seen = (system.poll_live timed).0 in
      let polled = (system.poll_live timed).1 in
      if-both (Whenever (Waited expect)) (ltb (system.now w).0 past) _ _
        (λ e.
          if-both (Whenever (Waited expect)) (live_ready expect seen) _ _ (λ d. inr d)
            (λ d.
              wait_loop-Waited fuel past expect seen
                (system.sleep_for (interval system config) polled)))
        (λ e. inl refl)

  wait-Waited :
      (expect : Bool) (w : W)
      → Whenever (Waited expect) (wait_for_live_condition system config expect w)
  unfolding wait_for_live_condition
  wait-Waited expect w =
      let time = (system.now w).0 in
      wait_loop-Waited (suc (suc (at_least 0 config.live_probe_timeout_ms)))
        (past_deadline time config.live_probe_timeout_ms) expect no_snapshot (system.now w).1

  failed_start-Started :
      (last : NativeShellLiveSnapshot) (o : Option W)
      → Whenever (Started 0) (failed_start system config last o)
  failed_start-Started last none = tt
  failed_start-Started last (some w) = inr (refl, refl)

  after_start_wait-Started :
      (pid : ℕ) (o : Option (Bool × NativeShellLiveSnapshot × W))
      → pid ≢ 0
      → Whenever (Waited true) o
      → Whenever (Started 0) (after_start_wait system config pid o)
  after_start_wait-Started pid none some_pid waited = tt
  after_start_wait-Started pid (some (true, last, w)) some_pid waited = elim waited [
    | inl e ↦ cc
    | inr e ↦ inl (refl, refl, some_pid, (last, refl, e))
  ]
  after_start_wait-Started pid (some (false, last, w)) some_pid waited =
      failed_start-Started last (cleanup_managed_server system config pid w)

  abbrev Forked : Option ℕ × Text × W → Type 0
  Forked (none, err, w) = Unit
  Forked (some pid, err, w) = pid ≢ 0

  after_spawn-Started :
      (spawned : Option ℕ × Text × W)
      → Forked spawned
      → Whenever (Started 0) (after_spawn system config spawned)
  after_spawn-Started (none, err, w) there = inr (refl, refl)
  after_spawn-Started (some pid, err, w) there =
      after_start_wait-Started pid (wait_for_live_condition system config true w) there
        (wait-Waited true w)

  -- `fork` does not give the parent the number 0.
  abbrev pub NoZero : Type 0
  NoZero = (w : W) → (system.fork w).0 ≢ some 0

  forked-Forked : (p : Option ℕ × W) → p.0 ≢ some 0 → Forked (forked system p)
  forked-Forked (none, w) nonzero = tt
  forked-Forked (some pid, w) nonzero = λ e. nonzero (ap some e)

  start-Whenever :
      NoZero → (pid : ℕ) (w : W) → Whenever (Started pid) (start_server_action system config pid w)
  unfolding start_server_action spawn_server_process
  start-Whenever nonzero zero w = after_spawn-Started (spawn_server_process system config w) (
      if-both Forked (text_eq config.server_executable []) _ _ (λ e. tt)
        (λ e. forked-Forked (system.fork w) (nonzero w)))
  start-Whenever nonzero (suc pid) w = inr (refl, refl)

  after_stop_wait-Stopped :
      (sent : Bool) (pid : ℕ) (o : Option (Bool × NativeShellLiveSnapshot × W))
      → pid ≢ 0
      → Whenever (Waited false) o
      → Whenever (Stopped sent pid) (after_stop_wait system config o)
  after_stop_wait-Stopped sent pid none some_pid waited = tt
  after_stop_wait-Stopped sent pid (some (true, last, w)) some_pid waited = elim waited [
    | inl e ↦ cc
    | inr e ↦ inl (refl, some_pid, refl, (last, refl, e))
  ]
  after_stop_wait-Stopped sent pid (some (false, last, w)) some_pid waited = inr (inl (refl, refl))

  -- Ending a process fails only if it could not be signalled.
  Ended : Bool → Bool × Text × W → Type 0
  Ended sent (ok, err, w) = (ok ≡ true) ⊎ (sent ≡ false)

  after_reaping-Ended :
      (sent : Bool) (pid : ℕ) (o : Option (Bool × W))
      → Whenever (Ended sent) (after_reaping system pid o)
  unfolding Ended
  after_reaping-Ended sent pid none = tt
  after_reaping-Ended sent pid (some (true, w)) = inl refl
  after_reaping-Ended sent pid (some (false, w)) = inl refl

  signalled-Ended : (pid : ℕ) (p : Bool × W) → Whenever (Ended p.0) (signalled system pid p)
  unfolding Ended
  signalled-Ended pid (false, w) = inr refl
  signalled-Ended pid (true, w) =
      after_reaping-Ended true pid
        (reap_loop system reap_fuel ((system.now w).0 + 2000) pid (system.now w).1)

  after_terminate-Stopped :
      (sent : Bool) (pid : ℕ) (o : Option (Bool × Text × W))
      → pid ≢ 0
      → Whenever (Ended sent) o
      → Whenever (Stopped sent pid) (after_terminate system config pid o)
  unfolding Ended
  after_terminate-Stopped sent pid none some_pid ended = tt
  after_terminate-Stopped sent pid (some (false, err, w)) some_pid ended = elim ended [
    | inl e ↦ cc
    | inr e ↦ inr (inr (refl, refl, e))
  ]
  after_terminate-Stopped sent pid (some (true, err, w)) some_pid ended =
      after_stop_wait-Stopped sent pid (wait_for_live_condition system config false w) some_pid
        (wait-Waited false w)

  stop-Whenever :
      (pid : ℕ) (w : W)
      → Whenever
          (Stopped (system.kill pid sigterm w).0 pid)
          (stop_server_action system config pid w)
  unfolding stop_server_action terminate_server_process
  stop-Whenever zero w = inr (inl (refl, refl))
  stop-Whenever (suc pid) w =
      after_terminate-Stopped (system.kill (suc pid) sigterm w).0 (suc pid)
        (terminate_server_process system (suc pid) w) (λ e. cc)
        (signalled-Ended (suc pid) (system.kill (suc pid) sigterm w))

  -- If `fork` never gives the parent the number 0 and the clock runs, a start returns; it succeeds
  -- only where no process was managed, and then with a process and with a last snapshot that shows
  -- the service running and healthy; when it fails, the managed process is what it was.
  pub start-Started :
      Clock system
      → NoZero
      → (pid : ℕ) (w : W) → Yields (Started pid) (start_server_action system config pid w)
  start-Started clock nonzero pid w =
      yields (Started pid) (start_server_action system config pid w)
        (actions-return system clock config pid w).0 (start-Whenever nonzero pid w)

  -- If the clock runs, a stop returns; it succeeds only where a process was managed, and then there
  -- is none and the last snapshot shows the service neither running nor healthy; when it fails,
  -- there is no managed process, or `SIGTERM` could not be sent and the process is what it was.
  pub stop-Stopped :
      Clock system
      → (pid : ℕ) (w : W)
      → Yields (Stopped (system.kill pid sigterm w).0 pid) (stop_server_action system config pid w)
  stop-Stopped clock pid w =
      yields (Stopped (system.kill pid sigterm w).0 pid) (stop_server_action system config pid w)
        (actions-return system clock config pid w).1 (stop-Whenever pid w)
