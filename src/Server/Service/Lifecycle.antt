-- ===== src/Server/Service/Lifecycle.antt =====
-- Sequences of starts and stops (service_host.cpp).
use p2p_desktop_share_new.Base.{
  ℕ, ◌+◌, ◌≤◌, Bool, true, false, List, [], ◌∷◌, ◌≡◌, ◌⊎◌, inl, inr, refl, arith, if-both,
  Bool-cases, subst, sym,
}
use p2p_desktop_share_new.Server.Service.{
  ServiceConfig, ServiceImpl, StartFault, no_fault, hub_fault, router_fault, listener_fault,
  thread_fault, service_stop, thread_count_of, built, settled, service_start,
}

-- A server that runs has its hub, its listener and a thread.
abbrev pub Complete : ServiceImpl → Type 0
Complete impl =
    (impl.running ≡ false)
    ⊎ ((impl.has_hub ≡ true) × (impl.has_listener ≡ true) × (1 ≤ impl.threads))

-- Nothing of a server is left.
abbrev pub Gone : ServiceImpl → Type 0
Gone impl =
    (impl.running ≡ false)
    × (impl.has_hub ≡ false)
    × (impl.has_listener ≡ false)
    × (impl.threads ≡ 0)

thread_count-positive : (hardware : ℕ) (cfg : ServiceConfig) → 1 ≤ thread_count_of hardware cfg
unfolding thread_count_of
thread_count-positive hardware cfg = ground arith

pub data ServiceStep : Type 0 where
  started : ℕ → Bool → StartFault → ServiceConfig → ServiceStep
  stopped : ServiceStep

unfoldable pub service_step : ServiceImpl → ServiceStep → ServiceImpl
service_step impl (started hardware address_ok fault cfg) =
    (service_start hardware address_ok fault cfg impl).1
service_step impl stopped = service_stop impl

unfoldable pub service_run : ServiceImpl → List ServiceStep → ServiceImpl
service_run impl [] = impl
service_run impl (step ∷ steps) = service_run (service_step impl step) steps

stop-Complete : (impl : ServiceImpl) → Complete (service_stop impl)
unfolding service_stop
stop-Complete impl = if-both Complete impl.running _ _ (λ e. inl refl) (λ e. inl e)

settled-Complete :
    (hardware : ℕ) (cfg : ServiceConfig) (fault : StartFault) (impl : ServiceImpl)
    → Complete (settled cfg fault (built (thread_count_of hardware cfg) fault impl)).1
unfolding built
settled-Complete hardware cfg no_fault impl =
    let some_thread = thread_count-positive hardware cfg in
    inr (refl, refl, omega (arith, some_thread))
settled-Complete hardware cfg hub_fault impl = stop-Complete _
settled-Complete hardware cfg router_fault impl = stop-Complete _
settled-Complete hardware cfg listener_fault impl = stop-Complete _
settled-Complete hardware cfg (thread_fault made) impl = stop-Complete _

stop-Gone : (impl : ServiceImpl) → impl.running ≡ true → Gone (service_stop impl)
unfolding service_stop
stop-Gone impl running = if-both Gone impl.running _ impl (λ e. (refl, refl, refl, refl)) (λ e. cc)

stop-idle : (impl : ServiceImpl) → impl.running ≡ false → service_stop impl ≡ impl
unfolding service_stop
stop-idle impl idle = if-both (λ x. x ≡ impl) impl.running _ impl (λ e. cc) (λ e. refl)

step-Complete :
    (impl : ServiceImpl) (step : ServiceStep) → Complete impl → Complete (service_step impl step)
unfolding service_step service_start
step-Complete impl (started hardware address_ok fault cfg) complete =
    if-both (λ (r : Bool × ServiceImpl). Complete r.1) impl.running _ _ (λ e. complete)
      (λ stopped_before.
        if-both (λ (r : Bool × ServiceImpl). Complete r.1) address_ok _ _
          (λ e. settled-Complete hardware cfg fault (record impl { cfg = cfg }))
          (λ e. inl stopped_before))
step-Complete impl stopped complete = stop-Complete impl

-- From a server that does not run or has a hub, a listener and a thread, after whatever starts,
-- with whatever faults, and stops: a server that runs has the three, and stopping it leaves none of
-- them.
pub service_run-Complete :
    (impl : ServiceImpl) (steps : List ServiceStep)
    → Complete impl
    → Complete (service_run impl steps)
      × (((service_run impl steps).running ≡ false) ⊎ Gone (service_stop (service_run impl steps)))
unfolding service_run
service_run-Complete impl [] complete = (complete, gone (Bool-cases impl.running))
  where
    gone :
        (impl.running ≡ true) ⊎ (impl.running ≡ false)
        → (impl.running ≡ false) ⊎ Gone (service_stop impl)
    gone (inl e) = inr (stop-Gone impl e)
    gone (inr e) = inl e
service_run-Complete impl (step ∷ steps) complete =
    service_run-Complete (service_step impl step) steps (step-Complete impl step complete)

abbrev Leaks : ℕ → Bool × ServiceImpl → Type 0
Leaks threads r =
    (r.0 ≡ false) × (r.1.has_listener ≡ true) × (r.1.threads ≡ threads) × (service_stop r.1 ≡ r.1)

-- A start from a server that does not run, with a good address, that fails in making a thread
-- leaves its listener and the threads made before, and a stop leaves them too.
pub thread_fault-leaks :
    (hardware made : ℕ) (cfg : ServiceConfig) (impl : ServiceImpl)
    → impl.running ≡ false
    → let (ok, after) = service_start hardware true (thread_fault made) cfg impl in
      (ok ≡ false)
      × (after.has_listener ≡ true)
      × (after.threads ≡ impl.threads + made)
      × (service_stop after ≡ after)
unfolding service_start built
thread_fault-leaks hardware made cfg impl not_running =
    let failed : ServiceImpl =
      built (thread_count_of hardware cfg) (thread_fault made) (record impl { cfg = cfg }) in
    let idle : service_stop failed ≡ failed = stop-idle failed not_running in
    if-both (Leaks (impl.threads + made)) impl.running _ _ (λ e. cc)
      (λ e. subst (λ x. Leaks (impl.threads + made) (false, x)) (sym idle) (refl, refl, refl, idle))
