-- ===== src/Server/Service/Tests.antt =====
-- Starts and stops of a fresh server.
use p2p_desktop_share_new.Base.{true, false, List, [], ◌∷◌, ◌≡◌, ◌⊎◌, inl, refl}
use p2p_desktop_share_new.Server.Service.{
  ServiceConfig, ServiceImpl, no_fault, thread_fault, service_stop, service_start,
}
use p2p_desktop_share_new.Server.Service.Lifecycle.{
  Complete, Gone, ServiceStep, started, stopped, service_run, service_run-Complete,
  thread_fault-leaks,
}

abbrev local_only : ServiceConfig
local_only = record { bind_address = "127.0.0.1"; port = 9443; max_viewers = 10; thread_count = 0 }

abbrev fresh : ServiceImpl
fresh = record {
  cfg = local_only;
  running = false;
  bind_address = "";
  port = 0;
  has_hub = false;
  has_listener = false;
  threads = 0;
}

abbrev steps : List ServiceStep
steps =
    started 8 true (thread_fault 1) local_only ∷ stopped ∷ started 8 true no_fault local_only ∷ []

service_run-Complete_example :
    Complete (service_run fresh steps)
    × (((service_run fresh steps).running ≡ false) ⊎ Gone (service_stop (service_run fresh steps)))
service_run-Complete_example = service_run-Complete fresh steps (inl refl)

thread_fault-leaks_example :
    let (ok, after) = service_start 8 true (thread_fault 1) local_only fresh in
    (ok ≡ false) × (after.has_listener ≡ true) × (after.threads ≡ 1) × (service_stop after ≡ after)
thread_fault-leaks_example = thread_fault-leaks 8 1 local_only fresh refl
