-- ===== src/Server/Service.antt =====
-- core/server/service_host: starting and stopping the server. Of the hub, the listener and the
-- threads the model keeps whether they exist and how many they are; where the operating system
-- makes a start throw is an argument.
pub mod Lifecycle
mod Tests
use p2p_desktop_share_new.Base.{ℕ, ◌+◌, ◌/◌, ◌==◌, leb, String, Bool, true, false, if◌then◌else◌}

pub record ServiceConfig : Type 0 where
  pub bind_address : String
  pub port : ℕ
  pub max_viewers : ℕ
  pub thread_count : ℕ

pub record ServiceImpl : Type 0 where
  pub cfg : ServiceConfig
  pub running : Bool
  pub bind_address : String
  pub port : ℕ
  pub has_hub : Bool
  pub has_listener : Bool
  pub threads : ℕ

-- Where the `try` block of a start throws: in making the hub or the router, in opening the
-- listener, or after some threads.
pub data StartFault : Type 0 where
  no_fault hub_fault router_fault listener_fault : StartFault
  thread_fault : ℕ → StartFault

-- `Stop`.
unfoldable pub service_stop : ServiceImpl → ServiceImpl
service_stop impl =
    if impl.running
    then record impl {
      running = false;
      bind_address = "";
      port = 0;
      has_hub = false;
      has_listener = false;
      threads = 0;
    }
    else impl

-- `hardware` is `hardware_concurrency()`.
unfoldable pub thread_count_of : ℕ → ServiceConfig → ℕ
thread_count_of hardware cfg =
    let half = hardware / 2 in
    if cfg.thread_count == 0 then (if leb half 2 then 2 else half) else cfg.thread_count

-- What the `try` block has made when it ends or throws.
unfoldable pub built : ℕ → StartFault → ServiceImpl → ServiceImpl
built count no_fault impl = record impl {
  has_hub = true;
  has_listener = true;
  threads = impl.threads + count;
}
built count hub_fault impl = impl
built count router_fault impl = record impl { has_hub = true }
built count listener_fault impl = record impl { has_hub = true }
built count (thread_fault made) impl = record impl {
  has_hub = true;
  has_listener = true;
  threads = impl.threads + made;
}

-- `none` thrown, or the catch block.
abbrev pub settled : ServiceConfig → StartFault → ServiceImpl → Bool × ServiceImpl
settled cfg no_fault impl =
    (true, record impl { running = true; bind_address = cfg.bind_address; port = cfg.port })
settled cfg fault impl = (false, service_stop impl)

-- `Start`; `address_ok` says that `make_address` took the address.
unfoldable pub service_start :
    (hardware : ℕ) (address_ok : Bool)
    → StartFault
    → ServiceConfig
    → ServiceImpl
    → Bool × ServiceImpl
service_start hardware address_ok fault cfg impl =
    let configured = record impl { cfg = cfg } in
    if impl.running
    then (false, impl)
    else if address_ok
    then settled cfg fault (built (thread_count_of hardware cfg) fault configured)
    else (false, configured)
