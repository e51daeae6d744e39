-- ===== src/Runtime.antt =====
-- core/runtime: what the desktop shell decides about the service it runs.
pub mod Alerts
pub mod Actions
pub mod HostSession
pub mod RemoteProbe
pub mod Bridge
pub mod AdminShell
pub mod Observability
pub mod EditSession
pub mod Controller
pub mod Schedule
pub mod Lifecycle
pub mod HostRuntime
