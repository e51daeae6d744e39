-- ===== src/Runtime/Bridge.antt =====
-- core/runtime/shell_bridge_presenter: the messages between the desktop shell and its web pages.
pub mod Json
pub mod RoundTrip
pub mod Commands
pub mod Inbound
pub mod Snapshot
pub mod Shape
pub mod Event
mod Tests
