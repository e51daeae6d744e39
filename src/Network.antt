-- ===== src/Network.antt =====
-- core/network: which address the host advertises.
pub mod Ipv4
pub mod Entries
pub mod Endpoints
mod Tests
