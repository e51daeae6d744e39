-- ===== src/Server.antt =====
-- core/server: the signalling hub, the WebSocket sessions with their outbox, and the HTTP router.
pub mod Hub
pub mod Session
pub mod Router
pub mod Service
pub mod HttpSession
pub mod Outbox
