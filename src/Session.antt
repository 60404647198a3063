-- ===== src/Session.antt =====
-- monitor/src/api/ws/session.rs: terminal sessions that outlive the WebSocket driving them.
pub mod Scrollback
pub mod Attachment
pub mod Store
mod Tests
