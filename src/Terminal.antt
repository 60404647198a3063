-- ===== src/Terminal.antt =====
-- monitor/src/api/ws/terminal.rs: the connection of a browser terminal, from the upgrade to the end.
pub mod Messages
pub mod Admission
pub mod Phases
pub mod Pump
pub mod Tasks
pub mod Turns
pub mod Connection
pub mod Lifecycle
pub mod Announcement
pub mod System
pub mod Stores
pub mod Coverage
pub mod Guarding
pub mod Frames
pub mod Revocation
pub mod Upgrades
mod Tests
