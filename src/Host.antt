-- ===== src/Host.antt =====
-- crates/executor-host: the daemon's HTTP surface.
pub mod Guard
pub mod Auth
mod Tests
