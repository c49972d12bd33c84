-- ===== src/Engine.antt =====
-- crates/executor-engine: the engine that resolves, gates and runs the calls of tools.
pub mod Error
pub mod Lookup
pub mod Execute
pub mod Permits
mod Tests
