-- ===== src/Catalog.antt =====
-- crates/executor-catalog: the prepaid ledger and the priced calls.
pub mod Error
pub mod Money
pub mod Service
pub mod Call
mod Tests
