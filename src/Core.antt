-- ===== src/Core.antt =====
-- crates/executor-core: identifiers, policies, addresses, the store.
pub mod Owner
pub mod Position
pub mod Policy
pub mod ToolPath
pub mod Limits
pub mod JsonSchema
pub mod Challenge
pub mod Scope
pub mod Search
pub mod Id
pub mod Address
pub mod Tool
pub mod Connection
pub mod Execution
pub mod Store
pub mod Secret
mod Tests
mod RequestTests
