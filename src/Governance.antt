-- ===== src/Governance.antt =====
-- packages/governance: the repositories of governed actions, and the service that enforces policy.
mod Interface
pub mod Laws
pub mod Memory
pub mod Sql
pub mod Actions
pub mod Service
pub use Interface.*
