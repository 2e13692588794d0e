-- ===== src/Api.antt =====
-- apps/api: the HTTP handlers and the collaborators that they compose.
pub mod Container
pub mod Guards
pub mod Reviews
pub mod Executions
pub mod Evidence
pub mod Access
pub mod Trail
pub mod Persist
pub mod Settled
pub mod Failed
pub mod Created
