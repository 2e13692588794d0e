-- ===== src/Tests.antt =====
-- Concrete states and requests, and the theorems at work on them.
mod Fixtures
mod SequentialEngine
mod Container
mod Api
mod Executions
mod Chunks
mod Models
mod Governance
mod Proposals
mod Outbox
mod Cases
mod Reviews
