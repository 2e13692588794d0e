-- ===== src/Cases.antt =====
-- packages/persistence/repositories.py: the repositories of supplier cases, reviews and audit
-- events.
pub mod Memory
pub mod Interface
pub mod Laws
pub mod Sql
pub mod Reviews
pub mod Records
pub mod Documents
pub mod Findings
