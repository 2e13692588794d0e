-- ===== src/Outbox.antt =====
-- packages/outbox: leases on the messages that a proposal leaves in the database, and their
-- delivery.
pub mod Repository
pub mod Dispatcher
pub mod Sorting
pub mod Claims
pub mod Exclusive
pub mod Rows
pub mod Writes
pub mod Leases
pub mod Steps
pub mod Deliveries
pub mod Dispatch
