-- ===== src/Persistence.antt =====
-- packages/persistence: the database records and the state that the components share.
mod Models
mod State
unfoldable pub use Models.*
unfoldable pub use State.*
