-- ===== src/Schemas.antt =====
-- packages/schemas and packages/model_gateway/base.py: the records that the components exchange.
-- The bounds that pydantic checks are written out where a value can break them; what the schemas
-- below do not bound is unbounded in the source as well.
mod Identity
mod Cases
mod Reviews
mod Actions
mod Outbox
unfoldable pub use Identity.*
unfoldable pub use Cases.*
unfoldable pub use Reviews.*
unfoldable pub use Actions.*
unfoldable pub use Outbox.*
