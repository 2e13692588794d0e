-- ===== src/Retrieval.antt =====
-- packages/retrieval: documents are cut into chunks.
pub mod Text
pub mod Chunking
pub mod Progress
pub mod Bounds
pub mod Chunks
