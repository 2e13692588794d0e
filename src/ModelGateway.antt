-- ===== src/ModelGateway.antt =====
-- packages/model_gateway: the model backends.
pub mod Rules
pub mod Deterministic
pub mod Search
pub mod Findings
pub mod Synthesis
