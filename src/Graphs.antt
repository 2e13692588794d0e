-- ===== src/Graphs.antt =====
-- packages/graphs: the review graph. LangGraph, which runs it, is a parameter.
pub mod State
pub mod Nodes
pub mod Steps
pub mod Engine
pub mod Workflow
pub mod Invariant
pub mod Consistent
pub mod Answers
pub mod Completes
pub mod Ends
pub mod Liveness
pub mod Failures
