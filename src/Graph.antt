-- ===== src/Graph.antt =====
-- packages/payops_core/graph: the state machine of an investigation.
pub mod Types
pub mod Agents
pub mod State
pub mod Tasks
pub mod Investigate
pub mod Nodes
pub mod Machine
