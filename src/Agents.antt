-- ===== src/Agents.antt =====
-- The agents of packages/payops_core/agents that decide how an investigation goes on.
pub mod Sufficiency
pub mod Verifier
pub mod Critic
pub mod Team
pub mod Planning
pub mod Inspector
pub mod Analyst
