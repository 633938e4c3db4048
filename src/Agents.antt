-- ===== src/Agents.antt =====
-- The bounded agent runtime, backend/app/agents.
pub mod State
pub mod Contracts
pub mod Graph
pub mod Runtime
pub mod Decisions
pub mod Samples
