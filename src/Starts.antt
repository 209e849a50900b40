-- ===== src/Starts.antt =====
-- The handoff of a run to Temporal (src/agents_should_survive_failure/workflow_starts.py).
pub mod State
pub mod Create
pub mod Attempt
pub mod Refunds
pub mod Recover
