-- ===== src/Runtime.antt =====
-- Durable checkpoints, artifacts and budgets of managed runs
-- (src/agents_should_survive_failure/runtime_state.py).
pub mod State
pub mod Checkpoint
pub mod Artifact
pub mod Budget
