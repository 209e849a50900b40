-- ===== src/Managed.antt =====
-- Managed agents: the creation of their runs (workflow_starts.py) and the delegation of a run to a
-- child agent (workflows/managed_activities.py).
pub mod State
pub mod Create
pub mod Delegate
