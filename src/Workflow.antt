-- ===== src/Workflow.antt =====
-- The Temporal workflows (src/agents_should_survive_failure/workflows/).
pub mod Contracts
pub mod Vendor
