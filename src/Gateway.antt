-- ===== src/Gateway.antt =====
-- Governed tools (src/agents_should_survive_failure/tool_gateway.py).
pub mod State
pub mod Invoke
pub mod Call
pub mod Outcome
pub mod Replay
pub mod Gate
pub mod Authority
pub mod Pinning
pub mod Audit
