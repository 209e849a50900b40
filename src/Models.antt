-- ===== src/Models.antt =====
-- Rows and states that the components share
-- (src/agents_should_survive_failure/persistence/models.py). An identifier is the number of its
-- UUID; a time is a number of microseconds.
use agents_should_survive_fa.Base.{ℕ, String, Option}
use agents_should_survive_fa.Json.{Json}

pub data RunStatus : Type 0 where
  pending running waiting succeeded failed cancelled rejected : RunStatus

pub data ApprovalStatus : Type 0 where
  pending approved rejected cancelled : ApprovalStatus

pub record WorkflowRun : Type 0 where
  pub id : ℕ
  pub agent_id : ℕ
  pub parent_workflow_run_id : Option ℕ
  pub root_workflow_run_id : ℕ
  pub delegation_depth : ℕ
  pub vendor_id : Option ℕ
  pub requested_by_id : ℕ
  pub workflow_type : String
  pub temporal_workflow_id : String × ℕ  -- the prefix and the run of `f"{prefix}-{run_id}"`
  pub idempotency_key : String
  pub request_fingerprint : String
  pub status : RunStatus
  pub input_summary : Json
  pub result_summary : Option Json
  pub started_at : Option ℕ
  pub completed_at : Option ℕ
