-- ===== src/Starts/State.antt =====
-- The tables of workflow_starts.py and its errors. An identifier or a token is the number of its
-- UUID; a time is a number of microseconds.
use agents_should_survive_fa.Base.{ℕ, String, Bool, true, false, Option, List, ◌==◌, ◌&&◌, str_eq}
use agents_should_survive_fa.Models.{WorkflowRun}
use agents_should_survive_fa.Gateway.State.{RunToolGrantSnapshot}

pub data WorkflowStartStatus : Type 0 where
  pending started failed : WorkflowStartStatus

abbrev pub is_started : WorkflowStartStatus → Bool
is_started started = true
is_started _ = false

pub record WorkflowStartAttempt : Type 0 where
  pub workflow_run_id : ℕ
  pub status : WorkflowStartStatus
  pub attempt_token : Option ℕ
  pub attempts : ℕ
  pub error_category : Option String
  pub last_attempted_at : Option ℕ
  pub lease_expires_at : Option ℕ
  pub started_at : Option ℕ

pub record AgentToolGrant : Type 0 where
  pub agent_id : ℕ
  pub tool_definition_id : ℕ
  pub policy_version : String
  pub policy_hash : String

-- The audit event of a request to start, by its run and actor.
pub record StartAudit : Type 0 where
  pub workflow_run_id : ℕ
  pub actor_id : ℕ
  pub action : String

pub record StartTables : Type 0 where
  pub runs : List WorkflowRun
  pub attempts : List WorkflowStartAttempt
  pub grants : List AgentToolGrant
  pub snapshots : List RunToolGrantSnapshot
  pub audits : List StartAudit

-- `LookupError`, `RequestFingerprintConflict` and `WorkflowStartUnavailable`.
pub data StartError : Type 0 where
  lookup_error fingerprint_conflict : StartError
  start_unavailable : String → StartError

-- The clause on the unique pair of principal and idempotency key.
abbrev pub requested : ℕ → String → WorkflowRun → Bool
requested principal key r = r.requested_by_id == principal && str_eq r.idempotency_key key

abbrev pub attempt_of : ℕ → WorkflowStartAttempt → Bool
attempt_of run_id a = a.workflow_run_id == run_id
