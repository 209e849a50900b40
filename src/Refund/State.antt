-- ===== src/Refund/State.antt =====
-- The rows of a refund (persistence/models.py) and its input (workflows/contracts.py). An amount is
-- kept by its text, which `Decimal` has accepted.
use agents_should_survive_fa.Base.{ℕ, String, Bool, List, ◌==◌, ◌&&◌, str_eq}
use agents_should_survive_fa.Models.{WorkflowRun}
use agents_should_survive_fa.Gateway.State.{ApprovalRequest, ApprovalDecision}
use agents_should_survive_fa.Workflow.Contracts.{ApprovalDecisionType}

pub record RefundWorkflowInput : Type 0 where
  pub run_id : ℕ
  pub refund_id : String
  pub order_id : String
  pub amount : String
  pub reason : String
  pub customer_id : String

pub record RefundDecision : Type 0 where
  pub workflow_run_id : ℕ
  pub refund_id : String
  pub order_id : String
  pub amount : String
  pub decision : ApprovalDecisionType
  pub risk_score : ℕ
  pub rationale : String
  pub idempotency_key : String

-- The idempotency key is unique in the table; its text is made of these two parts.
pub record RefundProjection : Type 0 where
  pub workflow_run_id : ℕ
  pub refund_id : String
  pub order_id : String
  pub customer_id : String
  pub amount : String
  pub status : String
  pub idempotency_key : ℕ × String

-- The idempotency key of an e-mail is made of its run.
pub record RefundEmail : Type 0 where
  pub workflow_run_id : ℕ
  pub customer_id : String
  pub status : String

pub record RefundTables : Type 0 where
  pub runs : List WorkflowRun
  pub requests : List ApprovalRequest
  pub decisions : List ApprovalDecision
  pub refund_decisions : List RefundDecision
  pub projections : List RefundProjection
  pub emails : List RefundEmail

-- The `ValueError`s by their text, the refusal of an amount by `Decimal`, the `KeyError` of an order
-- without a status, the failure of the governed call, and a broken unique constraint.
pub data RefundError : Type 0 where
  value_error : String → RefundError
  invalid_amount missing_status call_failed integrity_error : RefundError

abbrev pub refund_request : ℕ → ApprovalRequest → Bool
refund_request run_id q = q.workflow_run_id == run_id && str_eq q.request_key "refund-decision"

abbrev pub committed_with : ℕ → String → RefundDecision → Bool
committed_with run_id key d = d.workflow_run_id == run_id && str_eq d.idempotency_key key

abbrev pub of_refund : String → RefundProjection → Bool
of_refund refund_id p = str_eq p.refund_id refund_id

abbrev pub email_of : ℕ → RefundEmail → Bool
email_of run_id e = e.workflow_run_id == run_id
