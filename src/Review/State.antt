-- ===== src/Review/State.antt =====
-- The rows that the review's activities read and write, besides runs, requests and decisions
-- (persistence/models.py, persistence/repositories.py), and the rows that they append once.
use agents_should_survive_fa.Base.{
  ℕ, String, Bool, Option, none, some, List, ◌∷◌, ◌==◌, ◌&&◌, str_eq, find,
}
use agents_should_survive_fa.Models.{WorkflowRun}
use agents_should_survive_fa.Gateway.State.{ApprovalRequest, ApprovalDecision}

pub data VendorStatus : Type 0 where
  submitted under_review approved rejected : VendorStatus

pub record Vendor : Type 0 where
  pub id : ℕ
  pub external_reference : String
  pub status : VendorStatus
  pub risk_score : Option ℕ
  pub contact_email : String

pub record ApprovedVendor : Type 0 where
  pub vendor_id : ℕ
  pub workflow_run_id : ℕ
  pub approval_request_id : ℕ

pub record WorkflowEvent : Type 0 where
  pub workflow_run_id : ℕ
  pub sequence : ℕ
  pub event_type : String

-- The idempotency key of an event is made of its run and its action.
pub record AuditEvent : Type 0 where
  pub workflow_run_id : ℕ
  pub action : String
  pub actor_id : Option ℕ

pub record ReviewTables : Type 0 where
  pub runs : List WorkflowRun
  pub vendors : List Vendor
  pub requests : List ApprovalRequest
  pub decisions : List ApprovalDecision
  pub approved_vendors : List ApprovedVendor
  pub events : List WorkflowEvent
  pub audits : List AuditEvent

abbrev pub of_id : ℕ → WorkflowRun → Bool
of_id run_id r = r.id == run_id

abbrev pub vendor_of_id : ℕ → Vendor → Bool
vendor_of_id vendor_id v = v.id == vendor_id

abbrev pub request_of : ℕ → ℕ → ApprovalRequest → Bool
request_of request_id run_id q = q.id == request_id && q.workflow_run_id == run_id

abbrev pub decided_with : ℕ → String → ApprovalDecision → Bool
decided_with request_id key d = d.approval_request_id == request_id && str_eq d.idempotency_key key

-- `_append_event`: nothing where the run has an event of the sequence number.
unfoldable pub append_event : ℕ → ℕ → String → ReviewTables → ReviewTables
append_event run_id sequence event_type s =
    elim (find (λ e. e.workflow_run_id == run_id && e.sequence == sequence) s.events) [
      | some _ ↦ s
      | none ↦ record s {
        events =
            record { workflow_run_id = run_id; sequence = sequence; event_type = event_type }
            ∷ s.events;
      }
    ]

-- `_audit`: nothing where the run has an event of the action.
unfoldable pub audit : ℕ → String → Option ℕ → ReviewTables → ReviewTables
audit run_id action actor s =
    elim (find (λ e. e.workflow_run_id == run_id && str_eq e.action action) s.audits) [
      | some _ ↦ s
      | none ↦ record s {
        audits = record { workflow_run_id = run_id; action = action; actor_id = actor } ∷ s.audits;
      }
    ]
