-- ===== src/Review/Decide.antt =====
-- `record_decision` (workflows/activities.py). The notification by mail goes through the gateway to
-- tables of its own: here it is an argument that answers with the exception it raises, if any.
-- SQLAlchemy counts the version of a request up with each change. Metrics are left out, and so are
-- the fault points after the commit.
use agents_should_survive_fa.Base.{
  ℕ, ◌+◌, String, Bool, true, false, Option, none, some, List, ◌∷◌, ◌==◌, ◌&&◌, str_eq, find,
  update_first, Tx, ok, err, transaction,
}
use agents_should_survive_fa.Base.Int.{pos, eqb_ℤ}
use agents_should_survive_fa.Json.{Json, object, field, end, text, integer, null}
use agents_should_survive_fa.Models.{WorkflowRun, RunStatus, ApprovalStatus}
use agents_should_survive_fa.Gateway.State.{ApprovalRequest, ApprovalDecision}
use agents_should_survive_fa.Workflow.Contracts.{
  ApprovalDecisionType, ApprovalDecisionInput, VendorOnboardingInput,
}
use agents_should_survive_fa.Review.State.{
  VendorStatus, Vendor, ApprovedVendor, ReviewTables, of_id, vendor_of_id, request_of, decided_with,
  append_event, audit,
}

abbrev pub status_of : ApprovalDecisionType → ApprovalStatus
status_of ApprovalDecisionType.approved = ApprovalStatus.approved
status_of ApprovalDecisionType.rejected = ApprovalStatus.rejected

abbrev pub run_status_of : ApprovalDecisionType → RunStatus
run_status_of ApprovalDecisionType.approved = RunStatus.succeeded
run_status_of ApprovalDecisionType.rejected = RunStatus.rejected

abbrev pub vendor_status_of : ApprovalDecisionType → VendorStatus
vendor_status_of ApprovalDecisionType.approved = VendorStatus.approved
vendor_status_of ApprovalDecisionType.rejected = VendorStatus.rejected

abbrev pub decision_value : ApprovalDecisionType → String
decision_value ApprovalDecisionType.approved = "approved"
decision_value ApprovalDecisionType.rejected = "rejected"

abbrev pub is_pending : ApprovalStatus → Bool
is_pending ApprovalStatus.pending = true
is_pending _ = false

abbrev pub same_status : ApprovalStatus → ApprovalStatus → Bool
same_status ApprovalStatus.approved ApprovalStatus.approved = true
same_status ApprovalStatus.rejected ApprovalStatus.rejected = true
same_status ApprovalStatus.pending ApprovalStatus.pending = true
same_status ApprovalStatus.cancelled ApprovalStatus.cancelled = true
same_status _ _ = false

-- The persisted decision is that of the input.
abbrev pub agrees_with : ApprovalDecisionInput → ApprovalDecision → Bool
agrees_with d e =
    e.decided_by_id == d.decided_by_id
    && same_status e.decision (status_of d.decision)
    && str_eq e.rationale d.rationale

abbrev pub is_open : ApprovalDecisionInput → ApprovalRequest → Bool
is_open d q = is_pending q.status && eqb_ℤ (pos q.version) d.expected_version

abbrev pub decision_row : ApprovalDecisionInput → ApprovalRequest → ApprovalDecision
decision_row d q = record {
  approval_request_id = q.id;
  decided_by_id = d.decided_by_id;
  decision = status_of d.decision;
  rationale = d.rationale;
  idempotency_key = d.idempotency_key;
}

abbrev pub settle_request : ApprovalDecisionType → ApprovalRequest → ApprovalRequest
settle_request t q = record q { status = status_of t; version = q.version + 1 }

abbrev pub settle_vendor : ApprovalDecisionType → Vendor → Vendor
settle_vendor t v = record v { status = vendor_status_of t }

abbrev pub risk_value : Option ℕ → Json
risk_value none = null
risk_value (some n) = integer (pos n)

abbrev pub settle_run : ℕ → ApprovalDecisionType → Vendor → WorkflowRun → WorkflowRun
settle_run now t v r = record r {
  status = run_status_of t;
  result_summary = some (
      object (
        field "decision" (text (decision_value t))
          (field "risk_score" (risk_value v.risk_score) end)));
  completed_at = some now;
}

-- The projection of an approved vendor, once for each vendor.
unfoldable pub project :
    ApprovalDecisionType → ℕ → ℕ → ℕ → List ApprovedVendor → List ApprovedVendor
project ApprovalDecisionType.rejected vendor_id run_id request_id rows = rows
project ApprovalDecisionType.approved vendor_id run_id request_id rows =
    elim (find (λ p. p.vendor_id == vendor_id) rows) [
      | some _ ↦ rows
      | none ↦
          record {
            vendor_id = vendor_id;
            workflow_run_id = run_id;
            approval_request_id = request_id;
          }
          ∷ rows
    ]

-- The assignments and insertions of `record_decision` up to the mail.
abbrev pub decided_tables :
    ℕ
    → VendorOnboardingInput
    → ApprovalDecisionInput
    → ApprovalRequest
    → Vendor
    → ReviewTables
    → ReviewTables
decided_tables now i d q v s = record s {
  decisions = decision_row d q ∷ s.decisions;
  requests =
      update_first (request_of d.approval_request_id i.run_id) (settle_request d.decision)
        s.requests;
  vendors = update_first (vendor_of_id i.vendor_id) (settle_vendor d.decision) s.vendors;
  runs = update_first (of_id i.run_id) (settle_run now d.decision v) s.runs;
  approved_vendors = project d.decision i.vendor_id i.run_id q.id s.approved_vendors;
}

-- The mail of an approval.
abbrev pub notified :
    (ℕ → Vendor → Option String) → ApprovalDecisionType → ℕ → Vendor → Option String
notified notify ApprovalDecisionType.approved run_id v = notify run_id v
notified notify ApprovalDecisionType.rejected run_id v = none

-- The event and the audit row of a decision.
unfoldable pub evidence :
    VendorOnboardingInput → ApprovalDecisionInput → ReviewTables → ReviewTables
unfolding append_event audit
evidence i d s =
    audit i.run_id "approval.decision.record" (some d.decided_by_id)
      (append_event i.run_id 40 "approval.decided" s)

-- `record_decision` once the request, the run and the vendor are found.
unfoldable pub decide_request :
    (ℕ → Vendor → Option String)
    → ℕ
    → VendorOnboardingInput
    → ApprovalDecisionInput
    → ApprovalRequest
    → Vendor
    → Tx ReviewTables String (Unit {0})
decide_request notify now i d q v s =
    elim (find (decided_with q.id d.idempotency_key) s.decisions) [
      | some existing ↦ elim (agrees_with d existing) [
        | true ↦ (ok tt, s)
        | false ↦ (err "approval idempotency key conflicts with the persisted decision", s)
      ]
      | none ↦ elim (is_open d q) [
        | false ↦ (err "approval request is no longer pending at the expected version", s)
        | true ↦ elim (notified notify d.decision i.run_id v) [
          | some error ↦ (err error, decided_tables now i d q v s)
          | none ↦ (ok tt, evidence i d (decided_tables now i d q v s))
        ]
      ]
    ]

unfoldable pub find_and_decide :
    (ℕ → Vendor → Option String)
    → ℕ
    → VendorOnboardingInput
    → ApprovalDecisionInput
    → Tx ReviewTables String (Unit {0})
unfolding decide_request
find_and_decide notify now i d s =
    elim (find (request_of d.approval_request_id i.run_id) s.requests) [
      | none ↦ (err "workflow state does not exist", s)
      | some q ↦ elim (find (of_id i.run_id) s.runs) [
        | none ↦ (err "workflow state does not exist", s)
        | some _ ↦ elim (find (vendor_of_id i.vendor_id) s.vendors) [
          | none ↦ (err "workflow state does not exist", s)
          | some v ↦ decide_request notify now i d q v s
        ]
      ]
    ]

-- The activity: one session; `now` is its start.
unfoldable pub record_decision :
    (ℕ → Vendor → Option String)
    → ℕ
    → VendorOnboardingInput
    → ApprovalDecisionInput
    → Tx ReviewTables String (Unit {0})
unfolding find_and_decide
record_decision notify now i d = transaction (find_and_decide notify now i d)
