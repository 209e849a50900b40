-- ===== src/Review/Cancel.antt =====
-- `cancel_review` (workflows/activities.py): a cancellation closes a pending request, and finds
-- nothing to do once the run has ended.
use agents_should_survive_fa.Base.{
  ℕ, ◌+◌, String, ◌≡◌, refl, Bool, true, false, Option, none, some, arith, ◌==◌, if◌then◌else◌,
  find, update_first, Tx, ok, err,
}
use agents_should_survive_fa.Models.{WorkflowRun, RunStatus, ApprovalStatus}
use agents_should_survive_fa.Gateway.State.{ApprovalRequest}
use agents_should_survive_fa.Workflow.Contracts.{
  ApprovalDecisionType, ApprovalDecisionInput, VendorOnboardingInput,
}
use agents_should_survive_fa.Review.State.{
  Vendor, ReviewTables, of_id, decided_with, append_event, audit,
}
use agents_should_survive_fa.Review.Decide.{is_pending, run_status_of, settle_run, record_decision}
use agents_should_survive_fa.Review.Settle.{Found}
use agents_should_survive_fa.Review.Once.{record_decision-Found}

-- `run.status in {SUCCEEDED, REJECTED, CANCELLED}`
abbrev pub is_closed : RunStatus → Bool
is_closed RunStatus.succeeded = true
is_closed RunStatus.rejected = true
is_closed RunStatus.cancelled = true
is_closed _ = false

abbrev pub withdraw : ApprovalRequest → ApprovalRequest
withdraw q =
    if is_pending q.status
    then record q { status = ApprovalStatus.cancelled; version = q.version + 1 }
    else q

abbrev pub cancel_run : ℕ → WorkflowRun → WorkflowRun
cancel_run now r = record r { status = RunStatus.cancelled; completed_at = some now }

abbrev pub cancelled_tables : ℕ → ℕ → ReviewTables → ReviewTables
cancelled_tables now run_id s = record s {
  requests = update_first (λ q. q.workflow_run_id == run_id) withdraw s.requests;
  runs = update_first (of_id run_id) (cancel_run now) s.runs;
}

unfoldable pub cancel_review : ℕ → VendorOnboardingInput → Tx ReviewTables String (Unit {0})
unfolding append_event audit
cancel_review now i s = elim (find (of_id i.run_id) s.runs) [
  | none ↦ (err "workflow run does not exist", s)
  | some run ↦ elim (is_closed run.status) [
    | true ↦ (ok tt, s)
    | false ↦ (
      ok tt,
      audit i.run_id "workflow.cancel" none
          (append_event i.run_id 50 "review.cancelled" (cancelled_tables now i.run_id s)),
    )
  ]
]

closed_ignored :
    (now : ℕ) (i : VendorOnboardingInput) (s : ReviewTables) (run : WorkflowRun)
    → find (of_id i.run_id) s.runs ≡ some run
    → is_closed run.status ≡ true
    → cancel_review now i s ≡ (ok tt, s)
unfolding cancel_review
closed_ignored now i s run found closed = ground (arith, found, closed)

settled_closes : (t : ApprovalDecisionType) → is_closed (run_status_of t) ≡ true
settled_closes ApprovalDecisionType.approved = refl
settled_closes ApprovalDecisionType.rejected = refl

-- A cancellation right after a new decision was recorded, on a request, a run and a vendor that
-- are there, succeeds and changes nothing: it withdraws neither the decision nor the outcome of
-- the run.
pub cancel_review_too_late :
    (notify : ℕ → Vendor → Option String) (now later : ℕ) (i : VendorOnboardingInput)
    (d : ApprovalDecisionInput) (s : ReviewTables) (q : ApprovalRequest) (r : WorkflowRun)
    (v : Vendor)
    → Found i d s q r v
    → find (decided_with q.id d.idempotency_key) s.decisions ≡ none
    → (record_decision notify now i d s).0 ≡ ok tt
    → cancel_review later i (record_decision notify now i d s).1
      ≡ (ok tt, (record_decision notify now i d s).1)
cancel_review_too_late notify now later i d s q r v f new h =
    let (found, _) = record_decision-Found notify now i d s q r v f new h in
    closed_ignored later i (record_decision notify now i d s).1 (settle_run now d.decision v r)
      found.run (settled_closes d.decision)
