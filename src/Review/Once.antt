-- ===== src/Review/Once.antt =====
-- A decision takes effect once (workflows/activities.py).
use agents_should_survive_fa.Base.{
  ℕ, String, ◌≡◌, ◌≢◌, refl, false, Option, none, some, ◌∷◌, arith, find, ok, err, eq_iff, ◌∙◌,
}
use agents_should_survive_fa.Models.{WorkflowRun}
use agents_should_survive_fa.Gateway.State.{ApprovalRequest}
use agents_should_survive_fa.Workflow.Contracts.{
  ApprovalDecisionType, ApprovalDecisionInput, VendorOnboardingInput,
}
use agents_should_survive_fa.Review.State.{Vendor, ReviewTables, decided_with}
use agents_should_survive_fa.Review.Decide.{
  is_open, decision_row, settle_request, settle_vendor, settle_run, decided_tables, evidence,
  record_decision,
}
use agents_should_survive_fa.Review.Settle.{
  Found, record_found, known_repeats, closed_refuses, evidence_keeps, own_decision, settled-Found,
  recorded,
}

-- A new decision that is recorded, on a request, a run and a vendor that are there, settles all
-- three at once: the request and the vendor have the status of the decision, the run is finished
-- with the same outcome, and the decision stands under its key.
pub record_decision-Found :
    (notify : ℕ → Vendor → Option String) (now : ℕ) (i : VendorOnboardingInput)
    (d : ApprovalDecisionInput) (s : ReviewTables) (q : ApprovalRequest) (r : WorkflowRun)
    (v : Vendor)
    → Found i d s q r v
    → find (decided_with q.id d.idempotency_key) s.decisions ≡ none
    → (record_decision notify now i d s).0 ≡ ok tt
    → Found i d
        (record_decision notify now i d s).1
        (settle_request d.decision q)
        (settle_run now d.decision v r)
        (settle_vendor d.decision v)
      × (find (decided_with q.id d.idempotency_key) (record_decision notify now i d s).1.decisions
          ≡ some (decision_row d q))
record_decision-Found notify now i d s q r v f new h =
    let kept = evidence_keeps i d (decided_tables now i d q v s) in
    let (_, _, _, decisions) = kept in
    rw (recorded notify now i d s q r v f new h) (
      settled-Found now i d s q r v f (evidence i d (decided_tables now i d q v s)) kept,
      rw decisions (rw (own_decision d q).0 refl),
    )

-- An activity that is retried after its new decision was recorded, on a request, a run and a
-- vendor that are there, succeeds and changes nothing, whatever its mail would answer now.
pub record_decision_retried :
    (notify again : ℕ → Vendor → Option String) (now later : ℕ) (i : VendorOnboardingInput)
    (d : ApprovalDecisionInput) (s : ReviewTables) (q : ApprovalRequest) (r : WorkflowRun)
    (v : Vendor)
    → Found i d s q r v
    → find (decided_with q.id d.idempotency_key) s.decisions ≡ none
    → (record_decision notify now i d s).0 ≡ ok tt
    → record_decision again later i d (record_decision notify now i d s).1
      ≡ (ok tt, (record_decision notify now i d s).1)
record_decision_retried notify again now later i d s q r v f new h =
    let t = (record_decision notify now i d s).1 in
    let (found, decided) = record_decision-Found notify now i d s q r v f new h in
    record_found again later i d t (settle_request d.decision q) (settle_run now d.decision v r)
      (settle_vendor d.decision v) found
    ∙ known_repeats again later i d t (settle_request d.decision q) (settle_run now d.decision v r)
        (settle_vendor d.decision v) found (decision_row d q) decided (own_decision d q).1

settled_closed :
    (t : ApprovalDecisionType) (d : ApprovalDecisionInput) (q : ApprovalRequest)
    → is_open d (settle_request t q) ≡ false
settled_closed ApprovalDecisionType.approved d q = refl
settled_closed ApprovalDecisionType.rejected d q = refl

other_key :
    (d e : ApprovalDecisionInput) (q : ApprovalRequest) (s : ReviewTables)
    → d.idempotency_key ≢ e.idempotency_key
    → find (decided_with q.id e.idempotency_key) s.decisions ≡ none
    → find (decided_with q.id e.idempotency_key) (decision_row d q ∷ s.decisions) ≡ none
other_key d e q s ne none_there =
    ground (arith, none_there, eq_iff d.idempotency_key e.idempotency_key)

-- Once a new decision whose request, run and vendor are there is recorded, a decision on the same
-- request under another key, which the request has no decision for, is refused and changes
-- nothing, at whatever version it is aimed.
pub record_decision_once :
    (notify again : ℕ → Vendor → Option String) (now later : ℕ) (i : VendorOnboardingInput)
    (d e : ApprovalDecisionInput) (s : ReviewTables) (q : ApprovalRequest) (r : WorkflowRun)
    (v : Vendor)
    → Found i d s q r v
    → find (decided_with q.id d.idempotency_key) s.decisions ≡ none
    → (record_decision notify now i d s).0 ≡ ok tt
    → e.approval_request_id ≡ d.approval_request_id
    → d.idempotency_key ≢ e.idempotency_key
    → find (decided_with q.id e.idempotency_key) s.decisions ≡ none
    → record_decision again later i e (record_decision notify now i d s).1 ≡ (
      err "approval request is no longer pending at the expected version",
      (record_decision notify now i d s).1,
    )
record_decision_once notify again now later i d e s q r v f new h same ne none_there =
    let t = (record_decision notify now i d s).1 in
    let (found, _) = record_decision-Found notify now i d s q r v f new h in
    let found' : Found i e t (settle_request d.decision q) (settle_run now d.decision v r)
        (settle_vendor d.decision v) =
      record { request = rw same found.request; run = found.run; vendor = found.vendor } in
    let (_, _, _, decisions) = evidence_keeps i d (decided_tables now i d q v s) in
    let absent : find (decided_with q.id e.idempotency_key) t.decisions ≡ none =
      rw (recorded notify now i d s q r v f new h)
        (rw decisions (other_key d e q s ne none_there)) in
    record_found again later i e t (settle_request d.decision q) (settle_run now d.decision v r)
      (settle_vendor d.decision v) found'
    ∙ closed_refuses again later i e t (settle_request d.decision q) (settle_run now d.decision v r)
        (settle_vendor d.decision v) found' absent (settled_closed d.decision e q)
