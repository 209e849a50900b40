-- ===== src/Review/Settle.antt =====
-- What one run of `record_decision` does to the tables (workflows/activities.py).
use agents_should_survive_fa.Base.{
  ℕ, String, ◌≡◌, inl, inr, true, false, Option, none, some, arith, find, find_sound,
  find-update_first, ok, err, Option-cases, eq_refl, ◌∙◌, transaction,
}
use agents_should_survive_fa.Models.{WorkflowRun}
use agents_should_survive_fa.Gateway.State.{ApprovalRequest, ApprovalDecision}
use agents_should_survive_fa.Workflow.Contracts.{ApprovalDecisionInput, VendorOnboardingInput}
use agents_should_survive_fa.Review.State.{
  Vendor, ReviewTables, of_id, vendor_of_id, request_of, decided_with, append_event, audit,
}
use agents_should_survive_fa.Review.Decide.{
  agrees_with, is_open, decision_row, settle_request, settle_vendor, settle_run, decided_tables,
  notified, evidence, decide_request, record_decision,
}

-- An activity that raises leaves every table as it was.
pub record_decision_atomic :
    (notify : ℕ → Vendor → Option String) (now : ℕ) (i : VendorOnboardingInput)
    (d : ApprovalDecisionInput) (s : ReviewTables) {e : String}
    → (record_decision notify now i d s).0 ≡ err e
    → (record_decision notify now i d s).1 ≡ s
unfolding record_decision
record_decision_atomic notify now i d s h = ground (arith, h)

-- The rows of a decision that finds its request, run and vendor.
pub record Found (i : VendorOnboardingInput) (d : ApprovalDecisionInput) (s : ReviewTables)
    (q : ApprovalRequest) (r : WorkflowRun) (v : Vendor) : Type 0 where
  pub request : find (request_of d.approval_request_id i.run_id) s.requests ≡ some q
  pub run : find (of_id i.run_id) s.runs ≡ some r
  pub vendor : find (vendor_of_id i.vendor_id) s.vendors ≡ some v

module _ (notify : ℕ → Vendor → Option String) (now : ℕ) (i : VendorOnboardingInput)
    (d : ApprovalDecisionInput) (s : ReviewTables) (q : ApprovalRequest) (r : WorkflowRun)
    (v : Vendor) (f : Found i d s q r v) where
  pub record_found :
      record_decision notify now i d s ≡ transaction (decide_request notify now i d q v) s
  unfolding record_decision
  record_found = ground (arith, f.request, f.run, f.vendor)

  module _ (new : find (decided_with q.id d.idempotency_key) s.decisions ≡ none) where
    taken :
        (transaction (decide_request notify now i d q v) s).0 ≡ ok tt
        → (transaction (decide_request notify now i d q v) s
            ≡ (ok tt, evidence i d (decided_tables now i d q v s)))
    unfolding decide_request
    taken h = elim (Option-cases (notified notify d.decision i.run_id v)) [
      | inl sent ↦ ground (arith, h)
      | inr (x, failed) ↦ absurd (ground (arith, h, failed))
    ]

    pub closed_refuses :
        is_open d q ≡ false
        → transaction (decide_request notify now i d q v) s
          ≡ (err "approval request is no longer pending at the expected version", s)
    unfolding decide_request
    closed_refuses h = ground (arith, h)

  pub known_repeats :
      (e : ApprovalDecision)
      → find (decided_with q.id d.idempotency_key) s.decisions ≡ some e
      → agrees_with d e ≡ true
      → transaction (decide_request notify now i d q v) s ≡ (ok tt, s)
  unfolding decide_request
  known_repeats e known same = ground (arith, known, same)

-- The evidence of a decision touches no other table.
abbrev pub SameRows : ReviewTables → ReviewTables → Type 0
SameRows s t =
    (t.requests ≡ s.requests)
    × (t.runs ≡ s.runs)
    × (t.vendors ≡ s.vendors)
    × (t.decisions ≡ s.decisions)

append_event_keeps :
    (run_id n : ℕ) (kind : String) (s : ReviewTables) → SameRows s (append_event run_id n kind s)
unfolding append_event
append_event_keeps run_id n kind s = ground arith

audit_keeps :
    (run_id : ℕ) (action : String) (actor : Option ℕ) (s : ReviewTables)
    → SameRows s (audit run_id action actor s)
unfolding audit
audit_keeps run_id action actor s = ground arith

pub evidence_keeps :
    (i : VendorOnboardingInput) (d : ApprovalDecisionInput) (s : ReviewTables)
    → SameRows s (evidence i d s)
unfolding evidence
evidence_keeps i d s =
    let t = append_event i.run_id 40 "approval.decided" s in
    let (a, b, c, e) = append_event_keeps i.run_id 40 "approval.decided" s in
    let (a', b', c', e') =
      audit_keeps i.run_id "approval.decision.record" (some d.decided_by_id) t in
    (a' ∙ a, b' ∙ b, c' ∙ c, e' ∙ e)

pub own_decision :
    (d : ApprovalDecisionInput) (q : ApprovalRequest)
    → (decided_with q.id d.idempotency_key (decision_row d q) ≡ true)
      × (agrees_with d (decision_row d q) ≡ true)
own_decision d q = ground (arith, eq_refl d.idempotency_key, eq_refl d.rationale)

module _ (now : ℕ) (i : VendorOnboardingInput) (d : ApprovalDecisionInput) (s : ReviewTables)
    (q : ApprovalRequest) (r : WorkflowRun) (v : Vendor) (f : Found i d s q r v) where
  pub settled-Found :
      (t : ReviewTables)
      → SameRows (decided_tables now i d q v s) t
      → Found i d t
          (settle_request d.decision q)
          (settle_run now d.decision v r)
          (settle_vendor d.decision v)
  settled-Found t (requests, runs, vendors, _) = record {
    request = rw requests (
        find-update_first (request_of d.approval_request_id i.run_id) (settle_request d.decision)
          s.requests f.request
          (find_sound (request_of d.approval_request_id i.run_id) s.requests f.request));
    run = rw runs (
        find-update_first (of_id i.run_id) (settle_run now d.decision v) s.runs f.run
          (find_sound (of_id i.run_id) s.runs f.run));
    vendor = rw vendors (
        find-update_first (vendor_of_id i.vendor_id) (settle_vendor d.decision) s.vendors f.vendor
          (find_sound (vendor_of_id i.vendor_id) s.vendors f.vendor));
  }

module _ (notify : ℕ → Vendor → Option String) (now : ℕ) (i : VendorOnboardingInput)
    (d : ApprovalDecisionInput) (s : ReviewTables) (q : ApprovalRequest) (r : WorkflowRun)
    (v : Vendor) (f : Found i d s q r v)
    (new : find (decided_with q.id d.idempotency_key) s.decisions ≡ none)
    (h : (record_decision notify now i d s).0 ≡ ok tt) where
  pub recorded :
      record_decision notify now i d s ≡ (ok tt, evidence i d (decided_tables now i d q v s))
  recorded =
      let e = record_found notify now i d s q r v f in
      e ∙ taken notify now i d s q r v f new (rw e at h)
