-- ===== src/Workflow/Vendor/Decisions.antt =====
-- Which decisions a vendor workflow takes, and that it keeps to the first
-- (workflows/vendor_onboarding.py).
use agents_should_survive_fa.Base.{
  ◌≡◌, ◌≢◌, ◌⊎◌, ◌↔◌, refl, ◌∙◌, inl, inr, true, false, none, some, arith, Option-cases, ap, subst,
  sym,
}
use agents_should_survive_fa.Workflow.Contracts.{
  ApprovalDecisionType, ApprovalDecisionInput, same_decision, same_decision_sound,
  same_decision_refl,
}
use agents_should_survive_fa.Workflow.Vendor.{
  waiting_for_approval, cancelled, completed, Point, returned, failed, VendorWorkflow,
  ActivityResult, done, resume, after_wait, wait_over, validate_decision, decide, cancel, Step,
  activity_ends, activity_fails, wait_ends, update, signal, Reach, begin_review,
}
use agents_should_survive_fa.Workflow.Vendor.Invariant.{Inv, Reach-Inv, type_of}

-- What a decision must meet to be taken.
pub record IsAcceptable (d : ApprovalDecisionInput) (w : VendorWorkflow) : Type 0 where
  pub phase : w.phase ≡ waiting_for_approval
  pub request : w.approval_request_id ≡ some d.approval_request_id
  pub version : w.approval_version ≡ some d.expected_version
  pub live : w.is_cancelled ≡ false
  pub first : (w.decision ≡ none) ⊎ (w.decision ≡ some d)

accept_phase :
    (d : ApprovalDecisionInput) (w : VendorWorkflow)
    → validate_decision d w ≡ none
    → w.phase ≡ waiting_for_approval
unfolding validate_decision
accept_phase d w h = ground arith

accept_names :
    (d : ApprovalDecisionInput) (w : VendorWorkflow)
    → validate_decision d w ≡ none
    → (w.approval_request_id ≡ some d.approval_request_id)
      × (w.approval_version ≡ some d.expected_version)
unfolding validate_decision
accept_names d w h = ground arith

accept_live :
    (d : ApprovalDecisionInput) (w : VendorWorkflow)
    → validate_decision d w ≡ none
    → w.is_cancelled ≡ false
unfolding validate_decision
accept_live d w h = ground arith

accept_same :
    (d e : ApprovalDecisionInput) (w : VendorWorkflow)
    → w.decision ≡ some e
    → validate_decision d w ≡ none
    → same_decision e d ≡ true
unfolding validate_decision
accept_same d e w h k = ground arith

accept_first :
    (d : ApprovalDecisionInput) (w : VendorWorkflow)
    → validate_decision d w ≡ none
    → (w.decision ≡ none) ⊎ (w.decision ≡ some d)
accept_first d w h = elim (Option-cases w.decision) [
  | inl undecided ↦ inl undecided
  | inr (e, taken) ↦ inr (taken ∙ ap some (same_decision_sound e d (accept_same d e w taken h)))
]

accept_sound :
    (d : ApprovalDecisionInput) (w : VendorWorkflow)
    → validate_decision d w ≡ none
    → IsAcceptable d w
accept_sound d w h = record {
  phase = accept_phase d w h;
  request = (accept_names d w h).0;
  version = (accept_names d w h).1;
  live = accept_live d w h;
  first = accept_first d w h;
}

accept_complete :
    (d : ApprovalDecisionInput) (w : VendorWorkflow)
    → IsAcceptable d w
    → validate_decision d w ≡ none
unfolding validate_decision
accept_complete d w h = ground (arith, same_decision_refl d)

-- The validator accepts a decision exactly when the workflow waits for one, on this request and
-- version, is not cancelled, and has taken none or this very one.
pub validate_decision_exactly :
    (d : ApprovalDecisionInput) (w : VendorWorkflow)
    → (validate_decision d w ≡ none) ↔ IsAcceptable d w
validate_decision_exactly d w = (accept_sound d w, accept_complete d w)

decide_kept :
    (d e : ApprovalDecisionInput) (w : VendorWorkflow)
    → w.decision ≡ some e
    → (decide d w).decision ≡ some e
unfolding decide
decide_kept d e w h = ground (arith, same_decision_sound e d)

resume_kept :
    (p : Point) (r : ActivityResult) (w v : VendorWorkflow)
    → resume p r w ≡ some v
    → v.decision ≡ w.decision
unfolding resume
resume_kept begin_review done w v h = ground arith
resume_kept p r w v h = ground arith

after_wait_kept :
    (w : VendorWorkflow) (e : ApprovalDecisionInput)
    → w.decision ≡ some e
    → (after_wait w).decision ≡ some e
unfolding after_wait
after_wait_kept w e h = ground arith

cancel_kept :
    (w : VendorWorkflow) (e : ApprovalDecisionInput)
    → w.decision ≡ some e
    → (cancel w).decision ≡ some e
unfolding cancel
cancel_kept w e h = ground arith

after_wait_lives : (w : VendorWorkflow) → wait_over w ≡ true → (after_wait w).point ≢ failed
unfolding after_wait
after_wait_lives w h = ground arith

resume_lives :
    (p : Point) (r : ActivityResult) (w v : VendorWorkflow)
    → w.point ≡ p
    → Inv w
    → resume p r w ≡ some v
    → v.point ≢ failed
unfolding resume
resume_lives begin_review done w v e i h = ground arith
resume_lives p r w v e i h = ground arith

-- A decision that was taken is never replaced or withdrawn, by any update, signal or step of `run`.
pub Step-decision :
    {w v : VendorWorkflow} (e : ApprovalDecisionInput)
    → Step w v
    → w.decision ≡ some e
    → v.decision ≡ some e
Step-decision {w} {v} e (activity_ends r s) h = resume_kept w.point r w v s ∙ h
Step-decision {w} e (activity_fails a) h = h
Step-decision {w} e (wait_ends p over) h = after_wait_kept w e h
Step-decision {w} e (update d live) h = decide_kept d e w h
Step-decision {w} e (signal live) h = cancel_kept w e h

-- A reachable workflow that returned a decision type returned that of the decision it had taken,
-- is in the phase completed, and was never cancelled.
pub returned_decision :
    {w : VendorWorkflow} (t : ApprovalDecisionType)
    → Reach w
    → w.point ≡ returned (some t)
    → (type_of w.decision ≡ some t) × (w.phase ≡ completed) × (w.is_cancelled ≡ false)
returned_decision {w} t r h = ground (arith, Reach-Inv r, (Reach-Inv r).exclusive)

-- A workflow that returned nothing was cancelled and has taken no decision.
pub returned_nothing :
    {w : VendorWorkflow}
    → Reach w
    → w.point ≡ returned none
    → (w.decision ≡ none) × (w.phase ≡ cancelled) × (w.is_cancelled ≡ true)
returned_nothing {w} r h = ground (arith, Reach-Inv r, (Reach-Inv r).exclusive)

-- No end of an activity brings a reachable workflow to a failure, and the assertion after the wait
-- does not: `run` fails only where an activity does.
pub run_fails_only_at_activity :
    {w v : VendorWorkflow}
    → Reach w
    → ((r : ActivityResult) × (resume w.point r w ≡ some v))
      ⊎ ((wait_over w ≡ true) × (v ≡ after_wait w))
    → v.point ≢ failed
run_fails_only_at_activity {w} {v} r (inl (result, h)) =
    resume_lives w.point result w v refl (Reach-Inv r) h
run_fails_only_at_activity {w} r (inr (over, e)) =
    subst (λ (u : VendorWorkflow). u.point ≢ failed) (sym e) (after_wait_lives w over)
