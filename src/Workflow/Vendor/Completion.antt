-- ===== src/Workflow/Vendor/Completion.antt =====
-- A decision that is accepted, or a cancellation, is carried to the end once the remaining activity
-- succeeds (workflows/vendor_onboarding.py).
use agents_should_survive_fa.Base.{◌≡◌, refl, true, false, none, some, arith, ◌∙◌, subst, ◌≢◌}
use agents_should_survive_fa.Workflow.Contracts.{ApprovalDecisionInput}
use agents_should_survive_fa.Workflow.Vendor.{
  completed, cancelled, Point, waiting, returned, record_decision, cancel_review, VendorWorkflow,
  done, resume, after_wait, wait_over, validate_decision, decide, cancel, Step, activity_ends,
  wait_ends, update, signal, HasEnded, by_return, by_failure,
}

-- Steps of the workflow, one after another.
pub data Steps (w : VendorWorkflow) : VendorWorkflow → Type 0 where
  stay : Steps w w
  go : {u v : VendorWorkflow} → Steps w u → Step u v → Steps w v

decided :
    (d : ApprovalDecisionInput) (w : VendorWorkflow)
    → validate_decision d w ≡ none
    → ((decide d w).decision ≡ some d)
      × ((decide d w).point ≡ w.point)
      × ((decide d w).is_cancelled ≡ false)
unfolding decide
decided d w h = ground arith

after_decided :
    (d : ApprovalDecisionInput) (w : VendorWorkflow)
    → w.decision ≡ some d
    → w.is_cancelled ≡ false
    → ((after_wait w).point ≡ record_decision) × ((after_wait w).decision ≡ some d)
unfolding after_wait
after_decided d w h live = ground arith

resumed_recording :
    (d : ApprovalDecisionInput) (w : VendorWorkflow)
    → w.point ≡ record_decision
    → w.decision ≡ some d
    → (v : VendorWorkflow) × (resume w.point done w ≡ some v)
      × (v.point ≡ returned (some d.decision))
unfolding resume
resumed_recording d w at h =
    (record w { phase = completed; point = returned (some d.decision) }, ground arith, refl)

still_waiting : (p : Point) → HasEnded p → p ≢ waiting
still_waiting p (by_return r) e = cc
still_waiting p by_failure e = cc

not_ended : HasEnded waiting → ⊥
not_ended h = still_waiting waiting h refl

pub lives_at : (w : VendorWorkflow) → w.point ≡ waiting → ¬ HasEnded w.point
lives_at w at ended = not_ended (subst HasEnded at ended)

-- From the wait condition, a decision that the validator accepts can be carried by the update, the
-- end of the wait and the end of the recording activity to a return of that very decision.
pub decision_completes :
    (d : ApprovalDecisionInput) (w : VendorWorkflow)
    → w.point ≡ waiting
    → validate_decision d w ≡ none
    → (v : VendorWorkflow) × Steps w v × (v.point ≡ returned (some d.decision))
decision_completes d w at accepted =
    let (taken, same_point, live) = decided d w accepted in
    let u = decide d w in
    let (recording, kept) = after_decided d u taken live in
    let (v, ends, returns) = resumed_recording d (after_wait u) recording kept in
    let over : wait_over u ≡ true = rw taken in
    (
      v,
      go (go (go stay (update d (lives_at w at))) (wait_ends (same_point ∙ at) over))
          (activity_ends done ends),
      returns,
    )

cancelled_at :
    (w : VendorWorkflow)
    → w.point ≡ waiting
    → w.decision ≡ none
    → ((cancel w).point ≡ waiting)
      × (wait_over (cancel w) ≡ true)
      × ((after_wait (cancel w)).point ≡ cancel_review)
unfolding cancel after_wait
cancelled_at w at undecided = ground arith

resumed_cancelling :
    (w : VendorWorkflow)
    → w.point ≡ cancel_review
    → resume w.point done w ≡ some (record w { phase = cancelled; point = returned none })
unfolding resume
resumed_cancelling w at = rw at

-- From the wait condition with no decision taken, a cancel signal can be carried to a return of
-- nothing.
pub cancellation_completes :
    (w : VendorWorkflow)
    → w.point ≡ waiting
    → w.decision ≡ none
    → (v : VendorWorkflow) × Steps w v × (v.point ≡ returned none)
cancellation_completes w at undecided =
    let (still, over, cancelling) = cancelled_at w at undecided in
    let u = after_wait (cancel w) in
    (
      record u { phase = cancelled; point = returned none },
      go (go (go stay (signal (lives_at w at))) (wait_ends still over))
          (activity_ends done (resumed_cancelling u cancelling)),
      refl,
    )
