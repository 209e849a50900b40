-- ===== src/Examples/Reviewing.antt =====
-- Examples for workflows/vendor_onboarding.py: a review up to its wait, and the decision on it.
use agents_should_survive_fa.Base.{◌≡◌, ◌↔◌, refl, true, false, none, some}
use agents_should_survive_fa.Base.Int.{pos}
use agents_should_survive_fa.Workflow.Contracts.{ApprovalDecisionInput, approved}
use agents_should_survive_fa.Workflow.Vendor.{
  VendorWorkflow, waiting_for_approval, recording_decision, completed, cancelled, waiting, returned,
  record_decision, start, done, assessed, requested, resume, after_wait, reach_wait,
  validate_decision, decide, cancel, activity_ends, wait_ends, update, signal, Reach, here, next,
  is_waiting_phase,
}
use agents_should_survive_fa.Workflow.Vendor.Invariant.{Inv, Reach-Inv, type_of}
use agents_should_survive_fa.Workflow.Vendor.Decisions.{
  IsAcceptable, validate_decision_exactly, returned_decision,
}
use agents_should_survive_fa.Workflow.Vendor.Completion.{Steps, decision_completes, lives_at}

abbrev decision : ApprovalDecisionInput
decision = record {
  approval_request_id = 6;
  expected_version = pos 1;
  decision = approved;
  decided_by_id = 2;
  rationale = "documents complete";
  idempotency_key = "decide-1";
}

abbrev at_wait : VendorWorkflow
at_wait = record {
  phase = waiting_for_approval;
  approval_request_id = some 6;
  approval_version = some (pos 1);
  decision = none;
  is_cancelled = false;
  point = waiting;
}

at_wait-Reach : Reach at_wait
unfolding start resume reach_wait
at_wait-Reach =
    next
      (next (next here (activity_ends done refl))
        (activity_ends (assessed (record { score = 20; summary = "low" })) refl))
      (activity_ends (requested 6) refl)

Reach-Inv_example : Inv at_wait
Reach-Inv_example = Reach-Inv at_wait-Reach

validate_decision_exactly_example :
    (validate_decision decision at_wait ≡ none) ↔ IsAcceptable decision at_wait
validate_decision_exactly_example = validate_decision_exactly decision at_wait

accepted : validate_decision decision at_wait ≡ none
unfolding validate_decision is_waiting_phase
accepted = refl

abbrev decided : VendorWorkflow
decided = record at_wait { decision = some decision }

decided-Reach : Reach decided
unfolding decide validate_decision is_waiting_phase
decided-Reach = next at_wait-Reach (update decision (lives_at at_wait refl))

abbrev recording : VendorWorkflow
recording = record decided { phase = recording_decision; point = record_decision }

recording-Reach : Reach recording
unfolding after_wait
recording-Reach = next decided-Reach (wait_ends refl refl)

abbrev finished : VendorWorkflow
finished = record decided { phase = completed; point = returned (some approved) }

recorded : resume record_decision done recording ≡ some finished
unfolding resume
recorded = refl

finished-Reach : Reach finished
finished-Reach = next recording-Reach (activity_ends done recorded)

returned_decision_example :
    (type_of finished.decision ≡ some approved)
    × (finished.phase ≡ completed)
    × (finished.is_cancelled ≡ false)
returned_decision_example = returned_decision approved finished-Reach refl

abbrev dropped : VendorWorkflow
dropped = record at_wait { is_cancelled = true; phase = cancelled; point = returned none }

dropped-Reach : Reach dropped
unfolding cancel after_wait resume
dropped-Reach =
    next (next (next at_wait-Reach (signal (lives_at at_wait refl))) (wait_ends refl refl))
      (activity_ends done refl)

decision_completes_example :
    (v : VendorWorkflow) × Steps at_wait v × (v.point ≡ returned (some approved))
decision_completes_example = decision_completes decision at_wait refl accepted
