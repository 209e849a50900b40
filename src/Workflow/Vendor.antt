-- ===== src/Workflow/Vendor.antt =====
-- `VendorOnboardingWorkflow` (workflows/vendor_onboarding.py). Temporal runs one piece of the
-- workflow at a time: `run` up to its next await, an update with its validator, or a signal. The
-- program counter says at which await `run` stands. An activity ends with its result or, once its
-- retries are used up, with a failure, which ends `run`.
pub mod Invariant
pub mod Decisions
pub mod Completion
use agents_should_survive_fa.Base.{
  ℕ, ◌≡◌, ◌≢◌, Bool, true, false, not, Option, none, some, ◌==◌, if◌then◌else◌, is_some, String,
}
use agents_should_survive_fa.Base.Int.{ℤ, pos, eqb_ℤ}
use agents_should_survive_fa.Workflow.Contracts.{
  ApprovalDecisionType, ApprovalDecisionInput, RiskAssessment, same_decision,
}

pub data Phase : Type 0 where
  created assessing_risk waiting_for_approval cancelled recording_decision completed : Phase

-- Where `run` stands: at an activity, at the wait condition, or ended with its result or a failure.
pub data Point : Type 0 where
  begin_review assess_risk request_approval waiting cancel_review record_decision : Point
  returned : Option ApprovalDecisionType → Point
  failed : Point

pub record VendorWorkflow : Type 0 where
  pub phase : Phase
  pub approval_request_id : Option ℕ
  pub approval_version : Option ℤ
  pub decision : Option ApprovalDecisionInput
  pub is_cancelled : Bool
  pub point : Point

-- `__init__`, with `run` at its first activity.
unfoldable pub start : VendorWorkflow
start = record {
  phase = created;
  approval_request_id = none;
  approval_version = none;
  decision = none;
  is_cancelled = false;
  point = begin_review;
}

pub data ActivityResult : Type 0 where
  done : ActivityResult
  assessed : RiskAssessment → ActivityResult
  requested : ℕ → ActivityResult

-- `run` from the end of the wait to its next await: `assert` holds since the wait ended.
unfoldable pub after_wait : VendorWorkflow → VendorWorkflow
after_wait w = if w.is_cancelled then record w { point = cancel_review } else elim w.decision [
  | none ↦ record w { point = failed }
  | some _ ↦ record w { phase = recording_decision; point = record_decision }
]

-- The wait condition, `self._decision is not None or self._cancelled`.
abbrev pub wait_over : VendorWorkflow → Bool
wait_over w = if is_some w.decision then true else w.is_cancelled

-- `run` reaches the wait condition; it goes on at once if that holds already.
unfoldable pub reach_wait : VendorWorkflow → VendorWorkflow
unfolding after_wait
reach_wait w = if wait_over w then after_wait w else record w { point = waiting }

-- `run` from the end of an activity to its next await; `none` is a result that the activity at which
-- `run` stands does not give.
unfoldable pub resume : Point → ActivityResult → VendorWorkflow → Option VendorWorkflow
unfolding reach_wait
resume begin_review done w = some (record w { phase = assessing_risk; point = assess_risk })
resume assess_risk (assessed _) w =
    some (record w { phase = waiting_for_approval; point = request_approval })
resume request_approval (requested id) w =
    some (reach_wait (record w { approval_request_id = some id; approval_version = some (pos 1) }))
resume cancel_review done w = some (record w { phase = cancelled; point = returned none })
resume record_decision done w = elim w.decision [
  | none ↦ some (record w { point = failed })
  | some d ↦ some (record w { phase = completed; point = returned (some d.decision) })
]
resume _ _ w = none

unfoldable pub is_waiting_phase : Phase → Bool
is_waiting_phase waiting_for_approval = true
is_waiting_phase _ = false

abbrev pub is_request : Option ℕ → ℕ → Bool
is_request none id = false
is_request (some own) id = own == id

abbrev pub is_version : Option ℤ → ℤ → Bool
is_version none version = false
is_version (some own) version = eqb_ℤ own version

-- `validate_decision`: `none` accepts, `some` is the text of its `ValueError`.
unfoldable pub validate_decision : ApprovalDecisionInput → VendorWorkflow → Option String
unfolding is_waiting_phase
validate_decision d w =
    if not (is_waiting_phase w.phase)
    then some "workflow is not waiting for an approval decision"
    else if not (is_request w.approval_request_id d.approval_request_id)
    then some "approval request does not belong to this workflow state"
    else if not (is_version w.approval_version d.expected_version)
    then some "approval request version is stale"
    else if w.is_cancelled
    then some "workflow has been cancelled"
    else elim w.decision [
      | none ↦ none
      | some own ↦
          if same_decision own d then none else some "workflow already has an approval decision"
    ]

-- The update `decide`, which Temporal runs only if its validator accepts.
unfoldable pub decide : ApprovalDecisionInput → VendorWorkflow → VendorWorkflow
unfolding validate_decision
decide d w = elim (validate_decision d w) [ none ↦ record w { decision = some d } | some _ ↦ w ]

-- The signal `cancel`.
unfoldable pub cancel : VendorWorkflow → VendorWorkflow
cancel w = if is_some w.decision then w else record w { is_cancelled = true }

-- One step of the workflow. An update and a signal find a workflow whose `run` has not ended.
pub data HasEnded : Point → Type 0 where
  by_return : (r : Option ApprovalDecisionType) → HasEnded (returned r)
  by_failure : HasEnded failed

pub data IsActivity : Point → Type 0 where
  at_begin : IsActivity begin_review
  at_assess : IsActivity assess_risk
  at_request : IsActivity request_approval
  at_cancel : IsActivity cancel_review
  at_record : IsActivity record_decision

pub data Step (w : VendorWorkflow) : VendorWorkflow → Type 0 where
  activity_ends : {v : VendorWorkflow} (r : ActivityResult) → resume w.point r w ≡ some v → Step w v
  activity_fails : IsActivity w.point → Step w (record w { point = failed })
  wait_ends : w.point ≡ waiting → wait_over w ≡ true → Step w (after_wait w)
  update : (d : ApprovalDecisionInput) → ¬ HasEnded w.point → Step w (decide d w)
  signal : ¬ HasEnded w.point → Step w (cancel w)

pub data Reach : VendorWorkflow → Type 0 where
  here : Reach start
  next : {w v : VendorWorkflow} → Reach w → Step w v → Reach v
