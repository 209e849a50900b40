-- ===== src/Workflow/Vendor/Invariant.antt =====
-- What holds of a vendor workflow at every await (workflows/vendor_onboarding.py), and what a
-- decision that was accepted goes through.
use agents_should_survive_fa.Base.{ℕ, ◌≡◌, ◌≢◌, refl, true, false, Option, none, some, arith}
use agents_should_survive_fa.Base.Int.{pos}
use agents_should_survive_fa.Workflow.Contracts.{ApprovalDecisionType, ApprovalDecisionInput}
use agents_should_survive_fa.Workflow.Vendor.{
  created, assessing_risk, waiting_for_approval, cancelled, recording_decision, completed, Point,
  begin_review, assess_risk, request_approval, waiting, cancel_review, record_decision, returned,
  failed, VendorWorkflow, start, ActivityResult, done, resume, after_wait, wait_over, decide,
  cancel, Step, activity_ends, activity_fails, wait_ends, update, signal, Reach, here, next,
}

abbrev pub type_of : Option ApprovalDecisionInput → Option ApprovalDecisionType
type_of none = none
type_of (some d) = some d.decision

-- What holds of the fields at a point of `run`.
abbrev pub At : Point → VendorWorkflow → Type 0
At begin_review w = (w.phase ≡ created) × (w.approval_request_id ≡ none) × (w.decision ≡ none)
At assess_risk w = (w.phase ≡ assessing_risk) × (w.approval_request_id ≡ none) × (w.decision ≡ none)
At request_approval w =
    (w.phase ≡ waiting_for_approval) × (w.approval_request_id ≡ none) × (w.decision ≡ none)
At waiting w = (w.phase ≡ waiting_for_approval) × (w.approval_request_id ≢ none)
At cancel_review w = w.is_cancelled ≡ true
At record_decision w = (w.decision ≢ none) × (w.phase ≡ recording_decision)
At (returned (some t)) w = (w.phase ≡ completed) × (type_of w.decision ≡ some t)
At (returned none) w = (w.phase ≡ cancelled) × (w.is_cancelled ≡ true)
At failed w = Unit {0}

-- A decision that was taken names the workflow's own request, at version 1.
abbrev pub IsOwn : Option ApprovalDecisionInput → Option ℕ → Type 0
IsOwn none request = Unit {0}
IsOwn (some d) request = (request ≡ some d.approval_request_id) × (d.expected_version ≡ pos 1)

pub record Inv (w : VendorWorkflow) : Type 0 where
  pub exclusive : w.decision ≢ none → w.is_cancelled ≡ false
  pub own : IsOwn w.decision w.approval_request_id
  pub versioned : w.approval_request_id ≢ none → w.approval_version ≡ some (pos 1)
  pub at : At w.point w

start-Inv : Inv start
unfolding start
start-Inv = ground arith

decide-Inv : (d : ApprovalDecisionInput) (w : VendorWorkflow) → Inv w → Inv (decide d w)
unfolding decide
decide-Inv d w v = ground (arith, v.exclusive, v.versioned)

cancel-Inv : (w : VendorWorkflow) → Inv w → Inv (cancel w)
unfolding cancel
cancel-Inv w v = ground (arith, v.exclusive, v.versioned)

after_wait-Inv : (w : VendorWorkflow) → Inv w → wait_over w ≡ true → Inv (after_wait w)
unfolding after_wait
after_wait-Inv w v over = ground (arith, v.exclusive, v.versioned)

resume-Inv :
    (p : Point) (r : ActivityResult) (w u : VendorWorkflow)
    → w.point ≡ p
    → Inv w
    → resume p r w ≡ some u
    → Inv u
unfolding resume
resume-Inv begin_review done w u e v h = ground (arith, v.exclusive, v.versioned)
resume-Inv p r w u e v h = ground (arith, v.exclusive, v.versioned)

-- A step keeps the invariant.
Step-Inv : {w v : VendorWorkflow} → Step w v → Inv w → Inv v
Step-Inv {w} {v} (activity_ends r h) i = resume-Inv w.point r w v refl i h
Step-Inv {w} (activity_fails a) i = record {
  exclusive = i.exclusive;
  own = i.own;
  versioned = i.versioned;
  at = tt;
}
Step-Inv {w} (wait_ends p over) i = after_wait-Inv w i over
Step-Inv {w} (update d live) i = decide-Inv d w i
Step-Inv {w} (signal live) i = cancel-Inv w i

-- Every workflow that Temporal can bring about satisfies the invariant: it is never both decided and
-- cancelled, its decision names its own request at version 1, and its phase fits the point of `run`.
pub Reach-Inv : {w : VendorWorkflow} → Reach w → Inv w
Reach-Inv here = start-Inv
Reach-Inv (next r s) = Step-Inv s (Reach-Inv r)
