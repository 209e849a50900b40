-- ===== src/Refund/Notified.antt =====
-- What a refund's tables hold while its workflow runs (workflows/refund/workflow.py and activities.py).
pub mod Commits
pub mod Steps
pub mod Reach
use mathlib.Core.Option.{some-injective}
use agents_should_survive_fa.Base.{
  ℕ, String, ◌≡◌, ◌≢◌, ◌⊎◌, refl, sym, ap, subst, ◌∙◌, inl, inr, Bool, true, false, Option, none,
  some, List, [], ◌∷◌, Result, ok, err, str_eq, ◌==◌, ◌&&◌, find, find_sound, is_some, arith,
  eq_refl, eq_iff, ==_refl, Option-cases, Bool-cases, if◌then◌else◌,
}
use agents_should_survive_fa.Workflow.Contracts.{
  ApprovalDecisionType, approved, rejected, ApprovalDecisionInput,
}
use agents_should_survive_fa.Refund.State.{
  RefundWorkflowInput, RefundDecision, RefundEmail, RefundTables, committed_with, email_of,
  refund_request,
}
use agents_should_survive_fa.Refund.Activities.{
  Decimals, commit_refund_decision, send_refund_notification, request_approval,
  calculate_refund_risk, decision_row, rationale_or,
}
use agents_should_survive_fa.Refund.Machine.{
  Point, retrieving_order, retrieving_policy, calculating, explaining, requesting, waiting,
  committing, notifying, returned, failed, RefundWorkflow, start, decide, validate_decision,
  ActivityResult, evidence, risk, explanation, requested, done, next_point, resume, Answers,
  run_activity, is_at_activity, RefundStep, delivers, retries, fails, decides, RefundReach, starts,
  then_step, wake, is_request,
}

abbrev pub decision_of : ℕ → RefundDecision → Bool
decision_of run_id row = row.workflow_run_id == run_id

abbrev pub NoEmail : ℕ → RefundTables → Type 0
NoEmail run_id t = find (email_of run_id) t.emails ≡ none

abbrev pub NoDecision : ℕ → RefundTables → Type 0
NoDecision run_id t = find (decision_of run_id) t.refund_decisions ≡ none

-- The newest decision row of the run is of the given verdict, under the given key.
abbrev pub Recorded : ℕ → ApprovalDecisionType → String → RefundTables → Type 0
Recorded run_id verdict key t =
    (row : RefundDecision) × (find (decision_of run_id) t.refund_decisions ≡ some row)
    × (row.decision ≡ verdict)
    × (row.idempotency_key ≡ key)

abbrev pub is_early : Point → Bool
is_early (committing _ _) = false
is_early notifying = false
is_early (returned _) = false
is_early failed = false
is_early _ = true

-- What holds of the decision, the point and the tables of a run.
pub data Sound (run_id : ℕ) : Option ApprovalDecisionInput → Point → RefundTables → Type 0 where
  early :
      {p : Point} {t : RefundTables}
      → is_early p ≡ true
      → NoEmail run_id t
      → NoDecision run_id t
      → Sound run_id none p t
  at_commit :
      {score : ℕ} {text : String} {d : ApprovalDecisionInput} {t : RefundTables}
      → NoEmail run_id t
      → NoDecision run_id t ⊎ Recorded run_id d.decision d.idempotency_key t
      → Sound run_id (some d) (committing score text) t
  at_notification :
      {d : ApprovalDecisionInput} {t : RefundTables}
      → d.decision ≡ approved
      → Recorded run_id d.decision d.idempotency_key t
      → Sound run_id (some d) notifying t
  at_return :
      {d : ApprovalDecisionInput} {verdict : ApprovalDecisionType} {t : RefundTables}
      → d.decision ≡ verdict
      → Recorded run_id d.decision d.idempotency_key t
      → NoEmail run_id t ⊎ (d.decision ≡ approved)
      → Sound run_id (some d) (returned verdict) t
  at_failure :
      {o : Option ApprovalDecisionInput} {t : RefundTables}
      → NoEmail run_id t ⊎ ((key : String) × Recorded run_id approved key t)
      → Sound run_id o failed t
