-- ===== src/Refund/Machine.antt =====
-- `RefundWorkflow` (workflows/refund/workflow.py) with the tables that its activities change. Temporal
-- runs one piece at a time: `run` up to its next await, or an update with its validator. An activity
-- may run several times before its result is delivered, and fails `run` when its retries are used up.
use agents_should_survive_fa.Base.{
  ℕ, String, ◌≡◌, Bool, true, false, not, ◌||◌, Option, none, some, ◌==◌, if◌then◌else◌, is_some,
  ok, err, Tx, pure, raise, ◌>>=◌, ◌>>◌,
}
use agents_should_survive_fa.Base.Int.{pos, eqb_ℤ}
use agents_should_survive_fa.Json.{Fields}
use agents_should_survive_fa.Workflow.Contracts.{
  ApprovalDecisionType, approved, rejected, ApprovalDecisionInput,
}
use agents_should_survive_fa.Refund.State.{
  RefundWorkflowInput, RefundTables, RefundError, call_failed,
}
use agents_should_survive_fa.Refund.Activities.{
  Decimals, calculate_refund_risk, request_approval, commit_refund_decision,
  send_refund_notification,
}

-- At which await `run` stands, with its local variables, or how it has ended.
pub data Point : Type 0 where
  retrieving_order : Point
  retrieving_policy : Fields → Point
  calculating : Fields → Point
  explaining : ℕ → Point
  requesting : ℕ → String → Point
  waiting : ℕ → String → Point
  committing : ℕ → String → Point
  notifying : Point
  returned : ApprovalDecisionType → Point
  failed : Point

pub record RefundWorkflow : Type 0 where
  pub approval_request_id : Option ℕ
  pub decision : Option ApprovalDecisionInput
  pub point : Point

unfoldable pub start : RefundWorkflow
start = record { approval_request_id = none; decision = none; point = retrieving_order }

abbrev pub is_request : Option ℕ → ℕ → Bool
is_request none id = false
is_request (some own) id = own == id

-- `validate_decision`; true is its `ValueError`.
unfoldable pub validate_decision : ApprovalDecisionInput → RefundWorkflow → Bool
validate_decision d w =
    not (is_request w.approval_request_id d.approval_request_id)
    || is_some w.decision
    || not (eqb_ℤ d.expected_version (pos 1))

-- `run` goes on from its wait once there is a decision.
abbrev pub wake : Point → Point
wake (waiting score text) = committing score text
wake point = point

-- The update `decide`, which Temporal runs only if its validator accepts.
unfoldable pub decide : ApprovalDecisionInput → RefundWorkflow → RefundWorkflow
unfolding validate_decision
decide d w =
    if validate_decision d w then w else record w { decision = some d; point = wake w.point }

-- `run` reaches its wait, which is over at once if there is a decision.
abbrev wait_from : ℕ → String → Option ApprovalDecisionInput → Point
wait_from score text none = waiting score text
wait_from score text (some _) = committing score text

abbrev pub verdict_point : ApprovalDecisionType → Point
verdict_point approved = notifying
verdict_point rejected = returned rejected

-- `run` after the commit: `assert` holds since the wait ended.
abbrev pub after_commit : Option ApprovalDecisionInput → Point
after_commit none = failed
after_commit (some d) = verdict_point d.decision

abbrev pub after_notification : Option ApprovalDecisionInput → Point
after_notification none = failed
after_notification (some d) = returned d.decision

-- What an activity answers.
pub data ActivityResult : Type 0 where
  evidence : Fields → ActivityResult
  risk : ℕ → ActivityResult
  explanation : String → ActivityResult
  requested : ℕ → ActivityResult
  done : ActivityResult

-- The next await of `run` from the end of an activity; none is a result that the activity at which
-- `run` stands does not give.
unfoldable pub next_point : ActivityResult → Option ApprovalDecisionInput → Point → Option Point
next_point (evidence order) o retrieving_order = some (retrieving_policy order)
next_point (evidence _) o (retrieving_policy order) = some (calculating order)
next_point (risk score) o (calculating order) = some (explaining score)
next_point (explanation text) o (explaining score) = some (requesting score text)
next_point (requested id) o (requesting score text) = some (wait_from score text o)
next_point done o (committing score text) = some (after_commit o)
next_point done o notifying = some (after_notification o)
next_point _ _ _ = none

abbrev pub request_id : ActivityResult → Option ℕ → Option ℕ
request_id (requested id) own = some id
request_id _ own = own

-- `run` from the end of an activity to its next await.
unfoldable pub resume : ActivityResult → RefundWorkflow → Option RefundWorkflow
resume result w = elim (next_point result w.decision w.point) [
  | none ↦ none
  | some point ↦
      some
        (record w { approval_request_id = request_id result w.approval_request_id; point = point })
]

-- What the gateway, the model and the database give an activity: evidence, the text of the model, the
-- identifier and the text of a new request, whether the e-mail's call succeeds.
pub record Answers : Type 0 where
  pub order : Fields
  pub explained : String
  pub fresh : ℕ
  pub summary : String
  pub sent : Bool

module _ (decimals : Decimals) (input : RefundWorkflowInput) where
  -- The activity at which `run` stands.
  unfoldable pub run_activity :
      Answers → Option ApprovalDecisionInput → Point → Tx RefundTables RefundError ActivityResult
  run_activity a o retrieving_order = pure (evidence a.order)
  run_activity a o (retrieving_policy order) = pure (evidence a.order)
  run_activity a o (calculating order) = elim (calculate_refund_risk decimals input order) [
    | err e ↦ raise e
    | ok score ↦ pure (risk score)
  ]
  run_activity a o (explaining score) = pure (explanation a.explained)
  run_activity a o (requesting score text) =
      request_approval a.fresh input a.summary >>= λ id. pure (requested id)
  run_activity a none (committing score text) = raise call_failed
  run_activity a (some d) (committing score text) =
      commit_refund_decision decimals input (some score) text d >> pure done
  run_activity a o notifying = send_refund_notification input a.sent >> pure done
  run_activity a o _ = raise call_failed

  -- Whether `run` stands at an activity.
  abbrev pub is_at_activity : Point → Bool
  is_at_activity (waiting _ _) = false
  is_at_activity (returned _) = false
  is_at_activity failed = false
  is_at_activity _ = true

  -- One step of the workflow and its tables: an activity delivers its result, runs without delivering
  -- it, or fails for good; or an update arrives.
  pub data RefundStep (w : RefundWorkflow) (t : RefundTables)
      : RefundWorkflow → RefundTables → Type 0 where
    delivers :
        (a : Answers) {r : ActivityResult} {w' : RefundWorkflow}
        → (run_activity a w.decision w.point t).0 ≡ ok r
        → resume r w ≡ some w'
        → RefundStep w t w' (run_activity a w.decision w.point t).1
    retries : (a : Answers) → RefundStep w t w (run_activity a w.decision w.point t).1
    fails : is_at_activity w.point ≡ true → RefundStep w t (record w { point = failed }) t
    decides : (d : ApprovalDecisionInput) → RefundStep w t (decide d w) t

  -- What is reached from the start of the workflow with given tables.
  pub data RefundReach (t : RefundTables) : RefundWorkflow → RefundTables → Type 0 where
    starts : RefundReach t start t
    then_step :
        {w w' : RefundWorkflow} {u u' : RefundTables}
        → RefundReach t w u
        → RefundStep w u w' u'
        → RefundReach t w' u'
