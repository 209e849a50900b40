-- ===== src/Examples/Refunding.antt =====
-- Examples for the refund workflow and its activities (workflows/refund), over amounts that are all
-- read as 600.
use agents_should_survive_fa.Base.{
  Bool, ℕ, ◌≡◌, ◌≤◌, ◌+◌, refl, true, Option, none, some, [], ◌∷◌, ok, leb, if◌then◌else◌, String,
}
use agents_should_survive_fa.Base.Int.{pos}
use agents_should_survive_fa.Json.{Json, Fields, text, field, end, lookup}
use agents_should_survive_fa.Models.{ApprovalStatus}
use agents_should_survive_fa.Gateway.State.{ApprovalRequest}
use agents_should_survive_fa.Workflow.Contracts.{approved, ApprovalDecisionInput}
use agents_should_survive_fa.Refund.State.{RefundWorkflowInput, RefundTables}
use agents_should_survive_fa.Refund.Activities.{
  Decimals, calculate_refund_risk, is_delivered, commit_refund_decision, request_approval,
  send_refund_notification, email_for, risk_score, decision_row, projection_of,
}
use agents_should_survive_fa.Refund.Activities.Risk.{calculate_refund_risk_bounds}
use agents_should_survive_fa.Refund.Once.{
  OnePerRefund, commit_refund_decision-OnePerRefund, commit_refund_decision_repeated,
}
use agents_should_survive_fa.Refund.Machine.{
  RefundWorkflow, RefundReach, starts, then_step, delivers, decides, start, decide, Answers,
  returned, run_activity, resume, next_point, validate_decision, evidence, risk, explanation,
  requested, done, Point, retrieving_policy, calculating, explaining, requesting, waiting,
  notifying,
}
use agents_should_survive_fa.Refund.Notified.{Recorded}
use agents_should_survive_fa.Refund.Notified.Reach.{mail_follows_approval, returned_verdict}

abbrev decimals : Decimals
decimals = record { Decimal = ℕ; parse = λ s. some 600; at_least = λ n m. some (leb m n) }

abbrev input : RefundWorkflowInput
input = record {
  run_id = 1;
  refund_id = "r-1";
  order_id = "o-1";
  amount = "600.00";
  reason = "damaged";
  customer_id = "c-1";
}

abbrev order : Fields
order = field "status" (text "delivered") end

calculated : calculate_refund_risk decimals input order ≡ ok 60
unfolding calculate_refund_risk risk_score
calculated = refl

calculate_refund_risk_bounds_example :
    (30 ≤ 60)
    × (60 ≤ 85)
    × ((amount : ℕ) × (large : Bool) × (status : Json) × (decimals.parse input.amount ≡ some amount)
        × (decimals.at_least amount 500 ≡ some large)
        × (lookup "status" order ≡ some status)
        × (60 ≡ 20 + (if large then 40 else 10) + (if is_delivered status then 0 else 25)))
calculate_refund_risk_bounds_example =
    calculate_refund_risk_bounds decimals input order 60 calculated

abbrev approval : ApprovalDecisionInput
approval = record {
  approval_request_id = 3;
  expected_version = pos 1;
  decision = approved;
  decided_by_id = 8;
  rationale = "";
  idempotency_key = "d-1";
}

abbrev blank : RefundTables
blank = record {
  runs = [];
  requests = [];
  decisions = [];
  refund_decisions = [];
  projections = [];
  emails = [];
}

abbrev request : ApprovalRequest
request = record {
  id = 3;
  workflow_run_id = 1;
  request_key = "refund-decision";
  status = ApprovalStatus.pending;
  summary = "Approve refund";
  version = 1;
}

abbrev asked : RefundTables
asked = record blank { requests = request ∷ [] }

abbrev score : Option ℕ
score = some 60

commit_returns : (commit_refund_decision decimals input score "why" approval asked).0 ≡ ok tt
unfolding commit_refund_decision
commit_returns = refl

commit_refund_decision-OnePerRefund_example :
    OnePerRefund (commit_refund_decision decimals input score "why" approval asked).1.projections
commit_refund_decision-OnePerRefund_example =
    commit_refund_decision-OnePerRefund decimals input score "why" approval asked tt

commit_refund_decision_repeated_example :
    commit_refund_decision decimals input none "again" approval
      (commit_refund_decision decimals input score "why" approval asked).1
    ≡ (ok tt, (commit_refund_decision decimals input score "why" approval asked).1)
commit_refund_decision_repeated_example =
    commit_refund_decision_repeated decimals input score "why" approval asked none "again" approval
      refl commit_returns

abbrev answers : Answers
answers = record {
  order = order;
  explained = "why";
  fresh = 3;
  summary = "Approve refund";
  sent = true;
}

abbrev undecided : Option ℕ → Point → RefundWorkflow
undecided id point = record { approval_request_id = id; decision = none; point = point }

abbrev decided : Point → RefundWorkflow
decided point = record { approval_request_id = some 3; decision = some approval; point = point }

abbrev final : RefundTables
final = record asked {
  decisions =
      record {
        approval_request_id = 3;
        decided_by_id = 8;
        decision = ApprovalStatus.approved;
        rationale = "";
        idempotency_key = "d-1";
      }
      ∷ [];
  requests = record request { status = ApprovalStatus.approved; version = 2 } ∷ [];
  refund_decisions = decision_row input 60 "why" approval ∷ [];
  projections = projection_of input ∷ [];
  emails = email_for input ∷ [];
}

waits : RefundReach decimals input blank (undecided (some 3) (waiting 60 "why")) asked
unfolding start run_activity resume next_point calculate_refund_risk risk_score request_approval
waits =
    then_step
      (then_step
        (then_step
          (then_step
            (then_step starts (
              delivers answers {r = evidence order} {w' = undecided none (retrieving_policy order)}
                refl refl))
            (delivers answers {r = evidence order} {w' = undecided none (calculating order)} refl
              refl))
          (delivers answers {r = risk 60} {w' = undecided none (explaining 60)} refl refl))
        (delivers answers {r = explanation "why"} {w' = undecided none (requesting 60 "why")} refl
          refl))
      (delivers answers {r = requested 3} {w' = undecided (some 3) (waiting 60 "why")} refl refl)

refunds : RefundReach decimals input blank (decided (returned approved)) final
unfolding run_activity resume next_point decide validate_decision commit_refund_decision
    send_refund_notification
refunds =
    then_step
      (then_step (then_step waits (decides approval))
        (delivers answers {r = done} {w' = decided notifying} refl refl))
      (delivers answers {r = done} {w' = decided (returned approved)} refl refl)

mail_follows_approval_example : (key : String) × Recorded 1 approved key final
mail_follows_approval_example =
    mail_follows_approval decimals input blank final (decided (returned approved)) refl refl refunds
      (email_for input) refl

returned_verdict_example :
    (d : ApprovalDecisionInput) × (some approval ≡ some d)
    × (d.decision ≡ approved)
    × Recorded 1 d.decision d.idempotency_key final
returned_verdict_example =
    returned_verdict decimals input blank final (decided (returned approved)) approved refl refl
      refunds refl
