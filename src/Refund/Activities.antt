-- ===== src/Refund/Activities.antt =====
-- The activities of a refund that compute or change tables (workflows/refund/activities.py). The rest
-- call the governed gateway or the model, whose answers are parameters.
pub mod Risk
use agents_should_survive_fa.Base.{
  ℕ, String, ◌+◌, ◌&&◌, not, Bool, true, false, Option, none, some, List, [], ◌∷◌, ◌==◌, str_eq,
  leb, if◌then◌else◌, Tx, Result, ok, err, find, update_first, is_some, transaction, pure, raise,
  suc,
}
use agents_should_survive_fa.Json.{Json, text, Fields, lookup}
use agents_should_survive_fa.Models.{WorkflowRun, RunStatus, ApprovalStatus}
use agents_should_survive_fa.Gateway.State.{ApprovalRequest, ApprovalDecision}
use agents_should_survive_fa.Workflow.Contracts.{ApprovalDecisionType, ApprovalDecisionInput}
use agents_should_survive_fa.Refund.State.{
  RefundWorkflowInput, RefundDecision, RefundProjection, RefundEmail, RefundTables, RefundError,
  value_error, invalid_amount, missing_status, call_failed, integrity_error, refund_request,
  committed_with, of_refund, email_of,
}

-- `Decimal(text)`, if it accepts the text, and `>=` with a whole number.
pub record Decimals : Type 1 where
  pub Decimal : Type 0
  pub parse : String → Option Decimal
  -- No answer for a NaN, whose comparison raises.
  pub at_least : Decimal → ℕ → Option Bool

abbrev pub is_delivered : Json → Bool
is_delivered (text status) = str_eq status "delivered"
is_delivered _ = false

abbrev lesser : ℕ → ℕ → ℕ
lesser a b = if leb a b then a else b

unfoldable pub risk_score : Bool → Bool → ℕ
risk_score large delivered =
    lesser 100 (20 + (if large then 40 else 10) + (if delivered then 0 else 25))

-- `calculate_refund_risk`, from the order's evidence.
unfoldable pub calculate_refund_risk :
    Decimals → RefundWorkflowInput → Fields → Result RefundError ℕ
unfolding risk_score
calculate_refund_risk decimals input order = elim (decimals.parse input.amount) [
  | none ↦ err invalid_amount
  | some amount ↦ elim (decimals.at_least amount 500) [
    | none ↦ err invalid_amount
    | some large ↦ elim (lookup "status" order) [
      | none ↦ err missing_status
      | some status ↦ ok (risk_score large (is_delivered status))
    ]
  ]
]

abbrev run_of : ℕ → WorkflowRun → Bool
run_of run_id r = r.id == run_id

abbrev set_status : RunStatus → WorkflowRun → WorkflowRun
set_status status r = record r { status = status }

abbrev new_request : ℕ → ℕ → String → ApprovalRequest
new_request fresh run_id summary = record {
  id = fresh;
  workflow_run_id = run_id;
  request_key = "refund-decision";
  status = ApprovalStatus.pending;
  summary = summary;
  version = 1;
}

-- `request_approval`; the answer is the identifier of the request.
unfoldable pub request_approval : ℕ → RefundWorkflowInput → String → Tx RefundTables RefundError ℕ
request_approval fresh input summary t =
    let runs = update_first (run_of input.run_id) (set_status RunStatus.waiting) t.runs in
    elim (find (refund_request input.run_id) t.requests) [
      | some own ↦ (ok own.id, record t { runs = runs })
      | none ↦ (
        ok fresh,
        record t { runs = runs; requests = new_request fresh input.run_id summary ∷ t.requests },
      )
    ]

abbrev pub approval_status : ApprovalDecisionType → ApprovalStatus
approval_status ApprovalDecisionType.approved = ApprovalStatus.approved
approval_status ApprovalDecisionType.rejected = ApprovalStatus.rejected

abbrev pub run_status : ApprovalDecisionType → RunStatus
run_status ApprovalDecisionType.approved = RunStatus.succeeded
run_status ApprovalDecisionType.rejected = RunStatus.rejected

-- `decision.rationale or explanation`
abbrev pub rationale_or : String → String → String
rationale_or rationale explanation = if str_eq rationale "" then explanation else rationale

abbrev pub projection_of : RefundWorkflowInput → RefundProjection
projection_of input = record {
  workflow_run_id = input.run_id;
  refund_id = input.refund_id;
  order_id = input.order_id;
  customer_id = input.customer_id;
  amount = input.amount;
  status = "refunded";
  idempotency_key = (input.run_id, "refund-projection");
}

-- The projection of an approved refund, unless the refund has one.
abbrev pub project :
    RefundWorkflowInput → ApprovalDecisionType → List RefundProjection → List RefundProjection
project input ApprovalDecisionType.approved ps =
    if is_some (find (of_refund input.refund_id) ps) then ps else projection_of input ∷ ps
project input ApprovalDecisionType.rejected ps = ps

-- A new projection breaks the unique constraint on the idempotency key.
abbrev pub clashes : RefundWorkflowInput → ApprovalDecisionType → List RefundProjection → Bool
clashes input ApprovalDecisionType.approved ps =
    not (is_some (find (of_refund input.refund_id) ps))
    && is_some (find (λ p. p.idempotency_key.0 == input.run_id) ps)
clashes input ApprovalDecisionType.rejected ps = false

abbrev pub decision_row : RefundWorkflowInput → ℕ → String → ApprovalDecisionInput → RefundDecision
decision_row input score explanation d = record {
  workflow_run_id = input.run_id;
  refund_id = input.refund_id;
  order_id = input.order_id;
  amount = input.amount;
  decision = d.decision;
  risk_score = score;
  rationale = rationale_or d.rationale explanation;
  idempotency_key = d.idempotency_key;
}

abbrev approval_row : ℕ → ApprovalDecisionInput → ApprovalDecision
approval_row request_id d = record {
  approval_request_id = request_id;
  decided_by_id = d.decided_by_id;
  decision = approval_status d.decision;
  rationale = d.rationale;
  idempotency_key = d.idempotency_key;
}

abbrev same_status : ApprovalStatus → ApprovalStatus → Bool
same_status ApprovalStatus.pending ApprovalStatus.pending = true
same_status ApprovalStatus.approved ApprovalStatus.approved = true
same_status ApprovalStatus.rejected ApprovalStatus.rejected = true
same_status ApprovalStatus.cancelled ApprovalStatus.cancelled = true
same_status _ _ = false

-- `version` counts the updates that change the row.
abbrev pub settle_request : ApprovalDecisionType → ApprovalRequest → ApprovalRequest
settle_request decision q = record q {
  status = approval_status decision;
  version = if same_status q.status (approval_status decision) then q.version else suc q.version;
}

-- `commit_refund_decision`; a row with the key ends it, an error leaves the tables that it met. The
-- score is none if the risk has no integer under `score`.
unfoldable pub commit_refund_decision :
    Decimals
    → RefundWorkflowInput
    → Option ℕ
    → String
    → ApprovalDecisionInput
    → Tx RefundTables RefundError (Unit {0})
commit_refund_decision decimals input score explanation d t =
    elim (find (committed_with input.run_id d.idempotency_key) t.refund_decisions) [
      | some _ ↦ (ok tt, t)
      | none ↦ elim (find (refund_request input.run_id) t.requests) [
        | none ↦ (err (value_error "refund approval request does not exist"), t)
        | some request ↦ elim score [
          | none ↦ (err (value_error "refund risk score must be an integer"), t)
          | some n ↦ elim (decimals.parse input.amount) [
            | none ↦ (err invalid_amount, t)
            | some _ ↦ elim (clashes input d.decision t.projections) [
              | true ↦ (err integrity_error, t)
              | false ↦ (
                ok tt,
                record t {
                  decisions = approval_row request.id d ∷ t.decisions;
                  requests =
                      update_first (refund_request input.run_id) (settle_request d.decision)
                        t.requests;
                  refund_decisions = decision_row input n explanation d ∷ t.refund_decisions;
                  projections = project input d.decision t.projections;
                  runs =
                      update_first (run_of input.run_id) (set_status (run_status d.decision))
                        t.runs;
                },
              )
            ]
          ]
        ]
      ]
    ]

abbrev pub email_for : RefundWorkflowInput → RefundEmail
email_for input = record {
  workflow_run_id = input.run_id;
  customer_id = input.customer_id;
  status = "simulated";
}

-- `send_refund_notification`; whether the governed call of `email.send` succeeds is an argument, its
-- failure takes the new row back.
unfoldable pub send_refund_notification :
    RefundWorkflowInput → Bool → Tx RefundTables RefundError (Unit {0})
send_refund_notification input sent t = elim sent [
  | false ↦ (err call_failed, t)
  | true ↦ elim (find (email_of input.run_id) t.emails) [
    | some _ ↦ (ok tt, t)
    | none ↦ (ok tt, record t { emails = email_for input ∷ t.emails })
  ]
]
