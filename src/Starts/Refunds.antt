-- ===== src/Starts/Refunds.antt =====
-- `create_or_get_refund` and `classify_start_error` (workflow_starts.py).
use agents_should_survive_fa.Base.{
  ℕ, String, ◌≡◌, Bool, true, false, ◌||◌, none, some, ◌∷◌, ◌++◌, str_eq, ◌==◌, find, Tx, ok, err,
  if◌then◌else◌, select_where, map, arith, eq_refl,
}
use agents_should_survive_fa.Base.Text.{in_lower}
use agents_should_survive_fa.Json.{text, object, field, end}
use agents_should_survive_fa.Models.{WorkflowRun, RunStatus}
use agents_should_survive_fa.Starts.State.{StartTables, StartError, fingerprint_conflict, requested}
use agents_should_survive_fa.Starts.Create.{new_attempt, snapshot_of}
use agents_should_survive_fa.Refund.State.{RefundWorkflowInput}

-- The category of an exception that the handoff raises, from its class.
unfoldable pub classify_start_error : Bool → String → String
classify_start_error is_timeout name =
    if is_timeout
    then "timeout"
    else if in_lower "auth" name || in_lower "permission" name || in_lower "unauth" name
    then "authentication"
    else if in_lower "unavailable" name || in_lower "connection" name || in_lower "transport" name
    then "unavailable"
    else "unexpected"

-- The arguments of `create_or_get_refund`; the run of the refund is not read.
pub record RefundStart : Type 0 where
  pub refund : RefundWorkflowInput
  pub requested_by_id : ℕ
  pub agent_id : ℕ
  pub idempotency_key : String

abbrev pub refund_run : ℕ → RefundStart → String → WorkflowRun
refund_run fresh r fingerprint = record {
  id = fresh;
  agent_id = r.agent_id;
  parent_workflow_run_id = none;
  root_workflow_run_id = fresh;
  delegation_depth = 0;
  vendor_id = none;
  requested_by_id = r.requested_by_id;
  workflow_type = "refund";
  temporal_workflow_id = ("refund", fresh);
  idempotency_key = r.idempotency_key;
  request_fingerprint = fingerprint;
  status = RunStatus.pending;
  input_summary = object (
      field "refund_id" (text r.refund.refund_id) (
        field "order_id" (text r.refund.order_id) (
          field "amount" (text r.refund.amount) (
            field "reason" (text r.refund.reason)
              (field "customer_id" (text r.refund.customer_id) end)))));
  result_summary = none;
  started_at = none;
  completed_at = none;
}

-- The rows of a new refund: the run, its attempt and every grant of the agent; no audit event.
abbrev pub insert_refund : ℕ → RefundStart → String → StartTables → StartTables
insert_refund fresh r fingerprint s = record s {
  runs = refund_run fresh r fingerprint ∷ s.runs;
  attempts = new_attempt fresh ∷ s.attempts;
  snapshots =
      map (snapshot_of fresh) (select_where (λ g. g.agent_id == r.agent_id) s.grants)
      ++ s.snapshots;
}

-- `create_or_get_refund`; the function is `refund_request_fingerprint`, `fresh` is the `uuid4`.
unfoldable pub create_or_get_refund :
    (RefundWorkflowInput → ℕ → String) → ℕ → RefundStart → Tx StartTables StartError WorkflowRun
create_or_get_refund fingerprint fresh r s =
    elim (find (requested r.requested_by_id r.idempotency_key) s.runs) [
      | none ↦ (
        ok (refund_run fresh r (fingerprint r.refund r.agent_id)),
        insert_refund fresh r (fingerprint r.refund r.agent_id) s,
      )
      | some run ↦ elim (str_eq run.request_fingerprint (fingerprint r.refund r.agent_id)) [
        | true ↦ (ok run, s)
        | false ↦ (err fingerprint_conflict, s)
      ]
    ]

-- A refund that was accepted is answered again with the same run and no change, whatever identifier
-- the repetition draws.
pub create_or_get_refund_repeated :
    (fingerprint : RefundWorkflowInput → ℕ → String) (fresh again : ℕ) (r : RefundStart)
    (s : StartTables) (run : WorkflowRun)
    → (create_or_get_refund fingerprint fresh r s).0 ≡ ok run
    → create_or_get_refund fingerprint again r (create_or_get_refund fingerprint fresh r s).1
      ≡ (ok run, (create_or_get_refund fingerprint fresh r s).1)
unfolding create_or_get_refund
create_or_get_refund_repeated fingerprint fresh again r s run h =
    ground (arith, eq_refl r.idempotency_key, eq_refl (fingerprint r.refund r.agent_id))
