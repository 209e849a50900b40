-- ===== src/Starts/Create.antt =====
-- `create_or_get` (workflow_starts.py): one run for each principal and idempotency key.
use agents_should_survive_fa.Base.{
  ℕ, String, ◌≡◌, inl, inr, Bool, true, false, Option, none, some, List, [], ◌∷◌, ◌++◌, str_eq,
  ◌==◌, ◌&&◌, find, Tx, ok, err, if◌then◌else◌, select_where, map, arith, eq_refl, Option-cases,
  Bool-cases, eq_iff,
}
use agents_should_survive_fa.Json.{object, field, end, integer}
use agents_should_survive_fa.Base.Int.{pos}
use agents_should_survive_fa.Models.{WorkflowRun, RunStatus}
use agents_should_survive_fa.Gateway.State.{RunToolGrantSnapshot}
use agents_should_survive_fa.Starts.State.{
  WorkflowStartStatus, WorkflowStartAttempt, AgentToolGrant, StartTables, StartError,
  fingerprint_conflict, requested,
}

-- The arguments of `create_or_get`; `fingerprint` is the SHA-256 of the vendor, agent and type.
pub record StartRequest : Type 0 where
  pub vendor_id : ℕ
  pub requested_by_id : ℕ
  pub agent_id : ℕ
  pub idempotency_key : String
  pub allowed_tool_definition_ids : Option (List ℕ)

abbrev pub has_member : ℕ → List ℕ → Bool
has_member n [] = false
has_member n (m ∷ ms) = if m == n then true else has_member n ms

abbrev pub new_run : ℕ → StartRequest → String → WorkflowRun
new_run fresh r fingerprint = record {
  id = fresh;
  agent_id = r.agent_id;
  parent_workflow_run_id = none;
  root_workflow_run_id = fresh;
  delegation_depth = 0;
  vendor_id = some r.vendor_id;
  requested_by_id = r.requested_by_id;
  workflow_type = "vendor_onboarding";
  temporal_workflow_id = ("vendor-onboarding", fresh);
  idempotency_key = r.idempotency_key;
  request_fingerprint = fingerprint;
  status = RunStatus.pending;
  input_summary = object (field "vendor_id" (integer (pos r.vendor_id)) end);
  result_summary = none;
  started_at = none;
  completed_at = none;
}

abbrev pub new_attempt : ℕ → WorkflowStartAttempt
new_attempt run_id = record {
  workflow_run_id = run_id;
  status = WorkflowStartStatus.pending;
  attempt_token = none;
  attempts = 0;
  error_category = none;
  last_attempted_at = none;
  lease_expires_at = none;
  started_at = none;
}

-- The grants of the agent, restricted to the allowed tools if these are given.
abbrev pub is_allowed : StartRequest → AgentToolGrant → Bool
is_allowed r g =
    if g.agent_id == r.agent_id
    then elim r.allowed_tool_definition_ids [
      | none ↦ true
      | some ids ↦ has_member g.tool_definition_id ids
    ]
    else false

abbrev pub snapshot_of : ℕ → AgentToolGrant → RunToolGrantSnapshot
snapshot_of run_id g = record {
  workflow_run_id = run_id;
  tool_definition_id = g.tool_definition_id;
  policy_version = g.policy_version;
  policy_hash = g.policy_hash;
}

-- The rows that `create_or_get` adds where its insert meets no conflict.
abbrev pub insert_run : ℕ → StartRequest → String → StartTables → StartTables
insert_run fresh r fingerprint s = record s {
  runs = new_run fresh r fingerprint ∷ s.runs;
  attempts = new_attempt fresh ∷ s.attempts;
  snapshots = map (snapshot_of fresh) (select_where (is_allowed r) s.grants) ++ s.snapshots;
  audits =
      record {
        workflow_run_id = fresh;
        actor_id = r.requested_by_id;
        action = "api.workflow.start.request";
      }
      ∷ s.audits;
}

-- `create_or_get`; the function gives the fingerprint of vendor and agent, `fresh` is the `uuid4`.
unfoldable pub create_or_get :
    (ℕ → ℕ → String) → ℕ → StartRequest → Tx StartTables StartError WorkflowRun
create_or_get fingerprint fresh r s =
    elim (find (requested r.requested_by_id r.idempotency_key) s.runs) [
      | none ↦ (
        ok (new_run fresh r (fingerprint r.vendor_id r.agent_id)),
        insert_run fresh r (fingerprint r.vendor_id r.agent_id) s,
      )
      | some run ↦ elim (str_eq run.request_fingerprint (fingerprint r.vendor_id r.agent_id)) [
        | true ↦ (ok run, s)
        | false ↦ (err fingerprint_conflict, s)
      ]
    ]

-- A start that was accepted is answered again with the same run and no change, whatever identifier
-- the repetition draws.
pub create_or_get_repeated :
    (fingerprint : ℕ → ℕ → String) (fresh again : ℕ) (r : StartRequest) (s : StartTables)
    (run : WorkflowRun)
    → (create_or_get fingerprint fresh r s).0 ≡ ok run
    → create_or_get fingerprint again r (create_or_get fingerprint fresh r s).1
      ≡ (ok run, (create_or_get fingerprint fresh r s).1)
unfolding create_or_get
create_or_get_repeated fingerprint fresh again r s run h =
    ground (arith, eq_refl r.idempotency_key, eq_refl (fingerprint r.vendor_id r.agent_id))

-- The run that a start returns carries the fingerprint of its vendor and agent, its principal and its
-- key: a key is never answered with the run of another request, unless their fingerprints are equal.
pub create_or_get_sound :
    (fingerprint : ℕ → ℕ → String) (fresh : ℕ) (r : StartRequest) (s : StartTables)
    (run : WorkflowRun)
    → (create_or_get fingerprint fresh r s).0 ≡ ok run
    → (run.request_fingerprint ≡ fingerprint r.vendor_id r.agent_id)
      × (find
            (requested r.requested_by_id r.idempotency_key)
            (create_or_get fingerprint fresh r s).1.runs
          ≡ some run)
unfolding create_or_get
create_or_get_sound fingerprint fresh r s run h = ground (
  arith,
  eq_refl r.idempotency_key,
  eq_iff run.request_fingerprint (fingerprint r.vendor_id r.agent_id),
)

requested_clash :
    (r : StartRequest) (s : StartTables) (principal : ℕ) (key : String) (run : WorkflowRun)
    → r.requested_by_id == principal && str_eq r.idempotency_key key ≡ true
    → find (requested r.requested_by_id r.idempotency_key) s.runs ≡ none
    → find (requested principal key) s.runs ≡ some run
    → ⊥
requested_clash r s principal key run same missing found =
    let a : r.requested_by_id ≡ principal = ground (arith, same) in
    let b : r.idempotency_key ≡ key = ground (arith, same, eq_iff r.idempotency_key key) in
    let gone : find (requested principal key) s.runs ≡ none = rw (a, b) at missing in
    ground (arith, gone, found)

-- A run that a principal has under a key is what every later start leaves there, under that key or
-- another, accepted or refused.
pub create_or_get_kept :
    (fingerprint : ℕ → ℕ → String) (fresh : ℕ) (r : StartRequest) (s : StartTables) (principal : ℕ)
    (key : String) (run : WorkflowRun)
    → find (requested principal key) s.runs ≡ some run
    → find (requested principal key) (create_or_get fingerprint fresh r s).1.runs ≡ some run
unfolding create_or_get
create_or_get_kept fingerprint fresh r s principal key run h =
    elim (Option-cases (find (requested r.requested_by_id r.idempotency_key) s.runs)) [
      | inr (own, e) ↦ ground arith
      | inl e ↦ elim (Bool-cases (r.requested_by_id == principal && str_eq r.idempotency_key key)) [
        | inl same ↦ absurd (requested_clash r s principal key run same e h)
        | inr other ↦ ground (arith, other)
      ]
    ]
