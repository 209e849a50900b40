-- ===== src/Managed/Create.antt =====
-- `create_or_get_managed_agent` (workflow_starts.py).
pub mod Repeated
use agents_should_survive_fa.Base.{
  ℕ, String, ◌≡◌, Bool, true, false, not, ◌&&◌, ◌||◌, Option, none, some, List, [], ◌∷◌, ◌++◌,
  str_eq, ◌==◌, ltb, if◌then◌else◌, is_some, Tx, Result, ok, err, find, select_where, map,
  transaction, raise_if, ◌>>=◌, ◌>>◌,
}
use agents_should_survive_fa.Base.Int.{ℤ, pos, ltb_ℤ}
use agents_should_survive_fa.Base.Dict.{Dict}
use agents_should_survive_fa.Json.{Fields, object, field, end}
use agents_should_survive_fa.Models.{WorkflowRun, RunStatus}
use agents_should_survive_fa.Gateway.State.{RunToolGrantSnapshot}
use agents_should_survive_fa.Starts.State.{AgentToolGrant, requested}
use agents_should_survive_fa.Starts.Create.{has_member, new_attempt, snapshot_of}
use agents_should_survive_fa.Runtime.State.{RunBudget, RuntimeTables}
use agents_should_survive_fa.Runtime.Budget.{has_bad_entry, consume_budget, new_budget}
use agents_should_survive_fa.Managed.State.{
  RunDelegation, ManagedTables, ManagedError, value_error, fingerprint_conflict, budget_error,
}

-- The arguments; a depth below 0 has no such request.
pub record ManagedRequest : Type 0 where
  pub requested_by_id : ℕ
  pub agent_id : ℕ
  pub task : Fields
  pub idempotency_key : String
  pub parent_run_id : Option ℕ
  pub root_run_id : Option ℕ
  pub delegation_depth : ℕ
  pub delegated_budget_limits : Option (Dict ℤ)
  pub allowed_tool_definition_ids : Option (List ℕ)

-- The checks on the arguments, in their order; none accepts them.
unfoldable pub check_request : ManagedRequest → Option String
check_request r =
    if not (is_some r.parent_run_id) && (is_some r.root_run_id || not (r.delegation_depth == 0))
    then some "root and depth are only valid for a delegated child run"
    else if is_some r.parent_run_id && (not (is_some r.root_run_id) || ltb r.delegation_depth 1)
    then some "delegated child runs require a root and positive depth"
    else elim r.delegated_budget_limits [
      | none ↦ none
      | some limits ↦
          if has_bad_entry limits
          then some "delegated budget limits must be non-negative named integers"
          else none
    ]

abbrev or_fresh : Option ℕ → ℕ → ℕ
or_fresh none fresh = fresh
or_fresh (some id) fresh = id

abbrev pub managed_run : ℕ → ManagedRequest → String → WorkflowRun
managed_run fresh r fingerprint = record {
  id = fresh;
  agent_id = r.agent_id;
  parent_workflow_run_id = r.parent_run_id;
  root_workflow_run_id = or_fresh r.root_run_id fresh;
  delegation_depth = r.delegation_depth;
  vendor_id = none;
  requested_by_id = r.requested_by_id;
  workflow_type = "managed_agent";
  temporal_workflow_id = ("managed-agent", fresh);
  idempotency_key = r.idempotency_key;
  request_fingerprint = fingerprint;
  status = RunStatus.pending;
  input_summary = object (field "task" (object r.task) end);
  result_summary = none;
  started_at = none;
  completed_at = none;
}

-- The grants of the agent, restricted to the allowed tools if these are given.
abbrev pub grants_tool : ManagedRequest → AgentToolGrant → Bool
grants_tool r g =
    if g.agent_id == r.agent_id
    then elim r.allowed_tool_definition_ids [
      | none ↦ true
      | some ids ↦ has_member g.tool_definition_id ids
    ]
    else false

abbrev child_budgets : ℕ → Option (Dict ℤ) → List RunBudget → List RunBudget
child_budgets fresh none budgets = budgets
child_budgets fresh (some limits) budgets = new_budget fresh limits ∷ budgets

abbrev pub delegation_row : ℕ → ℕ → ManagedRequest → RunDelegation
delegation_row fresh parent r = record {
  parent_workflow_run_id = parent;
  child_workflow_run_id = fresh;
  root_workflow_run_id = or_fresh r.root_run_id fresh;
  delegation_depth = r.delegation_depth;
  idempotency_key = r.idempotency_key;
  budget_limits = elim r.delegated_budget_limits [ none ↦ [] | some limits ↦ limits ];
  allowed_tool_definition_ids = elim r.allowed_tool_definition_ids [ none ↦ [] | some ids ↦ ids ];
}

-- The rows of a new run, before the parent is charged.
abbrev pub insert_managed : ℕ → ManagedRequest → String → ManagedTables → ManagedTables
insert_managed fresh r fingerprint t = record t {
  runtime = record t.runtime {
    runs = managed_run fresh r fingerprint ∷ t.runtime.runs;
    budgets = child_budgets fresh r.delegated_budget_limits t.runtime.budgets;
  };
  attempts = new_attempt fresh ∷ t.attempts;
  snapshots = map (snapshot_of fresh) (select_where (grants_tool r) t.grants) ++ t.snapshots;
  audits =
      record {
        workflow_run_id = fresh;
        actor_id = r.requested_by_id;
        action = "api.managed_agent.start.request";
      }
      ∷ t.audits;
}

-- What a child costs its parent: `{"child_agents": 1, "steps": 1}`.
abbrev pub child_cost : Dict ℤ
child_cost = ("child_agents", pos 1) ∷ ("steps", pos 1) ∷ []

-- The charge of the parent and the row of the delegation, if the run has a parent.
abbrev pub charge_parent :
    ℕ → ℕ → ManagedRequest → WorkflowRun → Tx ManagedTables ManagedError WorkflowRun
charge_parent now fresh r run t = elim r.parent_run_id [
  | none ↦ (ok run, t)
  | some parent ↦
      let (charged, runtime) = consume_budget now parent child_cost t.runtime in
      elim charged [
        | err e ↦ (err (budget_error e), record t { runtime = runtime })
        | ok _ ↦ (
          ok run,
          record t {
            runtime = runtime;
            delegations = delegation_row fresh parent r ∷ t.delegations;
          },
        )
      ]
]

-- The session of `create_or_get_managed_agent`, past its checks on the arguments.
abbrev create_session : ℕ → ℕ → ManagedRequest → String → Tx ManagedTables ManagedError WorkflowRun
create_session now fresh r fingerprint t =
    elim (find (requested r.requested_by_id r.idempotency_key) t.runtime.runs) [
      | none ↦
          charge_parent now fresh r (managed_run fresh r fingerprint)
            (insert_managed fresh r fingerprint t)
      | some run ↦ elim (str_eq run.request_fingerprint fingerprint) [
        | true ↦ (ok run, t)
        | false ↦ (err fingerprint_conflict, t)
      ]
    ]

-- `create_or_get_managed_agent` at the time `now`; `fingerprint` gives the SHA-256 of the agent and the
-- task, `fresh` is the `uuid4`.
unfoldable pub create_or_get_managed_agent :
    (ℕ → Fields → String) → ℕ → ℕ → ManagedRequest → Tx ManagedTables ManagedError WorkflowRun
unfolding check_request
create_or_get_managed_agent fingerprint now fresh r t = elim (check_request r) [
  | some text ↦ (err (value_error text), t)
  | none ↦ transaction (create_session now fresh r (fingerprint r.agent_id r.task)) t
]
