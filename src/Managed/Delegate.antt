-- ===== src/Managed/Delegate.antt =====
-- `ManagedActivityContext.delegate` up to the start of the child (workflows/managed_activities.py).
pub mod Lineage
pub mod Attenuation
pub mod Child
pub mod Retry
use agents_should_survive_fa.Base.{
  ℕ, String, ◌≡◌, ◌+◌, zero, suc, Bool, true, false, not, ◌&&◌, ◌||◌, Option, none, some, List, [],
  ◌∷◌, str_eq, ◌==◌, leb, ltb, length, if◌then◌else◌, is_some, Tx, Result, ok, err, find,
  select_where, map,
}
use agents_should_survive_fa.Base.Int.{ℤ, pos, ltb_ℤ, ◌-ℤ◌}
use agents_should_survive_fa.Base.Dict.{Dict, get_or}
use agents_should_survive_fa.Json.{Fields}
use agents_should_survive_fa.Models.{WorkflowRun, RunStatus}
use agents_should_survive_fa.Gateway.State.{RunToolGrantSnapshot}
use agents_should_survive_fa.Starts.State.{AgentToolGrant}
use agents_should_survive_fa.Starts.Create.{has_member}
use agents_should_survive_fa.Runtime.State.{RunBudget}
use agents_should_survive_fa.Runtime.Budget.{of_run}
use agents_should_survive_fa.Managed.State.{
  Capability, delegation, BudgetRequirements, AgentMetadata, AgentStatus, active, disabled, Agent,
  RunDelegation, ManagedTables, ManagedError, capability_denied, cancellation_requested,
  value_error, budget_limits,
}
use agents_should_survive_fa.Managed.Create.{ManagedRequest, create_or_get_managed_agent}

-- The call: the slug and the task of the child, and the budget asked for.
pub record Delegate : Type 0 where
  pub agent_slug : String
  pub task : Fields
  pub budget : BudgetRequirements

abbrev is_delegation : Capability → Bool
is_delegation delegation = true
is_delegation _ = false

abbrev pub may_delegate : List Capability → Bool
may_delegate [] = false
may_delegate (c ∷ cs) = is_delegation c || may_delegate cs

abbrev pub has_slug : String → List String → Bool
has_slug slug [] = false
has_slug slug (s ∷ slugs) = str_eq s slug || has_slug slug slugs

abbrev pub run_with : ℕ → WorkflowRun → Bool
run_with id r = r.id == id

abbrev pub is_cancelled : RunStatus → Bool
is_cancelled RunStatus.cancelled = true
is_cancelled _ = false

abbrev is_active : AgentStatus → Bool
is_active active = true
is_active disabled = false

-- The newest installed and enabled agent of the slug; rows are newest first.
abbrev pub installed : String → Agent → Bool
installed slug a =
    str_eq a.name slug && str_eq a.workflow_type "managed_agent" && is_active a.status

-- The agents of a run and its ancestors, an ancestor that is missing, or the end of the fuel.
pub data Walk : Type 0 where
  lineage : List ℕ → Walk
  incomplete out_of_fuel : Walk

abbrev pub extend : ℕ → Walk → Walk
extend agent_id (lineage ids) = lineage (agent_id ∷ ids)
extend agent_id walk = walk

-- The loop `while ancestor.parent_workflow_run_id is not None`.
unfoldable pub ancestors : ℕ → List WorkflowRun → WorkflowRun → Walk
ancestors zero runs r = out_of_fuel
ancestors (suc fuel) runs r = elim r.parent_workflow_run_id [
  | none ↦ lineage (r.agent_id ∷ [])
  | some parent ↦ elim (find (run_with parent) runs) [
    | none ↦ incomplete
    | some ancestor ↦ extend r.agent_id (ancestors fuel runs ancestor)
  ]
]

-- The loop over the requested limits: true where each is within what the parent has left and within
-- the child's maximum.
unfoldable pub is_within : Dict ℤ → RunBudget → Dict ℤ → Bool
is_within [] parent maximum = true
is_within ((name, value) ∷ limits) parent maximum =
    not (ltb_ℤ (get_or name (pos 0) parent.limits -ℤ get_or name (pos 0) parent.consumed) value)
    && not (ltb_ℤ (get_or name (pos 0) maximum) value)
    && is_within limits parent maximum

-- The tools of a run's snapshot, and those that are granted to an agent.
abbrev pub snapshot_tools : ℕ → List RunToolGrantSnapshot → List ℕ
snapshot_tools run_id ss =
    map (λ s. s.tool_definition_id) (select_where (λ s. s.workflow_run_id == run_id) ss)

abbrev pub granted_tools : ℕ → List AgentToolGrant → List ℕ
granted_tools agent_id gs =
    map (λ g. g.tool_definition_id) (select_where (λ g. g.agent_id == agent_id) gs)

-- `issubset`
abbrev pub all_members : List ℕ → List ℕ → Bool
all_members [] own = true
all_members (n ∷ ns) own = has_member n own && all_members ns own

abbrev pub children : ℕ → List RunDelegation → ℕ
children run_id ds = length (select_where (λ d. d.parent_workflow_run_id == run_id) ds)

-- The checks on the child's authority, in their order, once parent and child are found; none passes.
unfoldable pub check_authority :
    ℕ → AgentMetadata → Delegate → WorkflowRun → Agent → ManagedTables → Option ManagedError
unfolding is_within ancestors budget_limits
check_authority fuel own d parent child t =
    if ltb own.delegation_policy.max_depth (parent.delegation_depth + 1)
      || ltb d.budget.max_delegation_depth (parent.delegation_depth + 1)
    then some (capability_denied "delegation exceeds the pinned maximum depth")
    else if leb own.delegation_policy.max_fan_out (children parent.id t.delegations)
    then some (capability_denied "delegation exceeds the pinned maximum fan-out")
    else elim (ancestors fuel t.runtime.runs parent) [
      | out_of_fuel ↦ some (value_error "out of fuel")
      | incomplete ↦ some (value_error "delegation lineage is incomplete")
      | lineage ids ↦
          if has_member child.id ids
          then some (capability_denied "delegation would introduce an agent cycle")
          else elim (find (of_run parent.id) t.runtime.budgets) [
            | none ↦ some (value_error "parent budget is not initialized")
            | some budget ↦
                if not (
                  is_within (budget_limits d.budget) budget
                    (budget_limits child.manifest.budget_defaults))
                then some (capability_denied "delegated budget exceeds parent or child authority")
                else if not (
                    all_members (granted_tools child.id t.grants)
                      (snapshot_tools parent.id t.snapshots))
                then some (
                    capability_denied "child tool grants are not attenuated by the parent snapshot")
                else none
          ]
    ]

-- The parent and the child of a delegation that passes the checks of the first session.
unfoldable pub check_delegation :
    ℕ → ℕ → AgentMetadata → Delegate → ManagedTables → Result ManagedError (WorkflowRun × Agent)
unfolding check_authority
check_delegation fuel run_id own d t =
    if not (may_delegate own.required_capabilities)
    then err (capability_denied "delegation capability is not declared")
    else if not (has_slug d.agent_slug own.delegation_policy.allowed_agent_slugs)
    then err (capability_denied "child agent is not allowed by the pinned delegation policy")
    else elim (find (run_with run_id) t.runtime.runs) [
      | none ↦ err (value_error "managed agent parent run does not exist")
      | some parent ↦
          if is_cancelled parent.status
          then err cancellation_requested
          else elim (find (installed d.agent_slug) t.agents) [
            | none ↦ err (capability_denied "allowed child agent is not installed and enabled")
            | some child ↦ elim (check_authority fuel own d parent child t) [
              | some e ↦ err e
              | none ↦ ok (parent, child)
            ]
          ]
    ]

-- What `delegate` asks of `create_or_get_managed_agent`; the text is its idempotency key.
abbrev pub child_request :
    String → Delegate → WorkflowRun → Agent → List AgentToolGrant → ManagedRequest
child_request key d parent child grants = record {
  requested_by_id = parent.requested_by_id;
  agent_id = child.id;
  task = d.task;
  idempotency_key = key;
  parent_run_id = some parent.id;
  root_run_id = some parent.root_workflow_run_id;
  delegation_depth = parent.delegation_depth + 1;
  delegated_budget_limits = some (budget_limits d.budget);
  allowed_tool_definition_ids = some (granted_tools child.id grants);
}

-- `delegate` up to the creation of the child's run; nothing changes the tables between its sessions. `key` gives the text of the run and of the digest of
-- the slug, the task and the budget.
unfoldable pub delegate :
    (ℕ → Delegate → String)
    → (ℕ → Fields → String)
    → ℕ
    → ℕ
    → ℕ
    → ℕ
    → AgentMetadata
    → Delegate
    → Tx ManagedTables ManagedError WorkflowRun
unfolding check_delegation
delegate key fingerprint fuel now fresh run_id own d t =
    elim (check_delegation fuel run_id own d t) [
      | err e ↦ (err e, t)
      | ok (parent, child) ↦
          create_or_get_managed_agent fingerprint now fresh
            (child_request (key run_id d) d parent child t.grants) t
    ]
