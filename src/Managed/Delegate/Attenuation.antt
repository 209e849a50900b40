-- ===== src/Managed/Delegate/Attenuation.antt =====
-- A delegation never widens the parent's authority (workflows/managed_activities.py).
use agents_should_survive_fa.Base.{
  ℕ, ◌≡◌, ◌<◌, ◌≤◌, ◌+◌, refl, sym, ◌∙◌, subst, inl, inr, ◌⊎◌, true, false, none, some, List, [],
  ◌∷◌, ok, find, arith, Option-cases, ok-injective, All,
}
use agents_should_survive_fa.Base.Int.{ℤ, pos, ◌-ℤ◌, ◌≤ℤ◌}
use agents_should_survive_fa.Base.Dict.{Dict, get_or}
use agents_should_survive_fa.Models.{WorkflowRun}
use agents_should_survive_fa.Gateway.State.{RunToolGrantSnapshot}
use agents_should_survive_fa.Starts.Create.{has_member}
use agents_should_survive_fa.Runtime.State.{RunBudget}
use agents_should_survive_fa.Runtime.Budget.{of_run}
use agents_should_survive_fa.Managed.State.{
  AgentMetadata, Agent, ManagedTables, ManagedError, budget_limits,
}
use agents_should_survive_fa.Managed.Delegate.{
  Delegate, has_slug, run_with, installed, Walk, lineage, incomplete, out_of_fuel, ancestors,
  is_within, snapshot_tools, granted_tools, all_members, children, check_authority,
  check_delegation,
}

-- Each limit is within what the parent's budget has left and within the maximum.
abbrev pub Within : RunBudget → Dict ℤ → Dict ℤ → Type 0
Within parent maximum limits =
    All
      (λ (name, value).
        (value ≤ℤ get_or name (pos 0) parent.limits -ℤ get_or name (pos 0) parent.consumed)
        × (value ≤ℤ get_or name (pos 0) maximum))
      limits

abbrev pub Tools : ℕ → List RunToolGrantSnapshot → List ℕ → Type 0
Tools run_id ss ns = All (λ n. has_member n (snapshot_tools run_id ss) ≡ true) ns

-- What a run may delegate to an agent.
pub data Permits (fuel : ℕ) (run_id : ℕ) (own : AgentMetadata) (d : Delegate) (t : ManagedTables)
    (parent : WorkflowRun) (child : Agent) : Type 0 where
  permits :
      {ids : List ℕ} {budget : RunBudget}
      → find (run_with run_id) t.runtime.runs ≡ some parent
      → has_slug d.agent_slug own.delegation_policy.allowed_agent_slugs ≡ true
      → find (installed d.agent_slug) t.agents ≡ some child
      → parent.delegation_depth + 1 ≤ own.delegation_policy.max_depth
      → parent.delegation_depth + 1 ≤ d.budget.max_delegation_depth
      → children parent.id t.delegations < own.delegation_policy.max_fan_out
      → ancestors fuel t.runtime.runs parent ≡ lineage ids
      → has_member child.id ids ≡ false
      → find (of_run parent.id) t.runtime.budgets ≡ some budget
      → Within budget (budget_limits child.manifest.budget_defaults) (budget_limits d.budget)
      → Tools parent.id t.snapshots (granted_tools child.id t.grants)
      → Permits fuel run_id own d t parent child

is_within-Within :
    (limits : Dict ℤ) (parent : RunBudget) (maximum : Dict ℤ)
    → is_within limits parent maximum ≡ true
    → Within parent maximum limits
unfolding is_within
is_within-Within [] parent maximum h = tt
is_within-Within ((name, value) ∷ limits) parent maximum h =
    ((ground arith, ground arith), is_within-Within limits parent maximum (ground arith))

all_members-Tools :
    (ns : List ℕ) (run_id : ℕ) (ss : List RunToolGrantSnapshot)
    → all_members ns (snapshot_tools run_id ss) ≡ true
    → Tools run_id ss ns
all_members-Tools [] run_id ss h = tt
all_members-Tools (n ∷ ns) run_id ss h =
    (ground arith, all_members-Tools ns run_id ss (ground arith))

Walk-cases :
    (w : Walk) → ((ids : List ℕ) × (w ≡ lineage ids)) ⊎ ((w ≡ incomplete) ⊎ (w ≡ out_of_fuel))
Walk-cases (lineage ids) = inl (ids, refl)
Walk-cases incomplete = inr (inl refl)
Walk-cases out_of_fuel = inr (inr refl)

module _ (fuel : ℕ) (run_id : ℕ) (own : AgentMetadata) (d : Delegate) (t : ManagedTables)
    (parent : WorkflowRun) (child : Agent) where
  authority-Permits :
      find (run_with run_id) t.runtime.runs ≡ some parent
      → has_slug d.agent_slug own.delegation_policy.allowed_agent_slugs ≡ true
      → find (installed d.agent_slug) t.agents ≡ some child
      → check_authority fuel own d parent child t ≡ none
      → Permits fuel run_id own d t parent child
  unfolding check_authority
  authority-Permits found slug agent h = elim (Walk-cases (ancestors fuel t.runtime.runs parent)) [
    | inr (inl e) ↦ absurd (ground arith)
    | inr (inr e) ↦ absurd (ground arith)
    | inl (ids, e) ↦ elim (Option-cases (find (of_run parent.id) t.runtime.budgets)) [
      | inl f ↦ absurd (ground arith)
      | inr (budget, f) ↦
          let within : is_within (budget_limits d.budget) budget
                (budget_limits child.manifest.budget_defaults)
              ≡ true =
            ground arith in
          let subset : all_members (granted_tools child.id t.grants)
                (snapshot_tools parent.id t.snapshots)
              ≡ true =
            ground arith in
          permits found slug agent (ground arith) (ground arith) (ground arith) e (ground arith) f
            (is_within-Within (budget_limits d.budget) budget
              (budget_limits child.manifest.budget_defaults) within)
            (all_members-Tools (granted_tools child.id t.grants) parent.id t.snapshots subset)
    ]
  ]

module _ (fuel : ℕ) (run_id : ℕ) (own : AgentMetadata) (d : Delegate) (t : ManagedTables)
    (parent : WorkflowRun) (child : Agent) where
  -- A delegation that passes the checks of its first session has an installed child that the policy
  -- names and that is no agent of the parent's lineage, stays within the depths of the policy and of the
  -- budget and below the fan-out, asks of every limit no more than the parent has left and the child may
  -- have, and gives the child's agent no tool that the parent's run lacks.
  pub check_delegation-Permits :
      check_delegation fuel run_id own d t ≡ ok (parent, child)
      → Permits fuel run_id own d t parent child
  unfolding check_delegation
  check_delegation-Permits h = elim (Option-cases (find (run_with run_id) t.runtime.runs)) [
    | inl e ↦ absurd (ground arith)
    | inr (row, e) ↦ elim (Option-cases (find (installed d.agent_slug) t.agents)) [
      | inl f ↦ absurd (ground arith)
      | inr (agent, f) ↦ elim (Option-cases (check_authority fuel own d row agent t)) [
        | inr (refused, g) ↦ absurd (ground arith)
        | inl g ↦
            let slug : has_slug d.agent_slug own.delegation_policy.allowed_agent_slugs ≡ true =
              ground arith in
            let answer : check_delegation fuel run_id own d t ≡ ok (row, agent) = ground arith in
            let same : (row, agent) ≡ (parent, child) =
              ok-injective ManagedError (WorkflowRun × Agent) (row, agent) (parent, child)
                (sym answer ∙ h) in
            subst (λ x. Permits fuel run_id own d t x.0 x.1) same
              (authority-Permits fuel run_id own d t row agent e slug f g)
      ]
    ]
  ]
