-- ===== src/Examples/Delegating.antt =====
-- Examples for managed agents: a run that delegates to an agent it may delegate to once.
use agents_should_survive_fa.Base.{ℕ, String, ◌≡◌, ◌≢◌, refl, none, List, [], ◌∷◌, ok, err, arith}
use agents_should_survive_fa.Base.Int.{pos, ◌+ℤ◌, ◌-ℤ◌}
use agents_should_survive_fa.Json.{Fields, end}
use agents_should_survive_fa.Models.{WorkflowRun}
use agents_should_survive_fa.Runtime.State.{RunBudget}
use agents_should_survive_fa.Runtime.Budget.{consume_budget, add_usage}
use agents_should_survive_fa.Examples.Saving.{run, tables}
use agents_should_survive_fa.Managed.State.{
  BudgetRequirements, AgentMetadata, active, Agent, ManagedTables, capability_denied, budget_limits,
  delegation,
}
use agents_should_survive_fa.Managed.Create.{
  ManagedRequest, check_request, managed_run, create_or_get_managed_agent,
}
use agents_should_survive_fa.Managed.Create.Repeated.{create_or_get_managed_agent_repeated}
use agents_should_survive_fa.Managed.Delegate.{
  Delegate, check_delegation, check_authority, ancestors, is_within, delegate, child_request,
  out_of_fuel, snapshot_tools,
}
use agents_should_survive_fa.Managed.Delegate.Lineage.{ancestors_end}
use agents_should_survive_fa.Managed.Delegate.Attenuation.{Permits, check_delegation-Permits, Tools}
use agents_should_survive_fa.Managed.Delegate.Child.{delegate_attenuates}
use agents_should_survive_fa.Managed.Delegate.Retry.{delegate_retried_refused}

abbrev requirements : BudgetRequirements
requirements = record {
  max_steps = 5;
  max_model_calls = 0;
  max_tool_calls = 2;
  max_input_tokens = 0;
  max_output_tokens = 0;
  max_estimated_cost_microunits = 0;
  max_child_agents = 0;
  max_delegation_depth = 1;
  max_artifact_bytes = 0;
  max_checkpoint_bytes = 0;
}

abbrev own : AgentMetadata
own = record {
  required_capabilities = delegation ∷ [];
  budget_defaults = requirements;
  delegation_policy = record {
    allowed_agent_slugs = "helper" ∷ [];
    max_fan_out = 1;
    max_depth = 1;
  };
}

abbrev helper : Agent
helper = record {
  id = 6;
  name = "helper";
  workflow_type = "managed_agent";
  status = active;
  manifest = own;
}

abbrev parent_budget : RunBudget
parent_budget = record {
  workflow_run_id = 1;
  limits = ("child_agents", pos 1) ∷ ("steps", pos 9) ∷ ("tool_calls", pos 4) ∷ [];
  consumed = [];
  exhausted_at = none;
}

abbrev managed : ManagedTables
managed = record {
  runtime = record tables { budgets = parent_budget ∷ [] };
  agents = helper ∷ [];
  attempts = [];
  grants =
      record { agent_id = 6; tool_definition_id = 20; policy_version = "1"; policy_hash = "h" }
      ∷ [];
  snapshots =
      record {
        workflow_run_id = 1;
        tool_definition_id = 20;
        policy_version = "1";
        policy_hash = "h";
      }
      ∷ [];
  delegations = [];
  audits = [];
}

abbrev task : Delegate
task = record { agent_slug = "helper"; task = end; budget = requirements }

abbrev key : ℕ → Delegate → String
key run_id d = "1:delegate:d"

abbrev fingerprint : ℕ → Fields → String
fingerprint agent_id fields = "f"

checked : check_delegation 2 1 own task managed ≡ ok (run, helper)
unfolding check_delegation check_authority ancestors is_within budget_limits ◌-ℤ◌
checked = refl

check_delegation-Permits_example : Permits 2 1 own task managed run helper
check_delegation-Permits_example = check_delegation-Permits 2 1 own task managed run helper checked

abbrev child : WorkflowRun
child = record (managed_run 7 (child_request "1:delegate:d" task run helper managed.grants) "f") {
  delegation_depth = 1;
}

delegated : (delegate key fingerprint 2 10 7 1 own task managed).0 ≡ ok child
unfolding delegate check_delegation check_authority ancestors is_within budget_limits
    create_or_get_managed_agent check_request consume_budget add_usage ◌-ℤ◌ ◌+ℤ◌
delegated = refl

delegate_attenuates_example :
    Tools 1 managed.snapshots
      (snapshot_tools 7 (delegate key fingerprint 2 10 7 1 own task managed).1.snapshots)
delegate_attenuates_example =
    delegate_attenuates key fingerprint 2 10 7 1 own task managed run child refl refl refl delegated

delegate_retried_refused_example :
    (delegate key fingerprint 2 11 8 1 own task
      (delegate key fingerprint 2 10 7 1 own task managed).1).0
    ≡ err (capability_denied "delegation exceeds the pinned maximum fan-out")
delegate_retried_refused_example =
    delegate_retried_refused key fingerprint 2 10 7 1 own task managed 8 11 run child refl refl
      (λ e. ground (arith, e)) refl delegated

abbrev family : List WorkflowRun
family = child ∷ run ∷ []

family_stored : (delegate key fingerprint 2 10 7 1 own task managed).1.runtime.runs ≡ family
unfolding delegate check_delegation check_authority ancestors is_within budget_limits
    create_or_get_managed_agent check_request consume_budget add_usage ◌-ℤ◌ ◌+ℤ◌
family_stored = refl

ancestors_end_example : ancestors 2 family child ≢ out_of_fuel
ancestors_end_example = ancestors_end 2 family child (refl, (refl, tt)) refl (ground arith)

abbrev root_request : ManagedRequest
root_request = record {
  requested_by_id = 3;
  agent_id = 6;
  task = end;
  idempotency_key = "k";
  parent_run_id = none;
  root_run_id = none;
  delegation_depth = 0;
  delegated_budget_limits = none;
  allowed_tool_definition_ids = none;
}

root_created :
    (create_or_get_managed_agent fingerprint 10 7 root_request managed).0
    ≡ ok (managed_run 7 root_request "f")
unfolding create_or_get_managed_agent check_request
root_created = refl

create_or_get_managed_agent_repeated_example :
    create_or_get_managed_agent fingerprint 12 9 root_request
      (create_or_get_managed_agent fingerprint 10 7 root_request managed).1
    ≡ (
      ok (managed_run 7 root_request "f"),
      (create_or_get_managed_agent fingerprint 10 7 root_request managed).1,
    )
create_or_get_managed_agent_repeated_example =
    create_or_get_managed_agent_repeated fingerprint root_request 10 7 12 9 managed
      (managed_run 7 root_request "f") root_created
