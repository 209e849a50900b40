-- ===== src/Managed/State.antt =====
-- The rows of managed agents (persistence/models.py), their manifests (agents_should_survive_failure_sdk,
-- contracts.py) and the limits of a budget (workflows/managed_activities.py).
use agents_should_survive_fa.Base.{ℕ, String, List, [], ◌∷◌}
use agents_should_survive_fa.Base.Int.{ℤ, pos}
use agents_should_survive_fa.Base.Dict.{Dict}
use agents_should_survive_fa.Gateway.State.{RunToolGrantSnapshot}
use agents_should_survive_fa.Starts.State.{WorkflowStartAttempt, AgentToolGrant, StartAudit}
use agents_should_survive_fa.Runtime.State.{RuntimeTables, RuntimeError}

pub data Capability : Type 0 where
  tools models checkpoints artifacts approvals delegation : Capability

pub record BudgetRequirements : Type 0 where
  pub max_steps : ℕ
  pub max_model_calls : ℕ
  pub max_tool_calls : ℕ
  pub max_input_tokens : ℕ
  pub max_output_tokens : ℕ
  pub max_estimated_cost_microunits : ℕ
  pub max_child_agents : ℕ
  pub max_delegation_depth : ℕ
  pub max_artifact_bytes : ℕ
  pub max_checkpoint_bytes : ℕ

pub record DelegationPolicy : Type 0 where
  pub allowed_agent_slugs : List String
  pub max_fan_out : ℕ
  pub max_depth : ℕ

-- The parts of a manifest that delegation reads.
pub record AgentMetadata : Type 0 where
  pub required_capabilities : List Capability
  pub budget_defaults : BudgetRequirements
  pub delegation_policy : DelegationPolicy

pub data AgentStatus : Type 0 where
  active disabled : AgentStatus

-- `manifest` is what `AgentMetadata.model_validate` makes of the stored JSON.
pub record Agent : Type 0 where
  pub id : ℕ
  pub name : String
  pub workflow_type : String
  pub status : AgentStatus
  pub manifest : AgentMetadata

pub record RunDelegation : Type 0 where
  pub parent_workflow_run_id : ℕ
  pub child_workflow_run_id : ℕ
  pub root_workflow_run_id : ℕ
  pub delegation_depth : ℕ
  pub idempotency_key : String
  pub budget_limits : Dict ℤ
  pub allowed_tool_definition_ids : List ℕ

pub record ManagedTables : Type 0 where
  pub runtime : RuntimeTables
  pub agents : List Agent
  pub attempts : List WorkflowStartAttempt
  pub grants : List AgentToolGrant
  pub snapshots : List RunToolGrantSnapshot
  pub delegations : List RunDelegation
  pub audits : List StartAudit

-- `CapabilityDenied`, `CancellationRequested` and `ValueError` by their texts,
-- `RequestFingerprintConflict`, and the errors of the parent's budget.
pub data ManagedError : Type 0 where
  capability_denied : String → ManagedError
  cancellation_requested : ManagedError
  value_error : String → ManagedError
  fingerprint_conflict : ManagedError
  budget_error : RuntimeError → ManagedError

-- `_budget_limits`
unfoldable pub budget_limits : BudgetRequirements → Dict ℤ
budget_limits b =
    ("artifact_bytes", pos b.max_artifact_bytes)
    ∷ ("checkpoint_bytes", pos b.max_checkpoint_bytes)
    ∷ ("child_agents", pos b.max_child_agents)
    ∷ ("estimated_cost_microunits", pos b.max_estimated_cost_microunits)
    ∷ ("input_tokens", pos b.max_input_tokens)
    ∷ ("model_calls", pos b.max_model_calls)
    ∷ ("output_tokens", pos b.max_output_tokens)
    ∷ ("steps", pos b.max_steps)
    ∷ ("tool_calls", pos b.max_tool_calls)
    ∷ []
