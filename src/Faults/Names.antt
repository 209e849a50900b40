-- ===== src/Faults/Names.antt =====
-- `FaultPoint` and `FaultAction` with their values (fault_injection.py). `FaultAction(text)` is the
-- lookup of a member by its value.
use agents_should_survive_fa.Base.{
  String, ◌≡◌, refl, true, false, Option, none, some, str_eq, if◌then◌else◌,
}
use agents_should_survive_fa.Failures.{
  PlatformFailure, platform_failure, tool_unavailable, invalid_input, database_unavailable,
  provider_unavailable, mcp_unavailable, FailureCategory,
}

pub data FaultPoint : Type 0 where
  vendor_lookup policy_retrieval active_activity waiting_for_approval : FaultPoint
  email_post_commit_handoff projection_post_commit_handoff workflow_start_handoff : FaultPoint
  database_operation provider_call mcp_call : FaultPoint

unfoldable pub point_value : FaultPoint → String
point_value vendor_lookup = "tool.vendor_database_query.before_execute"
point_value policy_retrieval = "tool.internal_policy_search.before_execute"
point_value active_activity = "worker.active_activity"
point_value waiting_for_approval = "worker.waiting_for_approval"
point_value email_post_commit_handoff = "email.send.after_commit_before_ack"
point_value projection_post_commit_handoff = "projection.after_commit_before_ack"
point_value workflow_start_handoff = "workflow_start.after_temporal_accept"
point_value database_operation = "database.activity_transaction.before_commit"
point_value provider_call = "provider.risk_explanation.before_execute"
point_value mcp_call = "mcp.call.before_execute"

pub data FaultAction : Type 0 where
  delay retryable_exception permanent_exception temporary_database_outage : FaultAction
  provider_failure tool_mcp_failure ambiguous_handoff worker_termination : FaultAction

unfoldable pub action_value : FaultAction → String
action_value delay = "delay"
action_value retryable_exception = "retryable_exception"
action_value permanent_exception = "permanent_exception"
action_value temporary_database_outage = "temporary_database_outage"
action_value provider_failure = "provider_failure"
action_value tool_mcp_failure = "tool_mcp_failure"
action_value ambiguous_handoff = "ambiguous_handoff"
action_value worker_termination = "worker_termination"

-- `FaultAction(text)`; `none` is its `ValueError`.
unfoldable pub action_of_value : String → Option FaultAction
action_of_value text =
    if str_eq text "delay"
    then some delay
    else if str_eq text "retryable_exception"
    then some retryable_exception
    else if str_eq text "permanent_exception"
    then some permanent_exception
    else if str_eq text "temporary_database_outage"
    then some temporary_database_outage
    else if str_eq text "provider_failure"
    then some provider_failure
    else if str_eq text "tool_mcp_failure"
    then some tool_mcp_failure
    else if str_eq text "ambiguous_handoff"
    then some ambiguous_handoff
    else if str_eq text "worker_termination"
    then some worker_termination
    else none

pub action_of_value-action_value : (a : FaultAction) → action_of_value (action_value a) ≡ some a
unfolding action_of_value action_value
action_of_value-action_value delay = refl
action_of_value-action_value retryable_exception = refl
action_of_value-action_value permanent_exception = refl
action_of_value-action_value temporary_database_outage = refl
action_of_value-action_value provider_failure = refl
action_of_value-action_value tool_mcp_failure = refl
action_of_value-action_value ambiguous_handoff = refl
action_of_value-action_value worker_termination = refl

-- `failures[action]`; `none` is its `KeyError`.
unfoldable pub failure_for_action : FaultAction → Option PlatformFailure
unfolding platform_failure
failure_for_action retryable_exception = some (platform_failure tool_unavailable true none)
failure_for_action permanent_exception = some (platform_failure invalid_input false none)
failure_for_action temporary_database_outage =
    some (platform_failure database_unavailable true none)
failure_for_action provider_failure = some (platform_failure provider_unavailable true none)
failure_for_action tool_mcp_failure = some (platform_failure mcp_unavailable true none)
failure_for_action ambiguous_handoff =
    some (platform_failure FailureCategory.ambiguous_handoff true none)
failure_for_action delay = none
failure_for_action worker_termination = none
