-- ===== src/Gateway/Invoke.antt =====
-- `ToolGateway.invoke` and `record_injected_failure` (tool_gateway.py). Metrics and traces are left
-- out. `fresh` is the `uuid4` of the invocation's row.
use agents_should_survive_fa.Base.{
  ℕ, String, Bool, false, not, ◌&&◌, ◌||◌, Option, none, some, List, ◌∷◌, str_eq, ◌==◌,
  if◌then◌else◌, is_some, find, update_first, Tx, Result, ok, err,
}
use agents_should_survive_fa.Json.{Json, object, end}
use agents_should_survive_fa.Gateway.State.{
  InvocationStatus, running, succeeded, failed, denied, ToolDefinition, ToolInvocation,
  ApprovalRequest, ApprovalDecision, GatewayTables, GatewayState, GatewayError, denied_error,
  input_error, conflict_error, unavailable_error, approval_required_error, handler_error,
  HandlerError, timed_out, invalid_result, execution_failed, RegisteredTool, ToolGateway,
  InvokeRequest, ToolResult, keyed, granted, bound, is_approved,
}

-- `_has_approved_decision`: an approved decision of an approved request of the run.
abbrev decides_for : ℕ → List ApprovalRequest → ApprovalDecision → Bool
decides_for run_id requests d =
    is_approved d.decision
    && is_some (
        find
          (λ q.
            q.id == d.approval_request_id && q.workflow_run_id == run_id && is_approved q.status)
          requests)

unfoldable pub has_approved_decision : ℕ → GatewayTables → Bool
has_approved_decision run_id t = is_some (find (decides_for run_id t.requests) t.decisions)

-- `correlation_id or ...`: an empty text is no text.
abbrev pub correlation : Option String → Option String
correlation none = none
correlation (some text) = if str_eq text "" then none else some text

-- The row of an attempt that ends before a handler runs.
abbrev pub attempt_row :
    ToolGateway → ℕ → InvokeRequest → Option ℕ → InvocationStatus → String → ToolInvocation
attempt_row g fresh r tool_id status category = record {
  id = fresh;
  workflow_run_id = r.workflow_run_id;
  tool_definition_id = tool_id;
  requested_tool_name = r.tool_name;
  requested_tool_version = r.tool_version;
  idempotency_key = r.idempotency_key;
  status = status;
  arguments = r.arguments;
  argument_fingerprint = g.canonical_fingerprint r.arguments;
  correlation_id = correlation r.correlation_id;
  result_summary = none;
  error_category = some category;
}

-- `_add_terminal_attempt` and `_add_unregistered_attempt`: a key that is taken is left alone.
unfoldable pub add_attempt : ToolInvocation → GatewayTables → GatewayTables
add_attempt row t = elim (find (keyed row.workflow_run_id row.idempotency_key) t.invocations) [
  | none ↦ record t { invocations = row ∷ t.invocations }
  | some _ ↦ t
]

-- `_record_terminal_attempt` and `_record_unregistered_attempt`.
unfoldable pub record_attempt : Bool → ToolInvocation → GatewayState → GatewayState
record_attempt audited row s = record {
  session = add_attempt row s.session;
  committed = if audited then add_attempt row s.committed else s.committed;
}

-- `error_category == "approval_required"`
abbrev pub asks_approval : Option String → Bool
asks_approval none = false
asks_approval (some category) = str_eq category "approval_required"

-- What `invoke` does with an invocation that has the key already.
unfoldable pub replay :
    ToolGateway → InvokeRequest → ToolInvocation → Result GatewayError ToolResult
replay g r existing =
    if not (g.same_arguments existing.arguments r.arguments)
      || not (
          str_eq existing.argument_fingerprint "legacy"
          || str_eq existing.argument_fingerprint (g.canonical_fingerprint r.arguments))
    then err conflict_error
    else elim existing.status [
      | succeeded ↦ ok (record {
        result = elim existing.result_summary [ none ↦ object end | some value ↦ value ];
        invocation_id = existing.id;
      })
      | denied ↦ err denied_error
      | _ ↦
          if asks_approval existing.error_category
          then err approval_required_error
          else err unavailable_error
    ]

-- A refusal: the status and the category that are recorded, and the exception.
pub record Refusal : Type 0 where
  pub status : InvocationStatus
  pub category : String
  pub error : GatewayError

abbrev pub refusal : InvocationStatus → String → GatewayError → Option Refusal
refusal status category error =
    some (record { status = status; category = category; error = error })

-- The checks of `invoke` that come before the version is pinned, in their order.
unfoldable pub refuses :
    ToolGateway → InvokeRequest → ToolDefinition → GatewayTables → Option Refusal
refuses g r tool t =
    if not (is_some (find (λ a. a == r.agent_id) t.agents))
      || not tool.enabled
      || not (is_some (find (granted r.workflow_run_id tool.id) t.grants))
    then refusal denied "policy_denied" denied_error
    else if tool.approval_required && not (has_approved_decision r.workflow_run_id t)
    then refusal denied "approval_required" approval_required_error
    else elim (g.registry tool.name) [
      | none ↦ refusal failed "handler_unavailable" unavailable_error
      | some registered ↦
          if not (registered.accepts r.arguments)
          then refusal failed "invalid_arguments" input_error
          else none
    ]

-- The insert of `_pin_tool_version`, which does nothing on a conflict.
unfoldable pub bind_version : ℕ → ToolDefinition → GatewayTables → GatewayTables
bind_version run_id tool t = elim (find (bound run_id tool.name) t.bindings) [
  | none ↦ record t {
    bindings =
        record { workflow_run_id = run_id; tool_name = tool.name; tool_definition_id = tool.id }
        ∷ t.bindings;
  }
  | some _ ↦ t
]

-- The binding that `_pin_tool_version` then reads is this definition's.
unfoldable pub is_pinned : ℕ → ToolDefinition → GatewayTables → Bool
is_pinned run_id tool t = elim (find (bound run_id tool.name) t.bindings) [
  | none ↦ false
  | some b ↦ b.tool_definition_id == tool.id
]

-- The row that `invoke` adds before it runs the handler.
abbrev pub invocation_row : ToolGateway → ℕ → InvokeRequest → ToolDefinition → ToolInvocation
invocation_row g fresh r tool = record {
  id = fresh;
  workflow_run_id = r.workflow_run_id;
  tool_definition_id = some tool.id;
  requested_tool_name = tool.name;
  requested_tool_version = tool.version;
  idempotency_key = r.idempotency_key;
  status = running;
  arguments = r.arguments;
  argument_fingerprint = g.canonical_fingerprint r.arguments;
  correlation_id = correlation r.correlation_id;
  result_summary = none;
  error_category = none;
}

abbrev pub fail : String → ToolInvocation → ToolInvocation
fail category i = record i { status = failed; error_category = some category }

abbrev pub succeed : Json → ToolInvocation → ToolInvocation
succeed result i = record i { status = succeeded; result_summary = some result }

-- An assignment to the fields of the row with the identifier.
abbrev pub change : ℕ → (ToolInvocation → ToolInvocation) → GatewayTables → GatewayTables
change id f t = record t { invocations = update_first (λ i. i.id == id) f t.invocations }

-- The validation of the handler's result against the output model, and its end.
abbrev pub settle : Option Json → ℕ → GatewayTables → Result GatewayError ToolResult × GatewayTables
settle none fresh t = (err unavailable_error, change fresh (fail "invalid_result") t)
settle (some result) fresh t =
    (ok (record { result = result; invocation_id = fresh }), change fresh (succeed result) t)

-- What `invoke` makes of the handler's end.
unfoldable pub conclude :
    RegisteredTool
    → ℕ
    → Result HandlerError Json × GatewayTables
    → Result GatewayError ToolResult × GatewayTables
conclude registered fresh (err timed_out, t) =
    (err unavailable_error, change fresh (fail "timeout") t)
conclude registered fresh (err invalid_result, t) =
    (err unavailable_error, change fresh (fail "invalid_result") t)
conclude registered fresh (err execution_failed, t) =
    (err handler_error, change fresh (fail "execution_failed") t)
conclude registered fresh (ok raw, t) = settle (registered.result_of raw) fresh t

-- The part of `invoke` after the version is pinned.
unfoldable pub execute :
    ToolGateway
    → RegisteredTool
    → ℕ
    → InvokeRequest
    → ToolDefinition
    → Tx GatewayTables GatewayError ToolResult
unfolding conclude
execute g registered fresh r tool t =
    let row = invocation_row g fresh r tool in
    conclude registered fresh
      (registered.handler row r.arguments (record t { invocations = row ∷ t.invocations }))
