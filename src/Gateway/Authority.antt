-- ===== src/Gateway/Authority.antt =====
-- A handler runs only with a grant and, where the tool needs one, an approval (tool_gateway.py).
use agents_should_survive_fa.Base.{
  ℕ, ◌≡◌, ◌⊎◌, true, false, none, some, arith, find, ok, Result, is_some,
}
use agents_should_survive_fa.Gateway.State.{
  ToolDefinition, GatewayTables, GatewayState, GatewayError, RegisteredTool, ToolGateway,
  InvokeRequest, ToolResult, keyed, versioned, granted,
}
use agents_should_survive_fa.Gateway.Invoke.{refuses, has_approved_decision}
use agents_should_survive_fa.Gateway.Outcome.{
  Invoked, unregistered, replayed, refused, mismatched, executed, invoke-Invoked,
}
use agents_should_survive_fa.Gateway.Call.{invoke}

-- What a call that ran a handler had: the tool, enabled, a grant to the run, an approval if the tool
-- needs one, and a handler that accepts the arguments.
pub record IsAuthorized (g : ToolGateway) (r : InvokeRequest) (tool : ToolDefinition)
    (t : GatewayTables) : Type 0 where
  pub known : find (versioned r.tool_name r.tool_version) t.tools ≡ some tool
  pub enabled : tool.enabled ≡ true
  pub grant : is_some (find (granted r.workflow_run_id tool.id) t.grants) ≡ true
  pub approval :
      (tool.approval_required ≡ false) ⊎ (has_approved_decision r.workflow_run_id t ≡ true)
  pub handled :
      (registered : RegisteredTool) × (g.registry tool.name ≡ some registered)
      × (registered.accepts r.arguments ≡ true)

allowed_grant :
    (g : ToolGateway) (r : InvokeRequest) (tool : ToolDefinition) (t : GatewayTables)
    → refuses g r tool t ≡ none
    → (tool.enabled ≡ true) × (is_some (find (granted r.workflow_run_id tool.id) t.grants) ≡ true)
unfolding refuses
allowed_grant g r tool t h = ground arith

allowed_approval :
    (g : ToolGateway) (r : InvokeRequest) (tool : ToolDefinition) (t : GatewayTables)
    → refuses g r tool t ≡ none
    → (tool.approval_required ≡ false) ⊎ (has_approved_decision r.workflow_run_id t ≡ true)
unfolding refuses
allowed_approval g r tool t h = ground arith

allowed_arguments :
    (g : ToolGateway) (r : InvokeRequest) (tool : ToolDefinition) (t : GatewayTables)
    (registered : RegisteredTool)
    → refuses g r tool t ≡ none
    → g.registry tool.name ≡ some registered
    → registered.accepts r.arguments ≡ true
unfolding refuses
allowed_arguments g r tool t registered h known = ground arith

Invoked-IsAuthorized :
    (g : ToolGateway) (fresh : ℕ) (r : InvokeRequest) (s : GatewayState) (x : ToolResult)
    {out : Result GatewayError ToolResult × GatewayState}
    → Invoked g fresh r s out
    → find (keyed r.workflow_run_id r.idempotency_key) s.session.invocations ≡ none
    → out.0 ≡ ok x
    → (tool : ToolDefinition) × IsAuthorized g r tool s.session
Invoked-IsAuthorized g fresh r s x (unregistered _) new h = absurd (ground (arith, h))
Invoked-IsAuthorized g fresh r s x (replayed tool existing _ taken) new h =
    absurd (ground (arith, taken, new))
Invoked-IsAuthorized g fresh r s x (refused tool f _ _ _) new h = absurd (ground (arith, h))
Invoked-IsAuthorized g fresh r s x (mismatched tool _ _ _ _) new h = absurd (ground (arith, h))
Invoked-IsAuthorized g fresh r s x (executed tool registered known _ allowed given _) new h = (
  tool,
  record {
    known = known;
    enabled = (allowed_grant g r tool s.session allowed).0;
    grant = (allowed_grant g r tool s.session allowed).1;
    approval = allowed_approval g r tool s.session allowed;
    handled = (registered, given, allowed_arguments g r tool s.session registered allowed given);
  },
)

-- A call under a new key that succeeds found an enabled tool of its name and version, granted to
-- its run, with an approved decision on the run if the tool needs one, and a handler that accepts
-- the arguments.
pub invoke-IsAuthorized :
    (g : ToolGateway) (fresh : ℕ) (r : InvokeRequest) (s : GatewayState) (x : ToolResult)
    → find (keyed r.workflow_run_id r.idempotency_key) s.session.invocations ≡ none
    → (invoke g fresh r s).0 ≡ ok x
    → (tool : ToolDefinition) × IsAuthorized g r tool s.session
invoke-IsAuthorized g fresh r s x = Invoked-IsAuthorized g fresh r s x (invoke-Invoked g fresh r s)
