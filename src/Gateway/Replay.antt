-- ===== src/Gateway/Replay.antt =====
-- A call that is repeated under its key answers from the stored invocation and changes nothing
-- (tool_gateway.py).
use agents_should_survive_fa.Base.{
  ℕ, String, ◌≡◌, refl, inl, inr, true, Option, none, some, List, arith, find, ok, err, Result,
  eq_refl, ap, ◌∙◌,
}
use agents_should_survive_fa.Json.{Json}
use agents_should_survive_fa.Gateway.State.{
  ToolDefinition, ToolInvocation, GatewayTables, GatewayState, GatewayError, RegisteredTool,
  ToolGateway, InvokeRequest, ToolResult, keyed, versioned, HandlerError,
}
use agents_should_survive_fa.Gateway.Invoke.{
  replay, execute, conclude, invocation_row, succeed, settle, bind_version,
}
use agents_should_survive_fa.Gateway.Outcome.{
  KeepsInvocations, Executed, execute-Executed, bound_tables, Invoked, unregistered, replayed,
  refused, mismatched, executed, invoke-Invoked,
}
use agents_should_survive_fa.Gateway.Call.{invoke}

-- A call of a registered tool under a key that an invocation of the run has changes no table and
-- answers from that invocation alone: no handler runs.
pub invoke_replayed :
    (g : ToolGateway) (fresh : ℕ) (r : InvokeRequest) (s : GatewayState) (tool : ToolDefinition)
    (existing : ToolInvocation)
    → find (versioned r.tool_name r.tool_version) s.session.tools ≡ some tool
    → find (keyed r.workflow_run_id r.idempotency_key) s.session.invocations ≡ some existing
    → invoke g fresh r s ≡ (replay g r existing, s)
unfolding invoke
invoke_replayed g fresh r s tool existing registered taken = ground arith

-- Handlers leave the tool definitions alone.
abbrev pub KeepsTools : ToolGateway → Type 0
KeepsTools g =
    (name : String) (registered : RegisteredTool)
    → g.registry name ≡ some registered
    → (row : ToolInvocation) (arguments : Json) (t : GatewayTables)
    → (registered.handler row arguments t).1.tools ≡ t.tools

settle_tools :
    (validated : Option Json) (fresh : ℕ) (t : GatewayTables)
    → (settle validated fresh t).1.tools ≡ t.tools
settle_tools none fresh t = refl
settle_tools (some v) fresh t = refl

conclude_tools :
    (registered : RegisteredTool) (fresh : ℕ) (out : Result HandlerError Json × GatewayTables)
    → (conclude registered fresh out).1.tools ≡ out.1.tools
unfolding conclude
conclude_tools registered fresh (ok raw, t) = settle_tools (registered.result_of raw) fresh t
conclude_tools registered fresh (err HandlerError.timed_out, t) = refl
conclude_tools registered fresh (err HandlerError.invalid_result, t) = refl
conclude_tools registered fresh (err HandlerError.execution_failed, t) = refl

bind_version_tools :
    (run_id : ℕ) (tool : ToolDefinition) (t : GatewayTables)
    → (bind_version run_id tool t).tools ≡ t.tools
unfolding bind_version
bind_version_tools run_id tool t = ground arith

execute_tools :
    (g : ToolGateway) (fresh : ℕ) (r : InvokeRequest) (tool : ToolDefinition) (t : GatewayTables)
    (registered : RegisteredTool)
    → KeepsTools g
    → g.registry tool.name ≡ some registered
    → (execute g registered fresh r tool t).1.tools ≡ t.tools
unfolding execute
execute_tools g fresh r tool t registered keeps known =
    conclude_tools registered fresh _ ∙ keeps tool.name registered known _ _ _

-- The row of a call that succeeded is found under its key and answers it again.
answers_again :
    (g : ToolGateway) (fresh : ℕ) (r : InvokeRequest) (tool : ToolDefinition)
    (rest : List ToolInvocation) (out : Result GatewayError ToolResult × GatewayTables)
    (x : ToolResult)
    → g.same_arguments r.arguments r.arguments ≡ true
    → Executed (invocation_row g fresh r tool) rest out
    → out.0 ≡ ok x
    → (i : ToolInvocation) × (find (keyed r.workflow_run_id r.idempotency_key) out.1.invocations
        ≡ some i)
      × (replay g r i ≡ ok x)
unfolding replay
answers_again g fresh r tool rest (result, t) x same (inl (c, _, (y, failing), _)) h =
    absurd (ground (arith, failing, h))
answers_again g fresh r tool rest (result, t) x same (inr (v, done, e)) h = (
  succeed v (invocation_row g fresh r tool),
  rw e (ground (arith, eq_refl r.idempotency_key)),
  ground (arith, same, eq_refl (g.canonical_fingerprint r.arguments), done, h),
)

Invoked-retried :
    (g : ToolGateway) (fresh again : ℕ) (r : InvokeRequest) (s : GatewayState) (x : ToolResult)
    {out : Result GatewayError ToolResult × GatewayState}
    → KeepsInvocations g
    → KeepsTools g
    → g.same_arguments r.arguments r.arguments ≡ true
    → Invoked g fresh r s out
    → out.0 ≡ ok x
    → invoke g again r out.1 ≡ (ok x, out.1)
Invoked-retried g fresh again r s x keeps tools same (unregistered _) h = absurd (ground (arith, h))
Invoked-retried g fresh again r s x keeps tools same (replayed tool existing known taken) h =
    rw (invoke_replayed g again r s tool existing known taken) (ap (λ y. (y, s)) h)
Invoked-retried g fresh again r s x keeps tools same (refused _ _ _ _ _) h =
    absurd (ground (arith, h))
Invoked-retried g fresh again r s x keeps tools same (mismatched _ _ _ _ _) h =
    absurd (ground (arith, h))
Invoked-retried g fresh again r s x keeps tools same (executed tool registered known _ _ given _)
      h =
    let t = bound_tables r tool s in
    let out = execute g registered fresh r tool t in
    let (i, found, answers) =
      answers_again g fresh r tool t.invocations out x same
        (execute-Executed g fresh r tool t registered keeps given) h in
    let still : find (versioned r.tool_name r.tool_version) out.1.tools ≡ some tool =
      rw
        (
          execute_tools g fresh r tool t registered tools given,
          bind_version_tools r.workflow_run_id tool s.session,
        )
        known in
    rw (invoke_replayed g again r (record s { session = out.1 }) tool i still found)
      (ap (λ y. (y, record s { session = out.1 })) answers)

-- A call that succeeded is answered again with the same result and no change of any table,
-- whatever the repetition draws as an identifier, where handlers leave the tool and invocation
-- tables alone and the arguments are equal to themselves.
pub invoke_retried :
    (g : ToolGateway) (fresh again : ℕ) (r : InvokeRequest) (s : GatewayState) (x : ToolResult)
    → KeepsInvocations g
    → KeepsTools g
    → g.same_arguments r.arguments r.arguments ≡ true
    → (invoke g fresh r s).0 ≡ ok x
    → invoke g again r (invoke g fresh r s).1 ≡ (ok x, (invoke g fresh r s).1)
invoke_retried g fresh again r s x keeps tools same =
    Invoked-retried g fresh again r s x keeps tools same (invoke-Invoked g fresh r s)
