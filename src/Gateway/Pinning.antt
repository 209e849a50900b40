-- ===== src/Gateway/Pinning.antt =====
-- A run keeps to one definition of each tool name (tool_gateway.py, `_pin_tool_version`).
use agents_should_survive_fa.Base.{
  ℕ, String, ◌≡◌, refl, inl, inr, Bool, true, Option, none, some, arith, find, ok, err, Result,
  Option-cases, Bool-cases, ◌∙◌, eq_iff, str_eq, ◌==◌, ◌&&◌,
}
use agents_should_survive_fa.Json.{Json}
use agents_should_survive_fa.Gateway.State.{
  ToolDefinition, ToolInvocation, ToolRunBinding, GatewayTables, GatewayState, GatewayError,
  RegisteredTool, ToolGateway, InvokeRequest, ToolResult, HandlerError, keyed, versioned, bound,
  denied, failed,
}
use agents_should_survive_fa.Gateway.Invoke.{
  bind_version, is_pinned, execute, conclude, add_attempt, record_attempt, settle, attempt_row,
}
use agents_should_survive_fa.Gateway.Outcome.{
  bound_tables, Invoked, unregistered, replayed, refused, mismatched, executed, invoke-Invoked,
}
use agents_should_survive_fa.Gateway.Call.{invoke}

-- Handlers leave the bindings alone.
abbrev pub KeepsBindings : ToolGateway → Type 0
KeepsBindings g =
    (name : String) (registered : RegisteredTool)
    → g.registry name ≡ some registered
    → (row : ToolInvocation) (arguments : Json) (t : GatewayTables)
    → (registered.handler row arguments t).1.bindings ≡ t.bindings

settle_bindings :
    (validated : Option Json) (fresh : ℕ) (t : GatewayTables)
    → (settle validated fresh t).1.bindings ≡ t.bindings
settle_bindings none fresh t = refl
settle_bindings (some v) fresh t = refl

conclude_bindings :
    (registered : RegisteredTool) (fresh : ℕ) (out : Result HandlerError Json × GatewayTables)
    → (conclude registered fresh out).1.bindings ≡ out.1.bindings
unfolding conclude
conclude_bindings registered fresh (ok raw, t) = settle_bindings (registered.result_of raw) fresh t
conclude_bindings registered fresh (err HandlerError.timed_out, t) = refl
conclude_bindings registered fresh (err HandlerError.invalid_result, t) = refl
conclude_bindings registered fresh (err HandlerError.execution_failed, t) = refl

execute_bindings :
    (g : ToolGateway) (fresh : ℕ) (r : InvokeRequest) (tool : ToolDefinition) (t : GatewayTables)
    (registered : RegisteredTool)
    → KeepsBindings g
    → g.registry tool.name ≡ some registered
    → (execute g registered fresh r tool t).1.bindings ≡ t.bindings
unfolding execute
execute_bindings g fresh r tool t registered keeps known =
    conclude_bindings registered fresh _ ∙ keeps tool.name registered known _ _ _

recorded_bindings :
    (audited : Bool) (row : ToolInvocation) (s : GatewayState)
    → (record_attempt audited row s).session.bindings ≡ s.session.bindings
unfolding record_attempt add_attempt
recorded_bindings audited row s = ground arith

bound_clash :
    (run_id k : ℕ) (name : String) (tool : ToolDefinition) (t : GatewayTables) (b : ToolRunBinding)
    → run_id == k && str_eq tool.name name ≡ true
    → find (bound run_id tool.name) t.bindings ≡ none
    → find (bound k name) t.bindings ≡ some b
    → ⊥
bound_clash run_id k name tool t b same missing found =
    let a : run_id ≡ k = ground (arith, same) in
    let c : tool.name ≡ name = ground (arith, same, eq_iff tool.name name) in
    let gone : find (bound k name) t.bindings ≡ none = rw (a, c) at missing in
    ground (arith, gone, found)

bind_version_kept :
    (run_id k : ℕ) (name : String) (tool : ToolDefinition) (t : GatewayTables) (b : ToolRunBinding)
    → find (bound k name) t.bindings ≡ some b
    → find (bound k name) (bind_version run_id tool t).bindings ≡ some b
unfolding bind_version
bind_version_kept run_id k name tool t b h =
    elim (Option-cases (find (bound run_id tool.name) t.bindings)) [
      | inr (c, e) ↦ ground arith
      | inl e ↦ elim (Bool-cases (run_id == k && str_eq tool.name name)) [
        | inl same ↦ absurd (bound_clash run_id k name tool t b same e h)
        | inr other ↦ ground (arith, other)
      ]
    ]

bound_found :
    (run_id : ℕ) (tool : ToolDefinition) (t : GatewayTables)
    → is_pinned run_id tool t ≡ true
    → (b : ToolRunBinding) × (find (bound run_id tool.name) t.bindings ≡ some b)
      × (b.tool_definition_id ≡ tool.id)
unfolding is_pinned
bound_found run_id tool t h = elim (Option-cases (find (bound run_id tool.name) t.bindings)) [
  | inl none_there ↦ absurd (ground arith)
  | inr (b, e) ↦ (b, e, ground arith)
]

Invoked-bindings :
    (g : ToolGateway) (fresh : ℕ) (r : InvokeRequest) (s : GatewayState) (k : ℕ) (name : String)
    (b : ToolRunBinding) {out : Result GatewayError ToolResult × GatewayState}
    → KeepsBindings g
    → Invoked g fresh r s out
    → find (bound k name) s.session.bindings ≡ some b
    → find (bound k name) out.1.session.bindings ≡ some b
Invoked-bindings g fresh r s k name b keeps (unregistered _) h =
    rw (recorded_bindings g.audited (attempt_row g fresh r none denied "unregistered_tool") s) h
Invoked-bindings g fresh r s k name b keeps (replayed _ _ _ _) h = h
Invoked-bindings g fresh r s k name b keeps (refused tool f _ _ _) h =
    rw (recorded_bindings g.audited (attempt_row g fresh r (some tool.id) f.status f.category) s) h
Invoked-bindings g fresh r s k name b keeps (mismatched tool _ _ _ _) h =
    rw
      (recorded_bindings g.audited (attempt_row g fresh r (some tool.id) failed "version_mismatch")
        (record s { session = bound_tables r tool s }))
      (bind_version_kept r.workflow_run_id k name tool s.session b h)
Invoked-bindings g fresh r s k name b keeps (executed tool registered _ _ _ known _) h =
    rw (execute_bindings g fresh r tool (bound_tables r tool s) registered keeps known)
      (bind_version_kept r.workflow_run_id k name tool s.session b h)

-- No call changes the definition that a run is bound to under a tool name, where handlers leave the
-- bindings alone.
pub invoke_bindings :
    (g : ToolGateway) (fresh : ℕ) (r : InvokeRequest) (s : GatewayState) (k : ℕ) (name : String)
    (b : ToolRunBinding)
    → KeepsBindings g
    → find (bound k name) s.session.bindings ≡ some b
    → find (bound k name) (invoke g fresh r s).1.session.bindings ≡ some b
invoke_bindings g fresh r s k name b keeps =
    Invoked-bindings g fresh r s k name b keeps (invoke-Invoked g fresh r s)

-- What a call that ran a handler leaves bound: its run and tool name, to the very definition that it
-- used.
abbrev pub IsPinned : InvokeRequest → GatewayState → GatewayState → Type 0
IsPinned r s t =
    (tool : ToolDefinition) × (b : ToolRunBinding) × (find (versioned r.tool_name r.tool_version)
        s.session.tools
      ≡ some tool)
    × (find (bound r.workflow_run_id tool.name) t.session.bindings ≡ some b)
    × (b.tool_definition_id ≡ tool.id)

Invoked-IsPinned :
    (g : ToolGateway) (fresh : ℕ) (r : InvokeRequest) (s : GatewayState) (x : ToolResult)
    {out : Result GatewayError ToolResult × GatewayState}
    → KeepsBindings g
    → Invoked g fresh r s out
    → find (keyed r.workflow_run_id r.idempotency_key) s.session.invocations ≡ none
    → out.0 ≡ ok x
    → IsPinned r s out.1
Invoked-IsPinned g fresh r s x keeps (unregistered _) new h = absurd (ground (arith, h))
Invoked-IsPinned g fresh r s x keeps (replayed tool existing _ taken) new h =
    absurd (ground (arith, taken, new))
Invoked-IsPinned g fresh r s x keeps (refused tool f _ _ _) new h = absurd (ground (arith, h))
Invoked-IsPinned g fresh r s x keeps (mismatched tool _ _ _ _) new h = absurd (ground (arith, h))
Invoked-IsPinned g fresh r s x keeps (executed tool registered known _ _ given pinned) new h =
    let (b, found, same) = bound_found r.workflow_run_id tool (bound_tables r tool s) pinned in
    (
      tool,
      b,
      known,
      rw (execute_bindings g fresh r tool (bound_tables r tool s) registered keeps given) found,
      same,
    )

-- A call under a new key that succeeds leaves its run bound, under the tool's name, to the
-- definition that it used, where handlers leave the bindings alone.
pub invoke-IsPinned :
    (g : ToolGateway) (fresh : ℕ) (r : InvokeRequest) (s : GatewayState) (x : ToolResult)
    → KeepsBindings g
    → find (keyed r.workflow_run_id r.idempotency_key) s.session.invocations ≡ none
    → (invoke g fresh r s).0 ≡ ok x
    → IsPinned r s (invoke g fresh r s).1
invoke-IsPinned g fresh r s x keeps =
    Invoked-IsPinned g fresh r s x keeps (invoke-Invoked g fresh r s)
