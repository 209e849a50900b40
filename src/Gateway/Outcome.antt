-- ===== src/Gateway/Outcome.antt =====
-- The ways in which a call of the gateway ends, and what each does to the tables (tool_gateway.py).
use agents_should_survive_fa.Base.{
  ℕ, String, ◌≡◌, ◌≢◌, refl, ◌⊎◌, inl, inr, true, false, Option, none, some, List, ◌∷◌, arith, find,
  ok, err, Result, Option-cases, Bool-cases, ==_refl,
}
use agents_should_survive_fa.Json.{Json}
use agents_should_survive_fa.Gateway.State.{
  failed, denied, ToolDefinition, ToolInvocation, GatewayTables, GatewayState, GatewayError,
  unavailable_error, version_mismatch_error, RegisteredTool, ToolGateway, InvokeRequest, ToolResult,
  keyed, versioned, HandlerError,
}
use agents_should_survive_fa.Gateway.Invoke.{
  Refusal, replay, refuses, record_attempt, attempt_row, execute, conclude, invocation_row, fail,
  succeed, asks_approval, settle, change, bind_version, is_pinned,
}
use agents_should_survive_fa.Gateway.Call.{invoke, run_pinned}

-- Handlers leave the invocation table alone.
abbrev pub KeepsInvocations : ToolGateway → Type 0
KeepsInvocations g =
    (name : String) (registered : RegisteredTool)
    → g.registry name ≡ some registered
    → (row : ToolInvocation) (arguments : Json) (t : GatewayTables)
    → (registered.handler row arguments t).1.invocations ≡ t.invocations

-- How an execution ends in the invocation table: its row is failed or succeeded.
abbrev pub Executed :
    ToolInvocation → List ToolInvocation → Result GatewayError ToolResult × GatewayTables → Type 0
Executed row rest (result, t) =
    ((category : String) × (asks_approval (some category) ≡ false)
      × ((x : GatewayError) × (result ≡ err x))
      × (t.invocations ≡ fail category row ∷ rest))
    ⊎ ((value : Json) × (result ≡ ok (record { result = value; invocation_id = row.id }))
        × (t.invocations ≡ succeed value row ∷ rest))

changed :
    (row : ToolInvocation) (rest : List ToolInvocation) (f : ToolInvocation → ToolInvocation)
    (t : GatewayTables)
    → t.invocations ≡ row ∷ rest
    → (change row.id f t).invocations ≡ f row ∷ rest
changed row rest f t e = rw e (rw (==_refl row.id) refl)

settle-Executed :
    (validated : Option Json) (row : ToolInvocation) (rest : List ToolInvocation)
    (t : GatewayTables)
    → t.invocations ≡ row ∷ rest
    → Executed row rest (settle validated row.id t)
settle-Executed none row rest t e =
    inl ("invalid_result", refl, (_, refl), changed row rest (fail "invalid_result") t e)
settle-Executed (some value) row rest t e = inr (value, refl, changed row rest (succeed value) t e)

conclude-Executed :
    (registered : RegisteredTool) (row : ToolInvocation) (rest : List ToolInvocation)
    (out : Result HandlerError Json × GatewayTables)
    → out.1.invocations ≡ row ∷ rest
    → Executed row rest (conclude registered row.id out)
unfolding conclude
conclude-Executed registered row rest (err HandlerError.timed_out, t) e =
    inl ("timeout", refl, (_, refl), changed row rest (fail "timeout") t e)
conclude-Executed registered row rest (err HandlerError.invalid_result, t) e =
    inl ("invalid_result", refl, (_, refl), changed row rest (fail "invalid_result") t e)
conclude-Executed registered row rest (err HandlerError.execution_failed, t) e =
    inl ("execution_failed", refl, (_, refl), changed row rest (fail "execution_failed") t e)
conclude-Executed registered row rest (ok raw, t) e =
    settle-Executed (registered.result_of raw) row rest t e

pub execute-Executed :
    (g : ToolGateway) (fresh : ℕ) (r : InvokeRequest) (tool : ToolDefinition) (t : GatewayTables)
    (registered : RegisteredTool)
    → KeepsInvocations g
    → g.registry tool.name ≡ some registered
    → Executed (invocation_row g fresh r tool) t.invocations (execute g registered fresh r tool t)
unfolding execute
execute-Executed g fresh r tool t registered keeps known =
    conclude-Executed registered (invocation_row g fresh r tool) t.invocations _
      (keeps tool.name registered known _ _ _)

-- The call's tables once the version is bound.
abbrev pub bound_tables : InvokeRequest → ToolDefinition → GatewayState → GatewayTables
bound_tables r tool s = bind_version r.workflow_run_id tool s.session

-- The five ways in which `invoke` ends.
pub data Invoked (g : ToolGateway) (fresh : ℕ) (r : InvokeRequest) (s : GatewayState)
    : Result GatewayError ToolResult × GatewayState → Type 0 where
  unregistered :
      find (versioned r.tool_name r.tool_version) s.session.tools ≡ none
      → Invoked g fresh r s (
        err unavailable_error,
        record_attempt g.audited (attempt_row g fresh r none denied "unregistered_tool") s,
      )
  replayed :
      (tool : ToolDefinition) (existing : ToolInvocation)
      → find (versioned r.tool_name r.tool_version) s.session.tools ≡ some tool
      → find (keyed r.workflow_run_id r.idempotency_key) s.session.invocations ≡ some existing
      → Invoked g fresh r s (replay g r existing, s)
  refused :
      (tool : ToolDefinition) (f : Refusal)
      → find (versioned r.tool_name r.tool_version) s.session.tools ≡ some tool
      → find (keyed r.workflow_run_id r.idempotency_key) s.session.invocations ≡ none
      → refuses g r tool s.session ≡ some f
      → Invoked g fresh r s (
        err f.error,
        record_attempt g.audited (attempt_row g fresh r (some tool.id) f.status f.category) s,
      )
  mismatched :
      (tool : ToolDefinition)
      → find (versioned r.tool_name r.tool_version) s.session.tools ≡ some tool
      → find (keyed r.workflow_run_id r.idempotency_key) s.session.invocations ≡ none
      → refuses g r tool s.session ≡ none
      → is_pinned r.workflow_run_id tool (bound_tables r tool s) ≡ false
      → Invoked g fresh r s (
        err version_mismatch_error,
        record_attempt g.audited
            (attempt_row g fresh r (some tool.id) failed "version_mismatch")
            (record s { session = bound_tables r tool s }),
      )
  executed :
      (tool : ToolDefinition) (registered : RegisteredTool)
      → find (versioned r.tool_name r.tool_version) s.session.tools ≡ some tool
      → find (keyed r.workflow_run_id r.idempotency_key) s.session.invocations ≡ none
      → refuses g r tool s.session ≡ none
      → g.registry tool.name ≡ some registered
      → is_pinned r.workflow_run_id tool (bound_tables r tool s) ≡ true
      → Invoked g fresh r s (
        (execute g registered fresh r tool (bound_tables r tool s)).0,
        record s { session = (execute g registered fresh r tool (bound_tables r tool s)).1 },
      )

module _ (g : ToolGateway) (fresh : ℕ) (r : InvokeRequest) (s : GatewayState) where
  invoke_unregistered :
      find (versioned r.tool_name r.tool_version) s.session.tools ≡ none
      → invoke g fresh r s ≡ (
        err unavailable_error,
        record_attempt g.audited (attempt_row g fresh r none denied "unregistered_tool") s,
      )
  unfolding invoke
  invoke_unregistered h = ground arith

  module _ (tool : ToolDefinition)
      (known : find (versioned r.tool_name r.tool_version) s.session.tools ≡ some tool) where
    invoke_taken :
        (existing : ToolInvocation)
        → find (keyed r.workflow_run_id r.idempotency_key) s.session.invocations ≡ some existing
        → invoke g fresh r s ≡ (replay g r existing, s)
    unfolding invoke
    invoke_taken existing h = ground arith

    module _
        (new : find (keyed r.workflow_run_id r.idempotency_key) s.session.invocations ≡ none) where
      pub invoke_refused :
          (f : Refusal)
          → refuses g r tool s.session ≡ some f
          → invoke g fresh r s ≡ (
            err f.error,
            record_attempt g.audited (attempt_row g fresh r (some tool.id) f.status f.category) s,
          )
      unfolding invoke
      invoke_refused f h = ground arith

      invoke_allowed :
          refuses g r tool s.session ≡ none → invoke g fresh r s ≡ run_pinned g fresh r tool s
      unfolding invoke
      invoke_allowed h = ground arith

refuses_unregistered :
    (g : ToolGateway) (r : InvokeRequest) (tool : ToolDefinition) (t : GatewayTables)
    → g.registry tool.name ≡ none
    → refuses g r tool t ≢ none
unfolding refuses
refuses_unregistered g r tool t missing h = absurd (ground (arith, missing, h))

module _ (g : ToolGateway) (fresh : ℕ) (r : InvokeRequest) (s : GatewayState)
    (tool : ToolDefinition) (registered : RegisteredTool)
    (known : g.registry tool.name ≡ some registered) where
  pinned_executes :
      is_pinned r.workflow_run_id tool (bound_tables r tool s) ≡ true
      → run_pinned g fresh r tool s ≡ (
        (execute g registered fresh r tool (bound_tables r tool s)).0,
        record s { session = (execute g registered fresh r tool (bound_tables r tool s)).1 },
      )
  unfolding run_pinned
  pinned_executes h = ground arith

  unpinned_fails :
      is_pinned r.workflow_run_id tool (bound_tables r tool s) ≡ false
      → run_pinned g fresh r tool s ≡ (
        err version_mismatch_error,
        record_attempt g.audited
            (attempt_row g fresh r (some tool.id) failed "version_mismatch")
            (record s { session = bound_tables r tool s }),
      )
  unfolding run_pinned
  unpinned_fails h = ground arith

run_pinned-Invoked :
    (g : ToolGateway) (fresh : ℕ) (r : InvokeRequest) (s : GatewayState) (tool : ToolDefinition)
    → find (versioned r.tool_name r.tool_version) s.session.tools ≡ some tool
    → find (keyed r.workflow_run_id r.idempotency_key) s.session.invocations ≡ none
    → refuses g r tool s.session ≡ none
    → Invoked g fresh r s (run_pinned g fresh r tool s)
run_pinned-Invoked g fresh r s tool known new allowed = elim (Option-cases (g.registry tool.name)) [
  | inl missing ↦ absurd (refuses_unregistered g r tool s.session missing allowed)
  | inr (registered, given) ↦
      elim (Bool-cases (is_pinned r.workflow_run_id tool (bound_tables r tool s))) [
        | inl pinned ↦
            rw (pinned_executes g fresh r s tool registered given pinned)
              (executed tool registered known new allowed given pinned)
        | inr other ↦
            rw (unpinned_fails g fresh r s tool registered given other)
              (mismatched tool known new allowed other)
      ]
]

-- Every call ends in one of the five ways.
pub invoke-Invoked :
    (g : ToolGateway) (fresh : ℕ) (r : InvokeRequest) (s : GatewayState)
    → Invoked g fresh r s (invoke g fresh r s)
invoke-Invoked g fresh r s =
    elim (Option-cases (find (versioned r.tool_name r.tool_version) s.session.tools)) [
      | inl unknown ↦ rw (invoke_unregistered g fresh r s unknown) (unregistered unknown)
      | inr (tool, known) ↦
          elim (Option-cases
            (find (keyed r.workflow_run_id r.idempotency_key) s.session.invocations)) [
              | inr (existing, taken) ↦
                  rw (invoke_taken g fresh r s tool known existing taken)
                    (replayed tool existing known taken)
              | inl new ↦ elim (Option-cases (refuses g r tool s.session)) [
                | inr (f, h) ↦
                    rw (invoke_refused g fresh r s tool known new f h) (refused tool f known new h)
                | inl allowed ↦
                    rw (invoke_allowed g fresh r s tool known new allowed)
                      (run_pinned-Invoked g fresh r s tool known new allowed)
              ]
            ]
    ]
