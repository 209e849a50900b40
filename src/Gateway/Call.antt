-- ===== src/Gateway/Call.antt =====
-- `ToolGateway.invoke` put together from its parts, `record_injected_failure`, and the session that
-- a caller runs them in (tool_gateway.py).
use agents_should_survive_fa.Base.{ℕ, String, true, false, none, some, find, Tx, Result, ok, err}
use agents_should_survive_fa.Gateway.State.{
  failed, denied, ToolDefinition, GatewayState, GatewayError, unavailable_error,
  version_mismatch_error, ToolGateway, InvokeRequest, ToolResult, keyed, versioned,
}
use agents_should_survive_fa.Gateway.Invoke.{
  attempt_row, record_attempt, replay, refuses, bind_version, is_pinned, execute,
}

-- `invoke` from the pinning of the version on. The registry has the tool, as `refuses` has seen, and
-- the binding is there after `bind_version`.
unfoldable pub run_pinned :
    ToolGateway → ℕ → InvokeRequest → ToolDefinition → Tx GatewayState GatewayError ToolResult
unfolding record_attempt bind_version is_pinned execute
run_pinned g fresh r tool s = elim (g.registry tool.name) [
  | none ↦ (err unavailable_error, s)
  | some registered ↦
      let t = bind_version r.workflow_run_id tool s.session in
      elim (is_pinned r.workflow_run_id tool t) [
        | false ↦ (
          err version_mismatch_error,
          record_attempt g.audited (attempt_row g fresh r (some tool.id) failed "version_mismatch")
              (record s { session = t }),
        )
        | true ↦
            let (result, u) = execute g registered fresh r tool t in
            (result, record s { session = u })
      ]
]

unfoldable pub invoke : ToolGateway → ℕ → InvokeRequest → Tx GatewayState GatewayError ToolResult
unfolding record_attempt replay refuses run_pinned
invoke g fresh r s = elim (find (versioned r.tool_name r.tool_version) s.session.tools) [
  | none ↦ (
    err unavailable_error,
    record_attempt g.audited (attempt_row g fresh r none denied "unregistered_tool") s,
  )
  | some tool ↦ elim (find (keyed r.workflow_run_id r.idempotency_key) s.session.invocations) [
    | some existing ↦ (replay g r existing, s)
    | none ↦ elim (refuses g r tool s.session) [
      | some f ↦ (
        err f.error,
        record_attempt g.audited (attempt_row g fresh r (some tool.id) f.status f.category) s,
      )
      | none ↦ run_pinned g fresh r tool s
    ]
  ]
]

-- A failure that a fault plan causes before the gateway is called.
unfoldable pub record_injected_failure :
    ToolGateway → ℕ → InvokeRequest → String → Tx GatewayState GatewayError (Unit {0})
unfolding record_attempt
record_injected_failure g fresh r category s =
    elim (find (versioned r.tool_name r.tool_version) s.session.tools) [
      | none ↦ (err unavailable_error, s)
      | some tool ↦ elim (find (keyed r.workflow_run_id r.idempotency_key) s.session.invocations) [
        | some existing ↦ (ok tt, s)
        | none ↦ (
          ok tt,
          record_attempt g.audited
              (record (attempt_row g fresh r (some tool.id) failed category) {
                correlation_id = r.correlation_id;
              })
              s,
        )
      ]
    ]

-- The end of the caller's session: an exception takes back its own changes, but not what the audit
-- session has committed.
abbrev pub close :
    {A : Type 0} → Result GatewayError A × GatewayState → Result GatewayError A × GatewayState
close (ok value, t) = (ok value, record t { committed = t.session })
close (err error, t) = (err error, record t { session = t.committed })

-- `async with database.session()` around a call of the gateway, from what is committed.
unfoldable pub in_session :
    {A : Type 0} → Tx GatewayState GatewayError A → Tx GatewayState GatewayError A
in_session call s = close (call (record s { session = s.committed }))
