-- ===== src/Gateway/Audit.antt =====
-- Which attempts survive the caller's rollback (tool_gateway.py, persistence/session.py).
use agents_should_survive_fa.Base.{
  ℕ, ◌≡◌, refl, Bool, true, false, none, some, arith, find, ok, err, Result, sym, ◌∙◌, eq_refl,
}
use agents_should_survive_fa.Gateway.State.{
  ToolDefinition, ToolInvocation, GatewayTables, GatewayState, GatewayError, ToolGateway,
  InvokeRequest, ToolResult, keyed, versioned,
}
use agents_should_survive_fa.Gateway.Invoke.{
  Refusal, refuses, is_pinned, add_attempt, record_attempt, attempt_row,
}
use agents_should_survive_fa.Gateway.Outcome.{
  bound_tables, Invoked, unregistered, replayed, refused, mismatched, executed, invoke-Invoked,
  invoke_refused,
}
use agents_should_survive_fa.Gateway.Call.{invoke, in_session, close}
use mathlib.Core.Option.{some-injective}

-- The tables that the call meets in a fresh session.
abbrev pub opened : GatewayState → GatewayState
opened s = record s { session = s.committed }

in_session_err :
    (g : ToolGateway) (fresh : ℕ) (r : InvokeRequest) (s t : GatewayState) (e : GatewayError)
    → invoke g fresh r (opened s) ≡ (err e, t)
    → in_session (invoke g fresh r) s ≡ (err e, record t { session = t.committed })
unfolding in_session
in_session_err g fresh r s t e h = rw h refl

added_found :
    (row : ToolInvocation) (t : GatewayTables)
    → find (keyed row.workflow_run_id row.idempotency_key) t.invocations ≡ none
    → find (keyed row.workflow_run_id row.idempotency_key) (add_attempt row t).invocations
      ≡ some row
unfolding add_attempt
added_found row t new = ground (arith, new, eq_refl row.idempotency_key)

recorded_found :
    (audited : Bool) (row : ToolInvocation) (s : GatewayState)
    → audited ≡ true
    → find (keyed row.workflow_run_id row.idempotency_key) s.committed.invocations ≡ none
    → find
        (keyed row.workflow_run_id row.idempotency_key)
        (record_attempt audited row s).committed.invocations
      ≡ some row
unfolding record_attempt
recorded_found audited row s on new = rw on (added_found row s.committed new)

-- A call of a known tool under a new key that a check refuses leaves its attempt committed
-- although the exception rolls the caller's session back, where an audit database is configured:
-- under its run and key stands a row with the status and the category of the refusal.
pub refusal_is_committed :
    (g : ToolGateway) (fresh : ℕ) (r : InvokeRequest) (s : GatewayState) (tool : ToolDefinition)
    (f : Refusal)
    → g.audited ≡ true
    → find (versioned r.tool_name r.tool_version) s.committed.tools ≡ some tool
    → find (keyed r.workflow_run_id r.idempotency_key) s.committed.invocations ≡ none
    → refuses g r tool s.committed ≡ some f
    → ((in_session (invoke g fresh r) s).0 ≡ err f.error)
      × (find
            (keyed r.workflow_run_id r.idempotency_key)
            (in_session (invoke g fresh r) s).1.committed.invocations
          ≡ some (attempt_row g fresh r (some tool.id) f.status f.category))
refusal_is_committed g fresh r s tool f audited known new refusing =
    let row = attempt_row g fresh r (some tool.id) f.status f.category in
    let e =
      in_session_err g fresh r s (record_attempt g.audited row (opened s)) f.error
        (invoke_refused g fresh r (opened s) tool known new f refusing) in
    rw e (refl, recorded_found g.audited row (opened s) audited new)

unaudited_call :
    (g : ToolGateway) (fresh : ℕ) (r : InvokeRequest) (s : GatewayState)
    {out : Result GatewayError ToolResult × GatewayState}
    → g.audited ≡ false
    → Invoked g fresh r s out
    → out.1.committed ≡ s.committed
unfolding record_attempt
unaudited_call g fresh r s unaudited (unregistered _) = rw unaudited refl
unaudited_call g fresh r s unaudited (replayed _ _ _ _) = refl
unaudited_call g fresh r s unaudited (refused _ _ _ _ _) = rw unaudited refl
unaudited_call g fresh r s unaudited (mismatched _ _ _ _ _) = rw unaudited refl
unaudited_call g fresh r s unaudited (executed _ _ _ _ _ _ _) = refl

closed_err :
    (out : Result GatewayError ToolResult × GatewayState) (e : GatewayError) (t : GatewayTables)
    → (close out).0 ≡ err e
    → out.1.committed ≡ t
    → (close out).1.committed ≡ t
closed_err (ok x, u) e t h k = absurd (ground (arith, h))
closed_err (err x, u) e t h k = k

-- Without an audit database a call that raises leaves nothing committed.
pub unaudited_error_rolls_back :
    (g : ToolGateway) (fresh : ℕ) (r : InvokeRequest) (s : GatewayState) (e : GatewayError)
    → g.audited ≡ false
    → (in_session (invoke g fresh r) s).0 ≡ err e
    → (in_session (invoke g fresh r) s).1.committed ≡ s.committed
unfolding in_session
unaudited_error_rolls_back g fresh r s e unaudited h =
    closed_err (invoke g fresh r (opened s)) e s.committed h
      (unaudited_call g fresh r (opened s) unaudited (invoke-Invoked g fresh r (opened s)))

Invoked-execution :
    (g : ToolGateway) (fresh : ℕ) (r : InvokeRequest) (s : GatewayState) (tool : ToolDefinition)
    {out : Result GatewayError ToolResult × GatewayState}
    → find (versioned r.tool_name r.tool_version) s.session.tools ≡ some tool
    → refuses g r tool s.session ≡ none
    → is_pinned r.workflow_run_id tool (bound_tables r tool s) ≡ true
    → Invoked g fresh r s out
    → out.1.committed ≡ s.committed
Invoked-execution g fresh r s tool known allowed pinned (unregistered unknown) =
    absurd (ground (arith, known, unknown))
Invoked-execution g fresh r s tool known allowed pinned (replayed _ _ _ _) = refl
Invoked-execution g fresh r s tool known allowed pinned (refused other f found _ refusing) =
    let same : tool ≡ other = some-injective tool other (sym known ∙ found) in
    let allowed' : refuses g r other s.session ≡ none = rw same at allowed in
    absurd (ground (arith, allowed', refusing))
Invoked-execution g fresh r s tool known allowed pinned (mismatched other found _ _ unpinned) =
    let same : tool ≡ other = some-injective tool other (sym known ∙ found) in
    let pinned' : is_pinned r.workflow_run_id other (bound_tables r other s) ≡ true =
      rw same at pinned in
    absurd (ground (arith, pinned', unpinned))
Invoked-execution g fresh r s tool known allowed pinned (executed _ _ _ _ _ _ _) = refl

-- Where the exception leaves the caller's session, a handler that fails leaves nothing committed,
-- audit database or not: a call of a known tool that no check refuses and whose version is pinned,
-- and that raises, leaves what is committed as it was.
pub execution_failure_rolls_back :
    (g : ToolGateway) (fresh : ℕ) (r : InvokeRequest) (s : GatewayState) (tool : ToolDefinition)
    (e : GatewayError)
    → find (versioned r.tool_name r.tool_version) s.committed.tools ≡ some tool
    → refuses g r tool s.committed ≡ none
    → is_pinned r.workflow_run_id tool (bound_tables r tool (opened s)) ≡ true
    → (in_session (invoke g fresh r) s).0 ≡ err e
    → (in_session (invoke g fresh r) s).1.committed ≡ s.committed
unfolding in_session
execution_failure_rolls_back g fresh r s tool e known allowed pinned h =
    closed_err (invoke g fresh r (opened s)) e s.committed h (
      Invoked-execution g fresh r (opened s) tool known allowed pinned
        (invoke-Invoked g fresh r (opened s)))
