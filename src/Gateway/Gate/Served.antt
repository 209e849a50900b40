-- ===== src/Gateway/Gate/Served.antt =====
-- A call that was refused for want of an approval, repeated under its key (tool_gateway.py).
use agents_should_survive_fa.Base.{
  ℕ, String, ◌≡◌, refl, ◌⊎◌, inl, true, false, ◌&&◌, ◌||◌, some, [], find, arith, err, All,
  find-All, if◌then◌else◌, str_eq, Option-cases, inr,
}
use agents_should_survive_fa.Gateway.State.{
  failed, ToolDefinition, ToolInvocation, GatewayState, denied_error, conflict_error, ToolGateway,
  InvokeRequest, keyed, versioned,
}
use agents_should_survive_fa.Gateway.Invoke.{replay, asks_approval, attempt_row, record_attempt}
use agents_should_survive_fa.Gateway.Outcome.{KeepsInvocations}
use agents_should_survive_fa.Gateway.Replay.{invoke_replayed}
use agents_should_survive_fa.Gateway.Call.{invoke, record_injected_failure}
use agents_should_survive_fa.Gateway.Gate.{IsGated, recorded-IsGated, invoke-IsGated}

-- A state that a gateway brings about from tables without invocations: by calls, by injected
-- failures of another category, by commits and rollbacks of the caller's session, and by what the
-- rest of the program writes in other tables, approvals among it.
pub data Served (g : ToolGateway) : GatewayState → Type 0 where
  no_invocations :
      (s : GatewayState) → s.session.invocations ≡ [] → s.committed.invocations ≡ [] → Served g s
  after_call :
      (fresh : ℕ) (r : InvokeRequest) (s : GatewayState)
      → Served g s
      → Served g (invoke g fresh r s).1
  after_injection :
      (fresh : ℕ) (r : InvokeRequest) (category : String) (s : GatewayState)
      → asks_approval (some category) ≡ false
      → Served g s
      → Served g (record_injected_failure g fresh r category s).1
  after_commit : (s : GatewayState) → Served g s → Served g (record s { committed = s.session })
  after_rollback : (s : GatewayState) → Served g s → Served g (record s { session = s.committed })
  after_others :
      (s u : GatewayState)
      → u.session.invocations ≡ s.session.invocations
      → u.committed.invocations ≡ s.committed.invocations
      → Served g s
      → Served g u

abbrev AllGated : GatewayState → Type 0
AllGated s = All IsGated s.session.invocations × All IsGated s.committed.invocations

-- An injection adds the attempt, under some definition, or nothing.
injection_cases :
    (g : ToolGateway) (fresh : ℕ) (r : InvokeRequest) (category : String) (s : GatewayState)
    → ((record_injected_failure g fresh r category s).1 ≡ s)
      ⊎ (tool_id : ℕ) × ((record_injected_failure g fresh r category s).1
          ≡ record_attempt g.audited
              (record (attempt_row g fresh r (some tool_id) failed category) {
                correlation_id = r.correlation_id;
              })
              s)
unfolding record_injected_failure
injection_cases g fresh r category s =
    elim (Option-cases (find (versioned r.tool_name r.tool_version) s.session.tools)) [
      | inl e ↦ inl (ground arith)
      | inr (tool, e) ↦
          elim (Option-cases
            (find (keyed r.workflow_run_id r.idempotency_key) s.session.invocations)) [
              | inl f ↦ inr (tool.id, ground arith)
              | inr (existing, f) ↦ inl (ground arith)
            ]
    ]

injected-AllGated :
    (g : ToolGateway) (fresh : ℕ) (r : InvokeRequest) (category : String) (s : GatewayState)
    → asks_approval (some category) ≡ false
    → AllGated s
    → AllGated (record_injected_failure g fresh r category s).1
injected-AllGated g fresh r category s other gated = elim (injection_cases g fresh r category s) [
  | inl e ↦ rw e gated
  | inr (tool_id, e) ↦ rw e (recorded-IsGated g.audited _ s (inl other) gated)
]

Served-AllGated :
    (g : ToolGateway) (s : GatewayState) → KeepsInvocations g → Served g s → AllGated s
Served-AllGated g s keeps (no_invocations _ session committed) = (rw session tt, rw committed tt)
Served-AllGated g s keeps (after_call fresh r t earlier) =
    invoke-IsGated g fresh r t keeps (Served-AllGated g t keeps earlier)
Served-AllGated g s keeps (after_injection fresh r category t other earlier) =
    injected-AllGated g fresh r category t other (Served-AllGated g t keeps earlier)
Served-AllGated g s keeps (after_commit t earlier) =
    let (gated, _) = Served-AllGated g t keeps earlier in (gated, gated)
Served-AllGated g s keeps (after_rollback t earlier) =
    let (_, gated) = Served-AllGated g t keeps earlier in (gated, gated)
Served-AllGated g s keeps (after_others t _ session committed earlier) =
    rw (session, committed) (Served-AllGated g t keeps earlier)

replay_denied :
    (g : ToolGateway) (r : InvokeRequest) (existing : ToolInvocation)
    → IsGated existing
    → asks_approval existing.error_category ≡ true
    → replay g r existing
      ≡ err (
          if g.same_arguments existing.arguments r.arguments
            && (str_eq existing.argument_fingerprint "legacy"
                || str_eq existing.argument_fingerprint (g.canonical_fingerprint r.arguments))
          then denied_error
          else conflict_error)
unfolding replay
replay_denied g r existing (inl other) asks = absurd (ground (arith, other, asks))
replay_denied g r existing (inr gated) asks = ground (arith, gated)

-- Where handlers leave the invocation table alone, and the tables were brought about by calls,
-- injected failures of another category, commits, rollbacks and writes in other tables from tables
-- without invocations, a call of a registered tool whose run and key have an attempt on record that
-- was refused for want of an approval is denied, whatever was approved since, or is a conflict if
-- its arguments or their fingerprint differ; it changes nothing.
pub refused_for_good :
    (g : ToolGateway) (fresh : ℕ) (r : InvokeRequest) (s : GatewayState) (tool : ToolDefinition)
    (existing : ToolInvocation)
    → KeepsInvocations g
    → Served g s
    → find (versioned r.tool_name r.tool_version) s.session.tools ≡ some tool
    → find (keyed r.workflow_run_id r.idempotency_key) s.session.invocations ≡ some existing
    → asks_approval existing.error_category ≡ true
    → invoke g fresh r s ≡ (
      err (
          if g.same_arguments existing.arguments r.arguments
            && (str_eq existing.argument_fingerprint "legacy"
                || str_eq existing.argument_fingerprint (g.canonical_fingerprint r.arguments))
          then denied_error
          else conflict_error),
      s,
    )
refused_for_good g fresh r s tool existing keeps served registered taken asks =
    let (gated, _) = Served-AllGated g s keeps served in
    rw
      (
        invoke_replayed g fresh r s tool existing registered taken,
        replay_denied g r existing
            (find-All IsGated (keyed r.workflow_run_id r.idempotency_key) s.session.invocations
              gated taken)
            asks,
      )
      refl
