-- ===== src/Gateway/Gate.antt =====
-- What stands in an attempt that was refused for want of an approval (tool_gateway.py).
pub mod Served
use agents_should_survive_fa.Base.{
  ℕ, ◌≡◌, ◌≢◌, refl, ◌⊎◌, inl, inr, Bool, true, false, Option, none, some, List, ◌∷◌, arith, find,
  err, Result, All, find-All, ap,
}
use agents_should_survive_fa.Gateway.State.{
  denied, ToolDefinition, ToolInvocation, GatewayTables, GatewayState, GatewayError,
  approval_required_error, ToolGateway, InvokeRequest, ToolResult, keyed, versioned,
}
use agents_should_survive_fa.Gateway.Invoke.{
  Refusal, replay, refuses, add_attempt, record_attempt, attempt_row, execute, invocation_row,
  asks_approval, bind_version,
}
use agents_should_survive_fa.Gateway.Outcome.{
  KeepsInvocations, Executed, execute-Executed, bound_tables, Invoked, unregistered, replayed,
  refused, mismatched, executed, invoke-Invoked,
}
use agents_should_survive_fa.Gateway.Replay.{invoke_replayed}
use agents_should_survive_fa.Gateway.Call.{invoke}

-- What `invoke` records of an attempt without an approval has the status DENIED.
abbrev pub IsGated : ToolInvocation → Type 0
IsGated i = (asks_approval i.error_category ≡ false) ⊎ (i.status ≡ denied)

add_attempt_cases :
    (row : ToolInvocation) (t : GatewayTables)
    → ((add_attempt row t).invocations ≡ t.invocations)
      ⊎ ((add_attempt row t).invocations ≡ row ∷ t.invocations)
unfolding add_attempt
add_attempt_cases row t = ground arith

add_attempt-IsGated :
    (row : ToolInvocation) (t : GatewayTables)
    → IsGated row
    → All IsGated t.invocations
    → All IsGated (add_attempt row t).invocations
add_attempt-IsGated row t new gated = elim (add_attempt_cases row t) [
  | inl e ↦ rw e gated
  | inr e ↦ rw e (new, gated)
]

refusal_cases :
    (g : ToolGateway) (r : InvokeRequest) (tool : ToolDefinition) (t : GatewayTables) (f : Refusal)
    → refuses g r tool t ≡ some f
    → (f.status ≡ denied)
      ⊎ (f.category ≡ "handler_unavailable")
      ⊎ (f.category ≡ "invalid_arguments")
unfolding refuses
refusal_cases g r tool t f h = ground arith

attempt-IsGated :
    (g : ToolGateway) (fresh : ℕ) (r : InvokeRequest) (tool : Option ℕ) (f : Refusal)
    (t : GatewayTables) (d : ToolDefinition)
    → refuses g r d t ≡ some f
    → IsGated (attempt_row g fresh r tool f.status f.category)
attempt-IsGated g fresh r tool f t d h = elim (refusal_cases g r d t f h) [
  | inl e ↦ inr e
  | inr (inl e) ↦ inl (ap (λ c. asks_approval (some c)) e)
  | inr (inr e) ↦ inl (ap (λ c. asks_approval (some c)) e)
]

pub recorded-IsGated :
    (audited : Bool) (row : ToolInvocation) (s : GatewayState)
    → IsGated row
    → All IsGated s.session.invocations × All IsGated s.committed.invocations
    → All IsGated (record_attempt audited row s).session.invocations
      × All IsGated (record_attempt audited row s).committed.invocations
unfolding record_attempt
recorded-IsGated true row s new (a, b) =
    (add_attempt-IsGated row s.session new a, add_attempt-IsGated row s.committed new b)
recorded-IsGated false row s new (a, b) = (add_attempt-IsGated row s.session new a, b)

bind_version_invocations :
    (run_id : ℕ) (tool : ToolDefinition) (t : GatewayTables)
    → (bind_version run_id tool t).invocations ≡ t.invocations
unfolding bind_version
bind_version_invocations run_id tool t = ground arith

Executed-IsGated :
    (row : ToolInvocation) (rest : List ToolInvocation)
    (out : Result GatewayError ToolResult × GatewayTables)
    → Executed row rest out
    → row.error_category ≡ none
    → All IsGated rest
    → All IsGated out.1.invocations
Executed-IsGated row rest (result, t) (inl (c, other, _, e)) clean gated = rw e (inl other, gated)
Executed-IsGated row rest (result, t) (inr (v, _, e)) clean gated =
    rw e (inl (rw clean refl), gated)

Invoked-IsGated :
    (g : ToolGateway) (fresh : ℕ) (r : InvokeRequest) (s : GatewayState)
    {out : Result GatewayError ToolResult × GatewayState}
    → KeepsInvocations g
    → Invoked g fresh r s out
    → All IsGated s.session.invocations × All IsGated s.committed.invocations
    → All IsGated out.1.session.invocations × All IsGated out.1.committed.invocations
Invoked-IsGated g fresh r s keeps (unregistered _) gated =
    recorded-IsGated g.audited _ s (inr refl) gated
Invoked-IsGated g fresh r s keeps (replayed tool existing _ _) gated = gated
Invoked-IsGated g fresh r s keeps (refused tool f _ _ h) gated =
    recorded-IsGated g.audited _ s (attempt-IsGated g fresh r (some tool.id) f s.session tool h)
      gated
Invoked-IsGated g fresh r s keeps (mismatched tool _ _ _ _) gated =
    recorded-IsGated g.audited _ (record s { session = bound_tables r tool s }) (inl refl)
      (rw (bind_version_invocations r.workflow_run_id tool s.session) gated.0, gated.1)
Invoked-IsGated g fresh r s keeps (executed tool registered _ _ _ known _) gated = (
  Executed-IsGated (invocation_row g fresh r tool) (bound_tables r tool s).invocations
      (execute g registered fresh r tool (bound_tables r tool s))
      (execute-Executed g fresh r tool (bound_tables r tool s) registered keeps known) refl
      (rw (bind_version_invocations r.workflow_run_id tool s.session) gated.0),
  gated.1,
)

-- Every call keeps the rows gated: where handlers leave the invocation table alone, an attempt with
-- the category "approval_required" has the status DENIED in what the session sees and in what is
-- committed, if it had before.
pub invoke-IsGated :
    (g : ToolGateway) (fresh : ℕ) (r : InvokeRequest) (s : GatewayState)
    → KeepsInvocations g
    → All IsGated s.session.invocations × All IsGated s.committed.invocations
    → All IsGated (invoke g fresh r s).1.session.invocations
      × All IsGated (invoke g fresh r s).1.committed.invocations
invoke-IsGated g fresh r s keeps = Invoked-IsGated g fresh r s keeps (invoke-Invoked g fresh r s)
