-- ===== src/Managed/Delegate/Retry.antt =====
-- A delegation that is retried (workflows/managed_activities.py).
use agents_should_survive_fa.Base.{
  ℕ, String, ◌≡◌, ◌≢◌, ◌≤◌, ◌+◌, refl, sym, ap, ◌∙◌, subst, true, false, none, some, List, ◌∷◌, ok,
  err, find, arith, ==_refl, ==_iff,
}
use agents_should_survive_fa.Json.{Fields}
use agents_should_survive_fa.Models.{WorkflowRun}
use agents_should_survive_fa.Starts.State.{requested}
use agents_should_survive_fa.Managed.State.{
  AgentMetadata, Agent, RunDelegation, ManagedTables, ManagedError, capability_denied,
}
use agents_should_survive_fa.Managed.Create.{
  ManagedRequest, delegation_row, create_or_get_managed_agent,
}
use agents_should_survive_fa.Managed.Create.Repeated.{created_run}
use agents_should_survive_fa.Managed.Delegate.{
  Delegate, run_with, installed, children, may_delegate, is_cancelled, check_authority,
  check_delegation, child_request, delegate,
}
use agents_should_survive_fa.Managed.Delegate.Attenuation.{
  Permits, permits, check_delegation-Permits,
}
use agents_should_survive_fa.Managed.Delegate.Child.{created, checked, delegate-created}

module _ (fuel run_id : ℕ) (own : AgentMetadata) (d : Delegate) (t u : ManagedTables)
    (parent : WorkflowRun) (child : Agent) where
  allowed_parts :
      check_delegation fuel run_id own d t ≡ ok (parent, child)
      → find (run_with run_id) t.runtime.runs ≡ some parent
      → (may_delegate own.required_capabilities ≡ true) × (is_cancelled parent.status ≡ false)
  unfolding check_delegation
  allowed_parts e found = (ground arith, ground arith)

  -- A parent with as many children as its fan-out allows is refused before the lineage is walked.
  full_fan_out :
      Permits fuel run_id own d t parent child
      → check_delegation fuel run_id own d t ≡ ok (parent, child)
      → find (run_with run_id) u.runtime.runs ≡ some parent
      → find (installed d.agent_slug) u.agents ≡ some child
      → own.delegation_policy.max_fan_out ≤ children parent.id u.delegations
      → check_delegation fuel run_id own d u
        ≡ err (capability_denied "delegation exceeds the pinned maximum fan-out")
  unfolding check_delegation check_authority
  full_fan_out (permits found slug _ deep shallow _ _ _ _ _ _) e still agent full =
      ground (arith, allowed_parts e found)

  permitted_agent :
      Permits fuel run_id own d t parent child → find (installed d.agent_slug) t.agents ≡ some child
  permitted_agent (permits _ _ agent _ _ _ _ _ _ _ _) = agent

later_run :
    (run_id : ℕ) (run : WorkflowRun) (runs : List WorkflowRun) (parent : WorkflowRun) {fresh : ℕ}
    → fresh ≡ run.id
    → fresh ≢ run_id
    → find (run_with run_id) runs ≡ some parent
    → find (run_with run_id) (run ∷ runs) ≡ some parent
later_run run_id run runs parent id apart found = ground (arith, ==_iff run.id run_id)

more_children :
    (fresh parent_id : ℕ) (r : ManagedRequest) (ds : List RunDelegation) (most : ℕ)
    → most ≡ children parent_id ds + 1
    → most ≤ children parent_id (delegation_row fresh parent_id r ∷ ds)
more_children fresh parent_id r ds most full = ground (arith, ==_refl parent_id)

module _ (key : ℕ → Delegate → String) (fingerprint : ℕ → Fields → String)
    (fuel now fresh run_id : ℕ) (own : AgentMetadata) (d : Delegate) (t : ManagedTables) where
  refused_again :
      (again later : ℕ) (u : ManagedTables) (e : ManagedError)
      → check_delegation fuel run_id own d u ≡ err e
      → (delegate key fingerprint fuel later again run_id own d u).0 ≡ err e
  unfolding delegate
  refused_again again later u e refused = rw (delegate, refused) refl

  -- The child of a delegation is counted, and its parent and agent are found as before.
  created_full :
      (parent run : WorkflowRun) (child : Agent)
      → check_delegation fuel run_id own d t ≡ ok (parent, child)
      → find (run_with run_id) t.runtime.runs ≡ some parent
      → find (requested parent.requested_by_id (key run_id d)) t.runtime.runs ≡ none
      → fresh ≢ run_id
      → own.delegation_policy.max_fan_out ≡ children parent.id t.delegations + 1
      → (create_or_get_managed_agent fingerprint now fresh
          (child_request (key run_id d) d parent child t.grants)
          t).0
        ≡ ok run
      → check_delegation fuel run_id own d
          (create_or_get_managed_agent fingerprint now fresh
            (child_request (key run_id d) d parent child t.grants)
            t).1
        ≡ err (capability_denied "delegation exceeds the pinned maximum fan-out")
  created_full parent run child e found new apart full h =
      let r = child_request (key run_id d) d parent child t.grants in
      let u = (create_or_get_managed_agent fingerprint now fresh r t).1 in
      let (_, rows, agents) = created fingerprint now fresh parent.id r t run refl new h in
      let (same, runs) = created_run fingerprint r now fresh t run new h in
      let id : fresh ≡ run.id = ap (λ x. x.id) same in
      let p = check_delegation-Permits fuel run_id own d t parent child e in
      full_fan_out fuel run_id own d t u parent child p e
        (ap (find (run_with run_id)) runs
          ∙ later_run run_id run t.runtime.runs parent id apart found)
        (ap (find (installed d.agent_slug)) agents
          ∙ permitted_agent fuel run_id own d t u parent child p)
        (subst (λ ds. own.delegation_policy.max_fan_out ≤ children parent.id ds) (sym rows)
          (more_children fresh parent.id r t.delegations own.delegation_policy.max_fan_out full))

  -- A delegation that used up the fan-out of its policy is refused when it is repeated, although its
  -- idempotency key stands for a run that exists: the fan-out is checked before the key. The parent is
  -- in the table, had no run under the key, and the new identifier is not its own.
  pub delegate_retried_refused :
      (again later : ℕ) (parent run : WorkflowRun)
      → find (run_with run_id) t.runtime.runs ≡ some parent
      → find (requested parent.requested_by_id (key run_id d)) t.runtime.runs ≡ none
      → fresh ≢ run_id
      → own.delegation_policy.max_fan_out ≡ children parent.id t.delegations + 1
      → (delegate key fingerprint fuel now fresh run_id own d t).0 ≡ ok run
      → (delegate key fingerprint fuel later again run_id own d
          (delegate key fingerprint fuel now fresh run_id own d t).1).0
        ≡ err (capability_denied "delegation exceeds the pinned maximum fan-out")
  delegate_retried_refused again later parent run found new apart full h =
      let (child, e) = checked key fingerprint fuel now fresh run_id own d t parent run found h in
      let same = delegate-created key fingerprint fuel now fresh run_id own d t parent child e in
      let made = ap (λ x. x.0) (sym same) ∙ h in
      refused_again again later (delegate key fingerprint fuel now fresh run_id own d t).1 _ (
        subst
          (λ x.
            check_delegation fuel run_id own d x.1
            ≡ err (capability_denied "delegation exceeds the pinned maximum fan-out"))
          (sym same) (created_full parent run child e found new apart full made))
