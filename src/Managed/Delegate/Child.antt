-- ===== src/Managed/Delegate/Child.antt =====
-- The run that a delegation creates (workflows/managed_activities.py, workflow_starts.py).
use mathlib.Core.Option.{some-injective}
use agents_should_survive_fa.Base.{
  ℕ, String, ◌≡◌, refl, sym, ap, ◌∙◌, subst, inl, inr, false, none, some, List, [], ◌∷◌, ◌++◌, ◌==◌,
  ok, find, select_where, map, arith, ==_refl, Bool-cases, Result-cases,
}
use agents_should_survive_fa.Json.{Fields}
use agents_should_survive_fa.Models.{WorkflowRun}
use agents_should_survive_fa.Gateway.State.{RunToolGrantSnapshot}
use agents_should_survive_fa.Starts.State.{AgentToolGrant, requested}
use agents_should_survive_fa.Starts.Create.{snapshot_of}
use agents_should_survive_fa.Managed.State.{AgentMetadata, Agent, ManagedTables}
use agents_should_survive_fa.Managed.Create.{
  ManagedRequest, delegation_row, grants_tool, create_or_get_managed_agent,
}
use agents_should_survive_fa.Managed.Create.Repeated.{created_run}
use agents_should_survive_fa.Managed.Delegate.{
  Delegate, run_with, snapshot_tools, granted_tools, check_delegation, child_request, delegate,
}
use agents_should_survive_fa.Managed.Delegate.Attenuation.{
  Tools, Permits, permits, check_delegation-Permits,
}

-- The tools of the agent are those that the new run may be granted.
child_snapshots :
    (fresh agent_id : ℕ) (r : ManagedRequest) (gs : List AgentToolGrant)
    (ss : List RunToolGrantSnapshot) (parent_id : ℕ) (own : List RunToolGrantSnapshot)
    → r.agent_id ≡ agent_id
    → Tools parent_id own (granted_tools agent_id gs)
    → snapshot_tools fresh ss ≡ []
    → Tools parent_id own
        (snapshot_tools fresh (map (snapshot_of fresh) (select_where (grants_tool r) gs) ++ ss))
child_snapshots fresh agent_id r [] ss parent_id own same tools none_yet =
    subst (Tools parent_id own) (sym none_yet) tt
child_snapshots fresh agent_id r (g ∷ gs) ss parent_id own same tools none_yet =
    elim (Bool-cases (g.agent_id == agent_id)) [
      | inl e ↦
          let (first, rest) = rw e at tools in
          elim (Bool-cases (grants_tool r g)) [
            | inl k ↦ rw k (
                rw (==_refl fresh)
                  (first, child_snapshots fresh agent_id r gs ss parent_id own same rest none_yet))
            | inr k ↦ rw k (child_snapshots fresh agent_id r gs ss parent_id own same rest none_yet)
          ]
      | inr e ↦
          let skipped : grants_tool r g ≡ false = ground arith in
          rw skipped
            (child_snapshots fresh agent_id r gs ss parent_id own same (rw e at tools) none_yet)
    ]

-- The rows that the creation of a child adds.
abbrev ChildRows : ℕ → ℕ → ManagedRequest → ManagedTables → ManagedTables → Type 0
ChildRows fresh parent_id r t u =
    (u.snapshots ≡ map (snapshot_of fresh) (select_where (grants_tool r) t.grants) ++ t.snapshots)
    × (u.delegations ≡ delegation_row fresh parent_id r ∷ t.delegations)
    × (u.agents ≡ t.agents)

module _ (fingerprint : ℕ → Fields → String) (now fresh parent_id : ℕ) (r : ManagedRequest)
    (t : ManagedTables) (run : WorkflowRun) where
  pub created :
      r.parent_run_id ≡ some parent_id
      → find (requested r.requested_by_id r.idempotency_key) t.runtime.runs ≡ none
      → (create_or_get_managed_agent fingerprint now fresh r t).0 ≡ ok run
      → ChildRows fresh parent_id r t (create_or_get_managed_agent fingerprint now fresh r t).1
  unfolding create_or_get_managed_agent
  created parent new h = (ground arith, ground arith, ground arith)

module _ (key : ℕ → Delegate → String) (fingerprint : ℕ → Fields → String)
    (fuel now fresh run_id : ℕ) (own : AgentMetadata) (d : Delegate) (t : ManagedTables) where
  same_parent :
      (own_parent parent : WorkflowRun) (child : Agent)
      → check_delegation fuel run_id own d t ≡ ok (own_parent, child)
      → find (run_with run_id) t.runtime.runs ≡ some parent
      → own_parent ≡ parent
  same_parent own_parent parent child f found =
      let p = check_delegation-Permits fuel run_id own d t own_parent child f in
      elim p [
        | permits there _ _ _ _ _ _ _ _ _ _ ↦ some-injective own_parent parent (sym there ∙ found)
      ]

  permitted-Tools :
      (parent : WorkflowRun) (child : Agent)
      → Permits fuel run_id own d t parent child
      → Tools parent.id t.snapshots (granted_tools child.id t.grants)
  permitted-Tools parent child (permits _ _ _ _ _ _ _ _ _ _ tools) = tools

  pub delegate-created :
      (parent : WorkflowRun) (child : Agent)
      → check_delegation fuel run_id own d t ≡ ok (parent, child)
      → delegate key fingerprint fuel now fresh run_id own d t
        ≡ create_or_get_managed_agent fingerprint now fresh
            (child_request (key run_id d) d parent child t.grants)
            t
  unfolding delegate
  delegate-created parent child e = rw (delegate, e) refl

  -- The parent that the check returns is the one that stands in the table.
  pub checked :
      (parent run : WorkflowRun)
      → find (run_with run_id) t.runtime.runs ≡ some parent
      → (delegate key fingerprint fuel now fresh run_id own d t).0 ≡ ok run
      → (child : Agent) × (check_delegation fuel run_id own d t ≡ ok (parent, child))
  unfolding delegate
  checked parent run found h = elim (Result-cases (check_delegation fuel run_id own d t)) [
    | inr (e, f) ↦ absurd (ground (arith, rw (delegate, f) at h))
    | inl ((own_parent, child), f) ↦
        let same : own_parent ≡ parent = same_parent own_parent parent child f found in
        (child, subst (λ x. check_delegation fuel run_id own d t ≡ ok (x, child)) same f)
  ]

  attenuates_for :
      (parent run : WorkflowRun) (child : Agent)
      → check_delegation fuel run_id own d t ≡ ok (parent, child)
      → find (requested parent.requested_by_id (key run_id d)) t.runtime.runs ≡ none
      → snapshot_tools fresh t.snapshots ≡ []
      → (create_or_get_managed_agent fingerprint now fresh
          (child_request (key run_id d) d parent child t.grants)
          t).0
        ≡ ok run
      → Tools parent.id t.snapshots (
          snapshot_tools run.id
            (create_or_get_managed_agent fingerprint now fresh
              (child_request (key run_id d) d parent child t.grants)
              t).1.snapshots)
  attenuates_for parent run child e new blank h =
      let r = child_request (key run_id d) d parent child t.grants in
      let (snapshots, _, _) = created fingerprint now fresh parent.id r t run refl new h in
      let (same, _) = created_run fingerprint r now fresh t run new h in
      let id : fresh ≡ run.id = ap (λ x. x.id) same in
      let tools =
        permitted-Tools parent child
          (check_delegation-Permits fuel run_id own d t parent child e) in
      subst (λ ns. Tools parent.id t.snapshots (snapshot_tools run.id ns)) (sym snapshots)
        (subst
          (λ n. Tools parent.id t.snapshots (
            snapshot_tools n
              (map (snapshot_of fresh) (select_where (grants_tool r) t.grants) ++ t.snapshots)))
          id
          (child_snapshots fresh child.id r t.grants t.snapshots parent.id t.snapshots refl tools
            blank))

  -- The run of a new delegation has no tool that its parent's run lacks: where the parent has no run
  -- under the delegation's key yet, and the tables no tool of the new identifier, every tool in the
  -- snapshot of the returned run is one of the parent's.
  pub delegate_attenuates :
      (parent run : WorkflowRun)
      → find (run_with run_id) t.runtime.runs ≡ some parent
      → find (requested parent.requested_by_id (key run_id d)) t.runtime.runs ≡ none
      → snapshot_tools fresh t.snapshots ≡ []
      → (delegate key fingerprint fuel now fresh run_id own d t).0 ≡ ok run
      → Tools parent.id t.snapshots (
          snapshot_tools run.id
            (delegate key fingerprint fuel now fresh run_id own d t).1.snapshots)
  delegate_attenuates parent run found new blank h =
      let (child, e) = checked parent run found h in
      let same = delegate-created parent child e in
      subst (λ x. Tools parent.id t.snapshots (snapshot_tools run.id x.1.snapshots)) (sym same)
        (attenuates_for parent run child e new blank (ap (λ x. x.0) (sym same) ∙ h))
