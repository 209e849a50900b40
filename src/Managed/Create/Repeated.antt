-- ===== src/Managed/Create/Repeated.antt =====
-- A creation that is repeated (workflow_starts.py).
use agents_should_survive_fa.Base.{
  ℕ, String, ◌≡◌, sym, ap, ◌∙◌, inl, inr, none, some, ◌∷◌, ok, find, arith, eq_refl, eq_iff,
  ==_refl, Option-cases, Result-cases, ok-injective,
}
use agents_should_survive_fa.Json.{Fields}
use agents_should_survive_fa.Models.{WorkflowRun}
use agents_should_survive_fa.Starts.State.{requested}
use agents_should_survive_fa.Runtime.State.{RuntimeTables}
use agents_should_survive_fa.Runtime.Budget.{consume_budget}
use agents_should_survive_fa.Base.Int.{ℤ}
use agents_should_survive_fa.Base.Dict.{Dict}
use agents_should_survive_fa.Managed.State.{ManagedTables, ManagedError}
use agents_should_survive_fa.Managed.Create.{
  ManagedRequest, check_request, managed_run, insert_managed, create_or_get_managed_agent,
  child_cost,
}

pub consume_budget-runs :
    (now run_id : ℕ) (amount : Dict ℤ) (s : RuntimeTables)
    → (consume_budget now run_id amount s).1.runs ≡ s.runs
unfolding consume_budget
consume_budget-runs now run_id amount s = ground arith

module _ (fingerprint : ℕ → Fields → String) (r : ManagedRequest) where
  -- A request that finds its run under its principal and key is answered with it.
  found_again :
      (now fresh : ℕ) (t : ManagedTables) (run : WorkflowRun)
      → check_request r ≡ none
      → find (requested r.requested_by_id r.idempotency_key) t.runtime.runs ≡ some run
      → run.request_fingerprint ≡ fingerprint r.agent_id r.task
      → create_or_get_managed_agent fingerprint now fresh r t ≡ (ok run, t)
  unfolding create_or_get_managed_agent
  found_again now fresh t run accepted found same =
      ground (arith, eq_refl (fingerprint r.agent_id r.task))

  module _ (now fresh : ℕ) (t : ManagedTables) (run : WorkflowRun) where
    created_answer :
        find (requested r.requested_by_id r.idempotency_key) t.runtime.runs ≡ none
        → (create_or_get_managed_agent fingerprint now fresh r t).0 ≡ ok run
        → ((create_or_get_managed_agent fingerprint now fresh r t).0
            ≡ ok (managed_run fresh r (fingerprint r.agent_id r.task)))
          × ((create_or_get_managed_agent fingerprint now fresh r t).1.runtime.runs
              ≡ managed_run fresh r (fingerprint r.agent_id r.task) ∷ t.runtime.runs)
    unfolding create_or_get_managed_agent
    created_answer new h = elim (Option-cases (check_request r)) [
      | inr (text, e) ↦ absurd (ground arith)
      | inl e ↦ elim (Option-cases r.parent_run_id) [
        | inl f ↦ (ground arith, ground arith)
        | inr (parent, f) ↦
            let rows = (insert_managed fresh r (fingerprint r.agent_id r.task) t).runtime in
            let kept = consume_budget-runs now parent child_cost rows in
            elim (Result-cases (consume_budget now parent child_cost rows).0) [
              | inr (refused, k) ↦ absurd (ground arith)
              | inl (charged, k) ↦ (ground arith, ground arith)
            ]
      ]
    ]

    -- A new run is the returned one, and stands first in the table.
    pub created_run :
        find (requested r.requested_by_id r.idempotency_key) t.runtime.runs ≡ none
        → (create_or_get_managed_agent fingerprint now fresh r t).0 ≡ ok run
        → (managed_run fresh r (fingerprint r.agent_id r.task) ≡ run)
          × ((create_or_get_managed_agent fingerprint now fresh r t).1.runtime.runs
              ≡ run ∷ t.runtime.runs)
    created_run new h =
        let (answer, rows) = created_answer new h in
        let same =
          ok-injective ManagedError WorkflowRun
            (managed_run fresh r (fingerprint r.agent_id r.task)) run (sym answer ∙ h) in
        (same, rows ∙ ap (λ x. x ∷ t.runtime.runs) same)

    -- What stands in the table after a creation that returned.
    stands :
        (create_or_get_managed_agent fingerprint now fresh r t).0 ≡ ok run
        → (check_request r ≡ none)
          × (find
                (requested r.requested_by_id r.idempotency_key)
                (create_or_get_managed_agent fingerprint now fresh r t).1.runtime.runs
              ≡ some run)
          × (run.request_fingerprint ≡ fingerprint r.agent_id r.task)
    unfolding create_or_get_managed_agent
    stands h = elim (Option-cases (check_request r)) [
      | inr (text, e) ↦ absurd (ground arith)
      | inl e ↦
          elim (Option-cases
            (find (requested r.requested_by_id r.idempotency_key) t.runtime.runs)) [
              | inr (own, f) ↦ (
                e,
                ground arith,
                ground (arith, eq_iff own.request_fingerprint (fingerprint r.agent_id r.task)),
              )
              | inl f ↦
                  let (same, rows) = created_run f h in
                  (
                    e,
                    ap (find (requested r.requested_by_id r.idempotency_key)) rows
                        ∙ ap (find (requested r.requested_by_id r.idempotency_key))
                            (ap (λ x. x ∷ t.runtime.runs) (sym same))
                        ∙ ground
                            (arith, same, eq_refl r.idempotency_key, ==_refl r.requested_by_id),
                    ap (λ x. x.request_fingerprint) (sym same),
                  )
            ]
    ]

  -- A creation that returned a run returns it again and changes nothing when it is repeated, at any time
  -- and whatever identifier the repetition draws: a parent is charged for the child once.
  pub create_or_get_managed_agent_repeated :
      (now fresh later again : ℕ) (t : ManagedTables) (run : WorkflowRun)
      → (create_or_get_managed_agent fingerprint now fresh r t).0 ≡ ok run
      → create_or_get_managed_agent fingerprint later again r
          (create_or_get_managed_agent fingerprint now fresh r t).1
        ≡ (ok run, (create_or_get_managed_agent fingerprint now fresh r t).1)
  create_or_get_managed_agent_repeated now fresh later again t run h =
      let (accepted, found, same) = stands now fresh t run h in
      found_again later again (create_or_get_managed_agent fingerprint now fresh r t).1 run accepted
        found same
