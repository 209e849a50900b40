-- ===== src/Refund/Once.antt =====
-- A refund is decided and projected once (workflows/refund/activities.py).
use agents_should_survive_fa.Base.{
  ℕ, String, ◌≡◌, ◌⊎◌, sym, subst, refl, inl, inr, true, Option, none, some, List, [], ◌∷◌, ok,
  find, find-update_first, find_sound, is_some, arith, eq_refl, ==_refl, Option-cases, Bool-cases,
  refl,
}
use agents_should_survive_fa.Models.{ApprovalStatus}
use agents_should_survive_fa.Gateway.State.{ApprovalRequest}
use agents_should_survive_fa.Workflow.Contracts.{
  ApprovalDecisionType, approved, rejected, ApprovalDecisionInput,
}
use agents_should_survive_fa.Refund.State.{
  RefundWorkflowInput, RefundProjection, RefundTables, committed_with, of_refund, refund_request,
}
use agents_should_survive_fa.Refund.Activities.{
  Decimals, commit_refund_decision, project, settle_request, clashes,
}

-- No two projections are of one refund.
abbrev pub OnePerRefund : List RefundProjection → Type 0
OnePerRefund [] = Unit
OnePerRefund (p ∷ ps) = (find (of_refund p.refund_id) ps ≡ none) × OnePerRefund ps

project-OnePerRefund :
    (input : RefundWorkflowInput) (d : ApprovalDecisionType) (ps : List RefundProjection)
    → OnePerRefund ps
    → OnePerRefund (project input d ps)
project-OnePerRefund input rejected ps one = one
project-OnePerRefund input approved ps one =
    elim (Option-cases (find (of_refund input.refund_id) ps)) [
      | inl e ↦ rw e (e, one)
      | inr (own, e) ↦ rw e one
    ]

module _ (decimals : Decimals) (input : RefundWorkflowInput) (score : Option ℕ)
    (explanation : String) (d : ApprovalDecisionInput) (t : RefundTables) where
  commit_refund_decision-projections :
      ((commit_refund_decision decimals input score explanation d t).1.projections ≡ t.projections)
      ⊎ ((commit_refund_decision decimals input score explanation d t).1.projections
          ≡ project input d.decision t.projections)
  unfolding commit_refund_decision
  commit_refund_decision-projections =
      elim (Option-cases
        (find (committed_with input.run_id d.idempotency_key) t.refund_decisions)) [
          | inr (row, e) ↦ inl (ground arith)
          | inl e ↦ elim (Option-cases (find (refund_request input.run_id) t.requests)) [
            | inl f ↦ inl (ground arith)
            | inr (q, f) ↦ elim (Option-cases score) [
              | inl g ↦ inl (ground arith)
              | inr (n, g) ↦ elim (Option-cases (decimals.parse input.amount)) [
                | inl k ↦ inl (ground arith)
                | inr (amount, k) ↦ elim (Bool-cases (clashes input d.decision t.projections)) [
                  | inl c ↦ inl (ground arith)
                  | inr c ↦ inr (rw (commit_refund_decision, e, f, g, k, c) refl)
                ]
              ]
            ]
          ]
        ]

  -- Whatever the commit of a decision answers, tables with at most one projection for each refund
  -- are left with at most one for each.
  pub commit_refund_decision-OnePerRefund :
      OnePerRefund t.projections
      → OnePerRefund (commit_refund_decision decimals input score explanation d t).1.projections
  commit_refund_decision-OnePerRefund one = elim commit_refund_decision-projections [
    | inl e ↦ subst OnePerRefund (sym e) one
    | inr e ↦ subst OnePerRefund (sym e) (project-OnePerRefund input d.decision t.projections one)
  ]

  -- A commit that has returned changes nothing when it is repeated for the same run and key, with
  -- whatever score, explanation and decision.
  pub commit_refund_decision_repeated :
      (again : Option ℕ) (text : String) (d' : ApprovalDecisionInput)
      → d'.idempotency_key ≡ d.idempotency_key
      → (commit_refund_decision decimals input score explanation d t).0 ≡ ok tt
      → commit_refund_decision decimals input again text d'
          (commit_refund_decision decimals input score explanation d t).1
        ≡ (ok tt, (commit_refund_decision decimals input score explanation d t).1)
  unfolding commit_refund_decision
  commit_refund_decision_repeated again text d' same h =
      ground (arith, eq_refl d.idempotency_key, ==_refl input.run_id)

  -- A commit of an approval that returns, where none was made for the run under its key, leaves the
  -- run's request approved and the refund projected.
  pub commit_refund_decision-approved :
      d.decision ≡ approved
      → find (committed_with input.run_id d.idempotency_key) t.refund_decisions ≡ none
      → (commit_refund_decision decimals input score explanation d t).0 ≡ ok tt
      → ((q : ApprovalRequest) × (find
              (refund_request input.run_id)
              (commit_refund_decision decimals input score explanation d t).1.requests
            ≡ some q)
          × (q.status ≡ ApprovalStatus.approved))
        × (is_some (
              find
                (of_refund input.refund_id)
                (commit_refund_decision decimals input score explanation d t).1.projections)
            ≡ true)
  unfolding commit_refund_decision
  commit_refund_decision-approved yea fresh h =
      elim (Option-cases (find (refund_request input.run_id) t.requests)) [
        | inl f ↦ absurd (ground arith)
        | inr (q, f) ↦
            let settled =
              find-update_first (refund_request input.run_id) (settle_request approved) t.requests f
                (find_sound (refund_request input.run_id) t.requests f) in
            (
              (settle_request approved q, ground (arith, settled), refl),
              ground (arith, eq_refl input.refund_id),
            )
      ]
