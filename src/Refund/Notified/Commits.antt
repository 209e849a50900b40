-- ===== src/Refund/Notified/Commits.antt =====
-- What a commit leaves on record (workflows/refund/activities.py).
use mathlib.Core.Option.{some-injective}
use agents_should_survive_fa.Base.{
  ℕ, String, ◌≡◌, ◌≢◌, ◌⊎◌, refl, sym, ap, subst, ◌∙◌, inl, inr, true, none, some, List, [], ◌∷◌,
  ok, ◌==◌, find, is_some, arith, eq_refl, eq_iff, ==_refl, Option-cases, Bool-cases,
}
use agents_should_survive_fa.Workflow.Contracts.{ApprovalDecisionInput}
use agents_should_survive_fa.Refund.State.{
  RefundWorkflowInput, RefundDecision, RefundTables, committed_with, refund_request,
}
use agents_should_survive_fa.Refund.Activities.{Decimals, commit_refund_decision, decision_row}
use agents_should_survive_fa.Refund.Notified.{decision_of, NoDecision, Recorded}

-- A clause that selects fewer rows finds none where the other finds none.
fewer_none :
    (run_id : ℕ) (key : String) (rows : List RefundDecision)
    → find (decision_of run_id) rows ≡ none
    → find (committed_with run_id key) rows ≡ none
fewer_none run_id key [] h = refl
fewer_none run_id key (row ∷ rows) h = ground (arith, fewer_none run_id key rows)

fewer_some :
    (run_id : ℕ) (key : String) (rows : List RefundDecision) {row : RefundDecision}
    → find (decision_of run_id) rows ≡ some row
    → row.idempotency_key ≡ key
    → is_some (find (committed_with run_id key) rows) ≡ true
fewer_some run_id key [] h same = absurd (ground arith)
fewer_some run_id key (own ∷ rows) {row} h same =
    elim (Bool-cases (own.workflow_run_id == run_id)) [
      | inl e ↦
          let taken : own ≡ row = some-injective own row (rw e at h) in
          let key_eq : own.idempotency_key ≡ key = ap (λ r. r.idempotency_key) taken ∙ same in
          ground (arith, eq_iff own.idempotency_key key, eq_refl key)
      | inr e ↦ ground (arith, fewer_some run_id key rows (rw e at h) same)
    ]

module _ (decimals : Decimals) (input : RefundWorkflowInput) (score : ℕ) (text : String)
    (d : ApprovalDecisionInput) (t : RefundTables) where
  pub commit-emails :
      (commit_refund_decision decimals input (some score) text d t).1.emails ≡ t.emails
  unfolding commit_refund_decision
  commit-emails = ground arith

  pub commit-kept :
      Recorded input.run_id d.decision d.idempotency_key t
      → commit_refund_decision decimals input (some score) text d t ≡ (ok tt, t)
  unfolding commit_refund_decision
  commit-kept (row, found, verdict, key) =
      ground (arith, fewer_some input.run_id d.idempotency_key t.refund_decisions found key)

  commit-made :
      NoDecision input.run_id t
      → (commit_refund_decision decimals input (some score) text d t).0 ≡ ok tt
      → (commit_refund_decision decimals input (some score) text d t).1.refund_decisions
        ≡ decision_row input score text d ∷ t.refund_decisions
  unfolding commit_refund_decision
  commit-made missing h =
      let unkeyed = fewer_none input.run_id d.idempotency_key t.refund_decisions missing in
      elim (Option-cases (find (refund_request input.run_id) t.requests)) [
        | inl e ↦ absurd (ground arith)
        | inr (q, e) ↦ elim (Option-cases (decimals.parse input.amount)) [
          | inl f ↦ absurd (ground arith)
          | inr (amount, f) ↦ ground arith
        ]
      ]

  pub commit-refused :
      NoDecision input.run_id t
      → (commit_refund_decision decimals input (some score) text d t).0 ≢ ok tt
      → (commit_refund_decision decimals input (some score) text d t).1 ≡ t
  unfolding commit_refund_decision
  commit-refused missing h = ground arith

  pub commit-Recorded :
      NoDecision input.run_id t ⊎ Recorded input.run_id d.decision d.idempotency_key t
      → (commit_refund_decision decimals input (some score) text d t).0 ≡ ok tt
      → Recorded input.run_id d.decision d.idempotency_key
          (commit_refund_decision decimals input (some score) text d t).1
  commit-Recorded (inl missing) h = (
    decision_row input score text d,
    rw (commit-made missing h) (rw (==_refl input.run_id) refl),
    refl,
    refl,
  )
  commit-Recorded (inr recorded) h =
      subst (λ u. Recorded input.run_id d.decision d.idempotency_key u.1)
        (sym (commit-kept recorded)) recorded
