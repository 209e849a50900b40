-- ===== src/Refund/Notified/Steps.antt =====
-- What the activities of a refund keep at each point of its workflow (workflows/refund).
use mathlib.Core.Option.{some-injective}
use agents_should_survive_fa.Base.{
  ℕ, String, ◌≡◌, ◌≢◌, ◌⊎◌, refl, sym, ap, subst, ◌∙◌, inl, inr, true, Option, none, some, Result,
  ok, err, find, arith,
}
use agents_should_survive_fa.Workflow.Contracts.{
  ApprovalDecisionType, approved, rejected, ApprovalDecisionInput,
}
use agents_should_survive_fa.Refund.State.{RefundWorkflowInput, RefundTables, RefundError, email_of}
use agents_should_survive_fa.Refund.Activities.{
  Decimals, commit_refund_decision, send_refund_notification, request_approval,
}
use agents_should_survive_fa.Refund.Machine.{
  Point, retrieving_order, retrieving_policy, calculating, explaining, requesting, committing,
  notifying, returned, ActivityResult, done, next_point, Answers, run_activity, after_commit,
  verdict_point,
}
use agents_should_survive_fa.Refund.Notified.{
  decision_of, NoEmail, NoDecision, Recorded, is_early, Sound, early, at_commit, at_notification,
  at_return, at_failure,
}
use agents_should_survive_fa.Refund.Notified.Commits.{
  commit-emails, commit-kept, commit-refused, commit-Recorded,
}

kept_Recorded :
    (run_id : ℕ) (verdict : ApprovalDecisionType) (key : String) (t u : RefundTables)
    → u.refund_decisions ≡ t.refund_decisions
    → Recorded run_id verdict key t
    → Recorded run_id verdict key u
kept_Recorded run_id verdict key t u same (row, found, rest, last) =
    (row, ap (find (decision_of run_id)) same ∙ found, rest, last)

commit_answer : (r : Result RefundError (Unit {0})) → (r ≡ ok tt) ⊎ (r ≢ ok tt)
commit_answer (ok tt) = inl refl
commit_answer (err e) = inr (λ h. ground arith)

verdict-cases : (v : ApprovalDecisionType) → (v ≡ approved) ⊎ (v ≡ rejected)
verdict-cases approved = inl refl
verdict-cases rejected = inr refl

module _ (decimals : Decimals) (input : RefundWorkflowInput) (a : Answers) where
  early_activity :
      (p : Point) (t : RefundTables)
      → is_early p ≡ true
      → ((run_activity decimals input a none p t).1.emails ≡ t.emails)
        × ((run_activity decimals input a none p t).1.refund_decisions ≡ t.refund_decisions)
  unfolding run_activity request_approval
  early_activity retrieving_order t e = (refl, refl)
  early_activity (retrieving_policy order) t e = (refl, refl)
  early_activity (calculating order) t e = (ground arith, ground arith)
  early_activity (explaining score) t e = (refl, refl)
  early_activity (requesting score text) t e = (ground arith, ground arith)
  early_activity p t e = (ground arith, ground arith)

  early_next :
      (r : ActivityResult) (p p' : Point)
      → is_early p ≡ true
      → next_point r none p ≡ some p'
      → is_early p' ≡ true
  unfolding next_point
  early_next r p p' e h = ground arith

  notified_activity :
      (d : ApprovalDecisionInput) (t : RefundTables)
      → (run_activity decimals input a (some d) notifying t).1.refund_decisions ≡ t.refund_decisions
  unfolding run_activity send_refund_notification
  notified_activity d t = ground arith

  commit_activity :
      (d : ApprovalDecisionInput) (score : ℕ) (text : String) (t : RefundTables)
      → ((run_activity decimals input a (some d) (committing score text) t).1
          ≡ (commit_refund_decision decimals input (some score) text d t).1)
        × ((r : ActivityResult)
            → (run_activity decimals input a (some d) (committing score text) t).0 ≡ ok r
            → (r ≡ done)
              × ((commit_refund_decision decimals input (some score) text d t).0 ≡ ok tt))
  unfolding run_activity
  commit_activity d score text t = (ground arith, λ r h. (ground arith, ground arith))

  commit_kept_record :
      (d : ApprovalDecisionInput) (score : ℕ) (text : String) (t : RefundTables)
      → NoDecision input.run_id t ⊎ Recorded input.run_id d.decision d.idempotency_key t
      → NoDecision input.run_id (commit_refund_decision decimals input (some score) text d t).1
        ⊎ Recorded input.run_id d.decision d.idempotency_key
            (commit_refund_decision decimals input (some score) text d t).1
  commit_kept_record d score text t (inr recorded) = inr (
      commit-Recorded decimals input score text d t (inr recorded)
        (ap (λ x. x.0) (commit-kept decimals input score text d t recorded)))
  commit_kept_record d score text t (inl missing) =
      elim (commit_answer (commit_refund_decision decimals input (some score) text d t).0) [
        | inl e ↦ inr (commit-Recorded decimals input score text d t (inl missing) e)
        | inr e ↦ inl (
            subst (NoDecision input.run_id)
              (sym (commit-refused decimals input score text d t missing e)) missing)
      ]

  -- An activity that runs, whether its result is delivered or not, keeps what holds at its point.
  pub retry_Sound :
      {o : Option ApprovalDecisionInput} {p : Point} {t : RefundTables}
      → Sound input.run_id o p t
      → Sound input.run_id o p (run_activity decimals input a o p t).1
  unfolding run_activity
  retry_Sound {p} {t} (early e no_email missing) =
      let (emails, rows) = early_activity p t e in
      early e (ap (find (email_of input.run_id)) emails ∙ no_email)
        (ap (find (decision_of input.run_id)) rows ∙ missing)
  retry_Sound {t} (at_commit {score} {text} {d} no_email recorded) =
      subst (Sound input.run_id (some d) (committing score text))
        (sym (commit_activity d score text t).0)
        (at_commit
          (ap (find (email_of input.run_id)) (commit-emails decimals input score text d t)
            ∙ no_email)
          (commit_kept_record d score text t recorded))
  retry_Sound {t} (at_notification {d} yea recorded) = at_notification yea (
      kept_Recorded input.run_id d.decision d.idempotency_key t
        (run_activity decimals input a (some d) notifying t).1 (notified_activity d t) recorded)
  retry_Sound (at_return same recorded no_email) = at_return same recorded no_email
  retry_Sound (at_failure h) = at_failure h

  after_commit-Sound :
      (d : ApprovalDecisionInput) (t : RefundTables)
      → NoEmail input.run_id t
      → Recorded input.run_id d.decision d.idempotency_key t
      → Sound input.run_id (some d) (after_commit (some d)) t
  after_commit-Sound d t no_email recorded = elim (verdict-cases d.decision) [
    | inl e ↦
        subst (λ q. Sound input.run_id (some d) q t) (sym (ap verdict_point e))
          (at_notification e recorded)
    | inr e ↦
        subst (λ q. Sound input.run_id (some d) q t) (sym (ap verdict_point e))
          (at_return e recorded (inl no_email))
  ]

  pub deliver_Sound :
      {o : Option ApprovalDecisionInput} {p p' : Point} {t : RefundTables} {r : ActivityResult}
      → Sound input.run_id o p t
      → (run_activity decimals input a o p t).0 ≡ ok r
      → next_point r o p ≡ some p'
      → Sound input.run_id o p' (run_activity decimals input a o p t).1
  unfolding run_activity next_point
  deliver_Sound {p} {p'} {t} {r} (early e no_email missing) h k =
      let (emails, rows) = early_activity p t e in
      early (early_next r p p' e k) (ap (find (email_of input.run_id)) emails ∙ no_email)
        (ap (find (decision_of input.run_id)) rows ∙ missing)
  deliver_Sound {p'} {t} {r} (at_commit {score} {text} {d} no_email recorded) h k =
      let (same, answered) = commit_activity d score text t in
      let (is_done, committed) = answered r h in
      let next : after_commit (some d) ≡ p' =
        some-injective (after_commit (some d)) p' (rw is_done at k) in
      subst
        (λ q.
          Sound input.run_id (some d) q
            (run_activity decimals input a (some d) (committing score text) t).1)
        next
        (subst (Sound input.run_id (some d) (after_commit (some d))) (sym same) (
          after_commit-Sound d (commit_refund_decision decimals input (some score) text d t).1
            (ap (find (email_of input.run_id)) (commit-emails decimals input score text d t)
              ∙ no_email)
            (commit-Recorded decimals input score text d t recorded committed)))
  deliver_Sound {p'} {t} {r} (at_notification {d} yea recorded) h k =
      let next : returned d.decision ≡ p' = ground arith in
      subst
        (λ q. Sound input.run_id (some d) q (run_activity decimals input a (some d) notifying t).1)
        next
        (at_return {t = (run_activity decimals input a (some d) notifying t).1} refl
          (kept_Recorded input.run_id d.decision d.idempotency_key t
            (run_activity decimals input a (some d) notifying t).1 (notified_activity d t) recorded)
          (inr yea))
  deliver_Sound (at_return same recorded no_email) h k = absurd (ground arith)
  deliver_Sound (at_failure held) h k = absurd (ground arith)
