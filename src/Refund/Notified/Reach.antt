-- ===== src/Refund/Notified/Reach.antt =====
-- No e-mail of a refund before an approval is on record (workflows/refund).
use agents_should_survive_fa.Base.{
  ℕ, String, ◌≡◌, refl, sym, subst, inl, inr, Bool, true, false, Option, none, some, ◌&&◌, find,
  is_some, arith, Option-cases, Bool-cases,
}
use agents_should_survive_fa.Workflow.Contracts.{
  ApprovalDecisionType, approved, ApprovalDecisionInput,
}
use agents_should_survive_fa.Refund.State.{RefundWorkflowInput, RefundEmail, RefundTables, email_of}
use agents_should_survive_fa.Refund.Activities.{Decimals}
use agents_should_survive_fa.Refund.Machine.{
  Point, waiting, committing, notifying, returned, failed, RefundWorkflow, start, decide,
  validate_decision, ActivityResult, next_point, resume, run_activity, RefundStep, delivers,
  retries, fails, decides, RefundReach, starts, then_step, wake, request_id,
}
use agents_should_survive_fa.Refund.Notified.{
  NoEmail, NoDecision, Recorded, is_early, Sound, early, at_commit, at_notification, at_return,
  at_failure,
}
use agents_should_survive_fa.Refund.Notified.Steps.{retry_Sound, deliver_Sound}

approved_Recorded :
    (run_id : ℕ) (d : ApprovalDecisionInput) (t : RefundTables)
    → d.decision ≡ approved
    → Recorded run_id d.decision d.idempotency_key t
    → (key : String) × Recorded run_id approved key t
approved_Recorded run_id d t yea recorded =
    (d.idempotency_key, subst (λ v. Recorded run_id v d.idempotency_key t) yea recorded)

abbrev is_asking : Point → Bool
is_asking (waiting _ _) = false
is_asking (committing _ _) = false
is_asking notifying = false
is_asking (returned _) = false
is_asking failed = false
is_asking _ = true

wake_asked : (p : Point) → is_asking p ≡ false → is_asking (wake p) ≡ false
wake_asked (waiting score text) h = refl
wake_asked p h = ground arith

module _ {run_id : ℕ} where
  fail_Sound :
      {o : Option ApprovalDecisionInput} {p : Point} {t : RefundTables}
      → Sound run_id o p t
      → Sound run_id o failed t
  fail_Sound (early e no_email missing) = at_failure (inl no_email)
  fail_Sound (at_commit no_email recorded) = at_failure (inl no_email)
  fail_Sound {t} (at_notification {d} yea recorded) =
      at_failure (inr (approved_Recorded run_id d t yea recorded))
  fail_Sound (at_return same recorded (inl no_email)) = at_failure (inl no_email)
  fail_Sound {t} (at_return {d} same recorded (inr yea)) =
      at_failure (inr (approved_Recorded run_id d t yea recorded))
  fail_Sound (at_failure held) = at_failure held

  wake_early :
      (d : ApprovalDecisionInput) (p : Point) (t : RefundTables)
      → is_asking p ≡ false
      → is_early p ≡ true
      → NoEmail run_id t
      → NoDecision run_id t
      → Sound run_id (some d) (wake p) t
  wake_early d (waiting score text) t asked e no_email missing = at_commit no_email (inl missing)
  wake_early d p t asked e no_email missing = absurd (ground arith)

  -- A decision that finds `run` past the request, and without one, wakes it.
  accept_Sound :
      (d : ApprovalDecisionInput) {p : Point} {t : RefundTables}
      → is_asking p ≡ false
      → Sound run_id none p t
      → Sound run_id (some d) (wake p) t
  accept_Sound d {p} {t} asked (early e no_email missing) =
      wake_early d p t asked e no_email missing
  accept_Sound d asked (at_failure held) = at_failure held

-- What holds of a run and its tables, and that the identifier of the request is set after the request.
abbrev pub Held : ℕ → RefundWorkflow → RefundTables → Type 0
Held run_id w t =
    Sound run_id w.decision w.point t × (is_some w.approval_request_id && is_asking w.point ≡ false)

decide-Held :
    (run_id : ℕ) (d : ApprovalDecisionInput) (w : RefundWorkflow) (t : RefundTables)
    → Held run_id w t
    → Held run_id (decide d w) t
unfolding decide validate_decision
decide-Held run_id d w t (held, asked) = elim (Bool-cases (validate_decision d w)) [
  | inl refused ↦ rw (decide, refused) (held, asked)
  | inr accepted ↦
      let past : is_asking w.point ≡ false = ground arith in
      let undecided : w.decision ≡ none = ground arith in
      rw (decide, accepted)
        (
          accept_Sound d past (subst (λ o. Sound run_id o w.point t) undecided held),
          ground (arith, wake_asked w.point past),
        )
]

next_asked :
    (r : ActivityResult) (o : Option ApprovalDecisionInput) (p q : Point) (own : Option ℕ)
    → next_point r o p ≡ some q
    → is_some own && is_asking p ≡ false
    → is_some (request_id r own) && is_asking q ≡ false
unfolding next_point
next_asked r o p q own h asked = ground arith

resume_parts :
    (r : ActivityResult) (w w' : RefundWorkflow)
    → resume r w ≡ some w'
    → (w'.decision ≡ w.decision)
      × (next_point r w.decision w.point ≡ some w'.point)
      × (w'.approval_request_id ≡ request_id r w.approval_request_id)
unfolding resume
resume_parts r w w' h = elim (Option-cases (next_point r w.decision w.point)) [
  | inl e ↦ absurd (ground arith)
  | inr (q, e) ↦ (ground arith, ground arith, ground arith)
]

module _ (decimals : Decimals) (input : RefundWorkflowInput) where
  step_Held :
      {w w' : RefundWorkflow} {t t' : RefundTables}
      → RefundStep decimals input w t w' t'
      → Held input.run_id w t
      → Held input.run_id w' t'
  step_Held {w} {w'} {t} (delivers a {r} h k) (held, asked) =
      let (same, next, id) = resume_parts r w w' k in
      (
        subst
            (λ o.
              Sound input.run_id o w'.point (run_activity decimals input a w.decision w.point t).1)
            (sym same) (deliver_Sound decimals input a held h next),
        rw id (next_asked r w.decision w.point w'.point w.approval_request_id next asked),
      )
  step_Held (retries a) (held, asked) = (retry_Sound decimals input a held, asked)
  step_Held (fails h) (held, asked) = (fail_Sound held, ground arith)
  step_Held {w} {t} (decides d) held = decide-Held input.run_id d w t held

  reach_Held :
      {t : RefundTables} {w : RefundWorkflow} {u : RefundTables}
      → NoEmail input.run_id t
      → NoDecision input.run_id t
      → RefundReach decimals input t w u
      → Held input.run_id w u
  unfolding start
  reach_Held no_email missing starts = (early refl no_email missing, refl)
  reach_Held no_email missing (then_step reached step) =
      step_Held step (reach_Held no_email missing reached)

  Sound-email :
      (o : Option ApprovalDecisionInput) (p : Point) (u : RefundTables) (e : RefundEmail)
      → Sound input.run_id o p u
      → find (email_of input.run_id) u.emails ≡ some e
      → (key : String) × Recorded input.run_id approved key u
  Sound-email o p u e (early _ no_email _) h = absurd (ground arith)
  Sound-email o p u e (at_commit no_email _) h = absurd (ground arith)
  Sound-email o p u e (at_notification {d} yea recorded) h =
      approved_Recorded input.run_id d u yea recorded
  Sound-email o p u e (at_return same recorded (inl no_email)) h = absurd (ground arith)
  Sound-email o p u e (at_return {d} same recorded (inr yea)) h =
      approved_Recorded input.run_id d u yea recorded
  Sound-email o p u e (at_failure (inl no_email)) h = absurd (ground arith)
  Sound-email o p u e (at_failure (inr recorded)) h = recorded

  -- A workflow that starts where its run has neither an e-mail nor a decision on record never leaves
  -- an e-mail of the run, after any steps, retries, failures and updates, unless the newest decision
  -- on record for the run is an approval.
  pub mail_follows_approval :
      (t u : RefundTables) (w : RefundWorkflow)
      → NoEmail input.run_id t
      → NoDecision input.run_id t
      → RefundReach decimals input t w u
      → (e : RefundEmail) → find (email_of input.run_id) u.emails ≡ some e
      → (key : String) × Recorded input.run_id approved key u
  mail_follows_approval t u w no_email missing reached e h =
      Sound-email w.decision w.point u e (reach_Held no_email missing reached).0 h

  Sound-returned :
      {o : Option ApprovalDecisionInput} {verdict : ApprovalDecisionType} {u : RefundTables}
      → Sound input.run_id o (returned verdict) u
      → (d : ApprovalDecisionInput) × (o ≡ some d)
        × (d.decision ≡ verdict)
        × Recorded input.run_id d.decision d.idempotency_key u
  Sound-returned (at_return {d} same recorded _) = (d, refl, same, recorded)
  Sound-returned (early e _ _) = absurd (ground arith)

  -- The verdict that a workflow returns, from tables where its run has neither an e-mail nor a decision
  -- on record, is that of the decision it accepted, and the newest decision on record for the run has
  -- that verdict and its key.
  pub returned_verdict :
      (t u : RefundTables) (w : RefundWorkflow) (verdict : ApprovalDecisionType)
      → NoEmail input.run_id t
      → NoDecision input.run_id t
      → RefundReach decimals input t w u
      → w.point ≡ returned verdict
      → (d : ApprovalDecisionInput) × (w.decision ≡ some d)
        × (d.decision ≡ verdict)
        × Recorded input.run_id d.decision d.idempotency_key u
  returned_verdict t u w verdict no_email missing reached ended =
      Sound-returned (
        subst (λ p. Sound input.run_id w.decision p u) ended
          (reach_Held no_email missing reached).0)
