-- ===== src/Starts/Attempt/Lease.antt =====
-- The start of a run is held by one coordinator at a time, and only its holder ends it
-- (workflow_starts.py).
use agents_should_survive_fa.Base.{
  ℕ, ◌+◌, ◌<◌, String, ◌≡◌, ◌≢◌, ◌⊎◌, refl, inl, inr, none, some, arith, ◌==◌, find, find_sound,
  find-update_first, ok, err, Option-cases, ◌∙◌, ==_refl,
}
use agents_should_survive_fa.Models.{WorkflowRun}
use agents_should_survive_fa.Starts.State.{
  started, failed, WorkflowStartAttempt, StartTables, start_unavailable, attempt_of,
}
use agents_should_survive_fa.Starts.Attempt.{
  StartClaim, take_lease, change_attempt, claim_start, finish, give_up, mark_started, mark_failed,
  Handoff, accepted, already_started, raised, hand_off,
}

module _ (lease now token run_id : ℕ) (s : StartTables) (c : StartClaim)
    (h : (claim_start lease now token run_id s).0 ≡ ok c) (holding : c.token ≡ some token) where
  claimed_attempt : (a : WorkflowStartAttempt) × (find (attempt_of run_id) s.attempts ≡ some a)
  unfolding claim_start
  claimed_attempt = elim (Option-cases (find (attempt_of run_id) s.attempts)) [
    | inl missing ↦ absurd (ground (arith, h))
    | inr found ↦ found
  ]

  module _ (a : WorkflowStartAttempt) (found : find (attempt_of run_id) s.attempts ≡ some a) where
    claimed_run : find (λ r. r.id == run_id) s.runs ≡ some c.run
    unfolding claim_start
    claimed_run = elim (Option-cases (find (λ r. r.id == run_id) s.runs)) [
      | inl missing ↦ absurd (ground (arith, h))
      | inr (run, e) ↦ ground (arith, h)
    ]

    claimed_tables :
        (run : WorkflowRun)
        → find (λ r. r.id == run_id) s.runs ≡ some run
        → (claim_start lease now token run_id s).1
          ≡ change_attempt run_id (take_lease lease now token) s
    unfolding claim_start
    claimed_tables run e = ground (arith, h, holding)

-- The attempt of a run after a claim that gave a token.
claimed_found :
    (lease now token run_id : ℕ) (s : StartTables) (c : StartClaim)
    → (claim_start lease now token run_id s).0 ≡ ok c
    → c.token ≡ some token
    → (a : WorkflowStartAttempt) × (find
          (attempt_of run_id)
          (claim_start lease now token run_id s).1.attempts
        ≡ some (take_lease lease now token a))
      × (find (λ r. r.id == run_id) (claim_start lease now token run_id s).1.runs ≡ some c.run)
claimed_found lease now token run_id s c h holding =
    let (a, found) = claimed_attempt lease now token run_id s c h holding in
    let running = claimed_run lease now token run_id s c h holding a found in
    let e = claimed_tables lease now token run_id s c h holding a found c.run running in
    (
      a,
      rw e (
          find-update_first (attempt_of run_id) (take_lease lease now token) s.attempts found
            (find_sound (attempt_of run_id) s.attempts found)),
      rw e running,
    )

leased_refuses :
    (lease now token run_id : ℕ) (s : StartTables) (a : WorkflowStartAttempt) (run : WorkflowRun)
    (expiry : ℕ)
    → find (attempt_of run_id) s.attempts ≡ some a
    → find (λ r. r.id == run_id) s.runs ≡ some run
    → a.lease_expires_at ≡ some expiry
    → now < expiry
    → claim_start lease now token run_id s ≡ (ok (record { run = run; token = none }), s)
unfolding claim_start
leased_refuses lease now token run_id s a run expiry found running leased before = ground arith

-- A claim that follows one that got a token, at any time before that lease ends, is answered
-- without a token and changes nothing.
pub claim_start_excludes :
    (lease now token run_id later other : ℕ) (s : StartTables) (c : StartClaim)
    → (claim_start lease now token run_id s).0 ≡ ok c
    → c.token ≡ some token
    → later < now + lease
    → claim_start lease later other run_id (claim_start lease now token run_id s).1
      ≡ (ok (record { run = c.run; token = none }), (claim_start lease now token run_id s).1)
claim_start_excludes lease now token run_id later other s c h holding before =
    let (a, found, running) = claimed_found lease now token run_id s c h holding in
    leased_refuses lease later other run_id (claim_start lease now token run_id s).1
      (take_lease lease now token a) c.run (now + lease) found running refl before

marks_ignored :
    (now run_id token stale : ℕ) (category : String) (s : StartTables) (a : WorkflowStartAttempt)
    → find (attempt_of run_id) s.attempts ≡ some a
    → a.attempt_token ≡ some token
    → token ≢ stale
    → (mark_started now run_id stale s ≡ s) × (mark_failed run_id stale category s ≡ s)
unfolding mark_started mark_failed
marks_ignored now run_id token stale category s a found held other = ground arith

-- After a claim that got a token, the marks of a coordinator with another token change nothing,
-- neither that of a start nor that of a failure.
pub mark_ignores_stale :
    (lease now token run_id stale end : ℕ) (category : String) (s : StartTables) (c : StartClaim)
    → (claim_start lease now token run_id s).0 ≡ ok c
    → c.token ≡ some token
    → token ≢ stale
    → (mark_started end run_id stale (claim_start lease now token run_id s).1
        ≡ (claim_start lease now token run_id s).1)
      × (mark_failed run_id stale category (claim_start lease now token run_id s).1
          ≡ (claim_start lease now token run_id s).1)
mark_ignores_stale lease now token run_id stale end category s c h holding other =
    let (a, found, _) = claimed_found lease now token run_id s c h holding in
    marks_ignored end run_id token stale category (claim_start lease now token run_id s).1
      (take_lease lease now token a) found refl other

held_change :
    (now run_id token : ℕ) (category : String) (s : StartTables) (a : WorkflowStartAttempt)
    → find (attempt_of run_id) s.attempts ≡ some a
    → a.attempt_token ≡ some token
    → (mark_started now run_id token s ≡ change_attempt run_id (finish now) s)
      × (mark_failed run_id token category s ≡ change_attempt run_id (give_up category) s)
unfolding mark_started mark_failed
held_change now run_id token category s a found held = ground (arith, ==_refl token)

handed :
    (end run_id token : ℕ) (category : String) (c : StartClaim) (s : StartTables)
    → c.token ≡ some token
    → (hand_off end run_id accepted c s ≡ (ok c.run, mark_started end run_id token s))
      × (hand_off end run_id already_started c s ≡ (ok c.run, mark_started end run_id token s))
      × (hand_off end run_id (raised category) c s
          ≡ (err (start_unavailable category), mark_failed run_id token category s))
unfolding hand_off
handed end run_id token category c s holding = ground arith

started_refuses :
    (lease now token run_id : ℕ) (s : StartTables) (a : WorkflowStartAttempt) (run : WorkflowRun)
    → find (attempt_of run_id) s.attempts ≡ some a
    → find (λ r. r.id == run_id) s.runs ≡ some run
    → a.status ≡ started
    → claim_start lease now token run_id s ≡ (ok (record { run = run; token = none }), s)
unfolding claim_start
started_refuses lease now token run_id s a run found running done = ground arith

failed_accepts :
    (lease now token run_id : ℕ) (s : StartTables) (a : WorkflowStartAttempt) (run : WorkflowRun)
    → find (attempt_of run_id) s.attempts ≡ some a
    → find (λ r. r.id == run_id) s.runs ≡ some run
    → a.status ≡ failed
    → a.lease_expires_at ≡ none
    → (claim_start lease now token run_id s).0 ≡ ok (record { run = run; token = some token })
unfolding claim_start
failed_accepts lease now token run_id s a run found running lost free = ground arith

changed_found :
    (run_id : ℕ) (f : WorkflowStartAttempt → WorkflowStartAttempt) (s : StartTables)
    (a : WorkflowStartAttempt)
    → find (attempt_of run_id) s.attempts ≡ some a
    → attempt_of run_id (f a) ≡ attempt_of run_id a
    → find (attempt_of run_id) (change_attempt run_id f s).attempts ≡ some (f a)
changed_found run_id f s a found same =
    find-update_first (attempt_of run_id) f s.attempts found
      (same ∙ find_sound (attempt_of run_id) s.attempts found)

-- Where Temporal accepts a claimed start and no fault is injected after that, or has it already, a
-- handoff that directly follows its claim returns the run, and a claim that follows the handoff, at
-- any time, is answered without a token and changes nothing.
pub hand_off_starts_once :
    (lease now token run_id end later other : ℕ) (s : StartTables) (c : StartClaim) (o : Handoff)
    → (claim_start lease now token run_id s).0 ≡ ok c
    → c.token ≡ some token
    → (o ≡ accepted) ⊎ (o ≡ already_started)
    → ((hand_off end run_id o c (claim_start lease now token run_id s).1).0 ≡ ok c.run)
      × (claim_start lease later other run_id
            (hand_off end run_id o c (claim_start lease now token run_id s).1).1
          ≡ (
            ok (record { run = c.run; token = none }),
            (hand_off end run_id o c (claim_start lease now token run_id s).1).1,
          ))
hand_off_starts_once lease now token run_id end later other s c o h holding good =
    let t = (claim_start lease now token run_id s).1 in
    let (a, found, running) = claimed_found lease now token run_id s c h holding in
    let (first, second, _) = handed end run_id token "" c t holding in
    let e : hand_off end run_id o c t ≡ (ok c.run, mark_started end run_id token t) = elim good [
      | inl x ↦ rw x first
      | inr x ↦ rw x second
    ] in
    let marked = (held_change end run_id token "" t (take_lease lease now token a) found refl).0 in
    rw (e, marked)
      (
        refl,
        started_refuses lease later other run_id (change_attempt run_id (finish end) t)
            (finish end (take_lease lease now token a)) c.run
            (changed_found run_id (finish end) t (take_lease lease now token a) found refl) running
            refl,
      )

-- Where the handoff of a claimed start raises, the caller is told the category, and a claim that
-- follows it, at any time, gets its token.
pub hand_off_releases :
    (lease now token run_id end later other : ℕ) (category : String) (s : StartTables)
    (c : StartClaim)
    → (claim_start lease now token run_id s).0 ≡ ok c
    → c.token ≡ some token
    → ((hand_off end run_id (raised category) c (claim_start lease now token run_id s).1).0
        ≡ err (start_unavailable category))
      × ((claim_start lease later other run_id
            (hand_off end run_id (raised category) c (claim_start lease now token run_id s).1).1).0
          ≡ ok (record { run = c.run; token = some other }))
hand_off_releases lease now token run_id end later other category s c h holding =
    let t = (claim_start lease now token run_id s).1 in
    let (a, found, running) = claimed_found lease now token run_id s c h holding in
    let (_, _, e) = handed end run_id token category c t holding in
    let marked =
      (held_change end run_id token category t (take_lease lease now token a) found refl).1 in
    rw (e, marked)
      (
        refl,
        failed_accepts lease later other run_id (change_attempt run_id (give_up category) t)
            (give_up category (take_lease lease now token a)) c.run
            (changed_found run_id (give_up category) t (take_lease lease now token a) found refl)
            running refl refl,
      )
