-- ===== src/Starts/Attempt.antt =====
-- `WorkflowStartCoordinator.start` (workflow_starts.py): a coordinator claims the start of a run for
-- the time of a lease, hands it to Temporal, and records how that ended. What Temporal and a fault
-- plan answer is an argument.
pub mod Lease
use agents_should_survive_fa.Base.{
  ℕ, ◌+◌, String, Bool, true, false, Option, none, some, List, [], ◌∷◌, ltb, ◌==◌, find,
  update_first, Tx, ok, err, Result, if◌then◌else◌,
}
use agents_should_survive_fa.Models.{WorkflowRun}
use agents_should_survive_fa.Starts.State.{
  WorkflowStartStatus, pending, started, failed, is_started, WorkflowStartAttempt, StartTables,
  StartError, lookup_error, start_unavailable, attempt_of,
}

-- A claim without a token does not start the run.
pub record StartClaim : Type 0 where
  pub run : WorkflowRun
  pub token : Option ℕ

-- `attempt.lease_expires_at is not None and attempt.lease_expires_at > now`
abbrev pub is_leased : ℕ → WorkflowStartAttempt → Bool
is_leased now a = elim a.lease_expires_at [ none ↦ false | some expiry ↦ ltb now expiry ]

abbrev pub take_lease : ℕ → ℕ → ℕ → WorkflowStartAttempt → WorkflowStartAttempt
take_lease lease now token a = record a {
  status = pending;
  attempt_token = some token;
  attempts = a.attempts + 1;
  error_category = none;
  last_attempted_at = some now;
  lease_expires_at = some (now + lease);
}

abbrev pub change_attempt :
    ℕ → (WorkflowStartAttempt → WorkflowStartAttempt) → StartTables → StartTables
change_attempt run_id f s = record s { attempts = update_first (attempt_of run_id) f s.attempts }

-- `_claim_start`; `token` is the `uuid4`.
unfoldable pub claim_start : ℕ → ℕ → ℕ → ℕ → Tx StartTables StartError StartClaim
claim_start lease now token run_id s = elim (find (attempt_of run_id) s.attempts) [
  | none ↦ (err lookup_error, s)
  | some a ↦ elim (find (λ r. r.id == run_id) s.runs) [
    | none ↦ (err lookup_error, s)
    | some run ↦ elim (is_started a.status) [
      | true ↦ (ok (record { run = run; token = none }), s)
      | false ↦ elim (is_leased now a) [
        | true ↦ (ok (record { run = run; token = none }), s)
        | false ↦ (
          ok (record { run = run; token = some token }),
          change_attempt run_id (take_lease lease now token) s,
        )
      ]
    ]
  ]
]

abbrev pub holds : ℕ → WorkflowStartAttempt → Bool
holds token a = elim a.attempt_token [ none ↦ false | some own ↦ own == token ]

abbrev pub finish : ℕ → WorkflowStartAttempt → WorkflowStartAttempt
finish now a = record a {
  status = started;
  error_category = none;
  lease_expires_at = none;
  started_at = some now;
}

abbrev pub give_up : String → WorkflowStartAttempt → WorkflowStartAttempt
give_up category a = record a {
  status = failed;
  error_category = some category;
  lease_expires_at = none;
}

-- `_mark_started` and `_mark_failed`: only the holder of the token changes the attempt.
unfoldable pub mark_started : ℕ → ℕ → ℕ → StartTables → StartTables
mark_started now run_id token s = elim (find (attempt_of run_id) s.attempts) [
  | none ↦ s
  | some a ↦ elim (holds token a) [ true ↦ change_attempt run_id (finish now) s | false ↦ s ]
]

unfoldable pub mark_failed : ℕ → ℕ → String → StartTables → StartTables
mark_failed run_id token category s = elim (find (attempt_of run_id) s.attempts) [
  | none ↦ s
  | some a ↦ elim (holds token a) [ true ↦ change_attempt run_id (give_up category) s | false ↦ s ]
]

-- How the handoff to Temporal ends: it accepts the workflow and no fault is injected after that, it has
-- it already, or an exception of the class that `classify_start_error` names is raised, by Temporal
-- or by a fault that is injected once Temporal has accepted.
pub data Handoff : Type 0 where
  accepted already_started : Handoff
  raised : String → Handoff

-- `start` once its claim is answered; `now` is the clock at the end of the handoff.
unfoldable pub hand_off : ℕ → ℕ → Handoff → StartClaim → Tx StartTables StartError WorkflowRun
unfolding mark_started mark_failed
hand_off now run_id outcome claim s = elim claim.token [
  | none ↦ (ok claim.run, s)
  | some token ↦ elim outcome [
    | accepted ↦ (ok claim.run, mark_started now run_id token s)
    | already_started ↦ (ok claim.run, mark_started now run_id token s)
    | raised category ↦ (err (start_unavailable category), mark_failed run_id token category s)
  ]
]
