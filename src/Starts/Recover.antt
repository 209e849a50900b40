-- ===== src/Starts/Recover.antt =====
-- `WorkflowStartCoordinator.recover` (workflow_starts.py): a bounded number of starts that have not
-- ended well are tried again, the oldest first. A table holds the newest row first.
use agents_should_survive_fa.Base.{
  ℕ, ◌≡◌, ◌≤◌, ◌+◌, zero, suc, refl, Bool, true, false, not, List, [], ◌∷◌, ◌++◌, length, Result,
  ok, err, map, select_where, Tx, arith, inl, inr, Result-cases, Bool-cases,
}
use agents_should_survive_fa.Models.{WorkflowRun}
use agents_should_survive_fa.Starts.State.{StartTables, StartError, start_unavailable, is_started}
use agents_should_survive_fa.Starts.Attempt.{
  StartClaim, claim_start, Handoff, hand_off, mark_started, mark_failed,
}

pub record RecoveryResult : Type 0 where
  pub inspected : ℕ
  pub unavailable : ℕ

-- What a call of `start` meets: the clock at its claim and at its end, its token, Temporal's answer.
pub record Meeting : Type 0 where
  pub claimed_at : ℕ
  pub ended_at : ℕ
  pub token : ℕ
  pub outcome : Handoff

abbrev go_on : ℕ → Meeting → Result StartError StartClaim → Tx StartTables StartError WorkflowRun
go_on run_id m (err e) s = (err e, s)
go_on run_id m (ok claim) s = hand_off m.ended_at run_id m.outcome claim s

-- `start`: the claim, which commits, and the handoff.
unfoldable pub start_run : ℕ → Meeting → ℕ → Tx StartTables StartError WorkflowRun
start_run lease m run_id s =
    let (claim, claimed) = claim_start lease m.claimed_at m.token run_id s in
    go_on run_id m claim claimed

abbrev is_unavailable : StartError → Bool
is_unavailable (start_unavailable _) = true
is_unavailable _ = false

-- The loop over the runs; `n` counts the starts that were unavailable.
unfoldable pub recover_all : ℕ → (ℕ → Meeting) → List ℕ → ℕ → Tx StartTables StartError ℕ
unfolding start_run
recover_all lease meet [] n s = (ok n, s)
recover_all lease meet (run_id ∷ ids) n s =
    let (answer, next) = start_run lease (meet run_id) run_id s in
    elim answer [
      | ok _ ↦ recover_all lease meet ids n next
      | err e ↦ elim (is_unavailable e) [
        | true ↦ recover_all lease meet ids (suc n) next
        | false ↦ (err e, next)
      ]
    ]

abbrev take_first : ℕ → List ℕ → List ℕ
take_first zero ids = []
take_first (suc n) [] = []
take_first (suc n) (id ∷ ids) = id ∷ take_first n ids

abbrev reversed : List ℕ → List ℕ
reversed [] = []
reversed (id ∷ ids) = reversed ids ++ id ∷ []

-- The runs whose attempts are not STARTED, oldest first, up to the limit.
unfoldable pub unfinished : ℕ → StartTables → List ℕ
unfinished limit s = take_first limit (
    reversed
      (map (λ a. a.workflow_run_id) (select_where (λ a. not (is_started a.status)) s.attempts)))

-- `recover`; the function gives what the call for each run meets.
unfoldable pub recover : ℕ → (ℕ → Meeting) → ℕ → Tx StartTables StartError RecoveryResult
unfolding recover_all unfinished
recover lease meet limit s =
    let (answer, next) = recover_all lease meet (unfinished limit s) 0 s in
    elim answer [
      | err e ↦ (err e, next)
      | ok n ↦ (ok (record { inspected = length (unfinished limit s); unavailable = n }), next)
    ]

start_run-runs :
    (lease : ℕ) (m : Meeting) (run_id : ℕ) (s : StartTables)
    → (start_run lease m run_id s).1.runs ≡ s.runs
unfolding start_run claim_start hand_off mark_started mark_failed
start_run-runs lease m run_id s = ground arith

recover_all-runs :
    (lease : ℕ) (meet : ℕ → Meeting) (ids : List ℕ) (n : ℕ) (s : StartTables)
    → (recover_all lease meet ids n s).1.runs ≡ s.runs
unfolding recover_all
recover_all-runs lease meet [] n s = refl
recover_all-runs lease meet (run_id ∷ ids) n s =
    let next = (start_run lease (meet run_id) run_id s).1 in
    ground (
      arith,
      start_run-runs lease (meet run_id) run_id s,
      recover_all-runs lease meet ids n next,
      recover_all-runs lease meet ids (suc n) next,
    )

-- A recovery neither adds, removes nor changes a run.
pub recover-runs :
    (lease : ℕ) (meet : ℕ → Meeting) (limit : ℕ) (s : StartTables)
    → (recover lease meet limit s).1.runs ≡ s.runs
unfolding recover
recover-runs lease meet limit s =
    ground (arith, recover_all-runs lease meet (unfinished limit s) 0 s)

counted :
    (lease : ℕ) (meet : ℕ → Meeting) (ids : List ℕ) (n m : ℕ) (s : StartTables)
    → (recover_all lease meet ids n s).0 ≡ ok m
    → m ≤ length ids + n
unfolding recover_all
counted lease meet [] n m s h = ground arith
counted lease meet (run_id ∷ ids) n m s h =
    let next = (start_run lease (meet run_id) run_id s).1 in
    elim (Result-cases (start_run lease (meet run_id) run_id s).0) [
      | inl (run, e) ↦ let rest = counted lease meet ids n m next (ground arith) in ground arith
      | inr (error, e) ↦ elim (Bool-cases (is_unavailable error)) [
        | inl f ↦ let rest = counted lease meet ids (suc n) m next (ground arith) in ground arith
        | inr f ↦ absurd (ground arith)
      ]
    ]

length-take_first : (n : ℕ) (ids : List ℕ) → length (take_first n ids) ≤ n
length-take_first zero ids = ground arith
length-take_first (suc n) [] = ground arith
length-take_first (suc n) (id ∷ ids) = ground (arith, length-take_first n ids)

unfinished_limit : (limit : ℕ) (s : StartTables) → length (unfinished limit s) ≤ limit
unfolding unfinished
unfinished_limit limit s = length-take_first limit _

-- A recovery that returns has tried at most as many starts as its limit, reports at most as many
-- unavailable, and has neither added, removed nor changed a run.
pub recover_bounded :
    (lease : ℕ) (meet : ℕ → Meeting) (limit : ℕ) (s : StartTables) (r : RecoveryResult)
    → (recover lease meet limit s).0 ≡ ok r
    → (r.inspected ≤ limit)
      × (r.unavailable ≤ r.inspected)
      × ((recover lease meet limit s).1.runs ≡ s.runs)
unfolding recover
recover_bounded lease meet limit s r h =
    elim (Result-cases (recover_all lease meet (unfinished limit s) 0 s).0) [
      | inr (e, f) ↦ absurd (ground arith)
      | inl (n, f) ↦
          let few = counted lease meet (unfinished limit s) 0 n s f in
          let most = unfinished_limit limit s in
          (ground arith, ground arith, recover-runs lease meet limit s)
    ]
