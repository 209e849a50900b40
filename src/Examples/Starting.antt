-- ===== src/Examples/Starting.antt =====
-- Examples for workflow_starts.py: one request, and its start by two coordinators.
use agents_should_survive_fa.Base.{◌≤◌, ℕ, String, ◌≡◌, refl, inl, none, some, [], ok, arith}
use agents_should_survive_fa.Models.{WorkflowRun}
use agents_should_survive_fa.Starts.State.{StartTables}
use agents_should_survive_fa.Starts.Create.{
  StartRequest, new_run, insert_run, create_or_get, create_or_get_repeated,
}
use agents_should_survive_fa.Starts.Attempt.{
  StartClaim, claim_start, hand_off, accepted, mark_started,
}
use agents_should_survive_fa.Starts.Recover.{
  Meeting, recover, recover_all, start_run, unfinished, recover_bounded,
}
use agents_should_survive_fa.Starts.Attempt.Lease.{claim_start_excludes, hand_off_starts_once}

abbrev hash : ℕ → ℕ → String
hash vendor agent = "f"

abbrev request : StartRequest
request = record {
  vendor_id = 3;
  requested_by_id = 2;
  agent_id = 5;
  idempotency_key = "start-1";
  allowed_tool_definition_ids = none;
}

abbrev empty_tables : StartTables
empty_tables = record { runs = []; attempts = []; grants = []; snapshots = []; audits = [] }

abbrev started_run : WorkflowRun
started_run = new_run 1 request "f"

abbrev requested_tables : StartTables
requested_tables = insert_run 1 request "f" empty_tables

created : (create_or_get hash 1 request empty_tables).0 ≡ ok started_run
unfolding create_or_get
created = refl

abbrev claim : StartClaim
claim = record { run = started_run; token = some 70 }

claimed : (claim_start 30 100 70 1 requested_tables).0 ≡ ok claim
unfolding claim_start
claimed = refl

create_or_get_repeated_example :
    create_or_get hash 9 request (create_or_get hash 1 request empty_tables).1
    ≡ (ok started_run, (create_or_get hash 1 request empty_tables).1)
create_or_get_repeated_example =
    create_or_get_repeated hash 1 9 request empty_tables started_run created

claim_start_excludes_example :
    claim_start 30 129 71 1 (claim_start 30 100 70 1 requested_tables).1 ≡ (
      ok (record { run = started_run; token = none }),
      (claim_start 30 100 70 1 requested_tables).1,
    )
claim_start_excludes_example =
    claim_start_excludes 30 100 70 1 129 71 requested_tables claim claimed refl (omega arith)

hand_off_starts_once_example :
    ((hand_off 110 1 accepted claim (claim_start 30 100 70 1 requested_tables).1).0
      ≡ ok started_run)
    × (claim_start 30 500 71 1
          (hand_off 110 1 accepted claim (claim_start 30 100 70 1 requested_tables).1).1
        ≡ (
          ok (record { run = started_run; token = none }),
          (hand_off 110 1 accepted claim (claim_start 30 100 70 1 requested_tables).1).1,
        ))
hand_off_starts_once_example =
    hand_off_starts_once 30 100 70 1 110 500 71 requested_tables claim accepted claimed refl
      (inl refl)

abbrev meeting : Meeting
meeting = record { claimed_at = 100; ended_at = 110; token = 70; outcome = accepted }

recovered :
    (recover 30 (λ _. meeting) 100 requested_tables).0
    ≡ ok (record { inspected = 1; unavailable = 0 })
unfolding recover recover_all start_run unfinished claim_start hand_off mark_started
recovered = refl

recover_bounded_example :
    (1 ≤ 100)
    × (0 ≤ 1)
    × ((recover 30 (λ _. meeting) 100 requested_tables).1.runs ≡ requested_tables.runs)
recover_bounded_example =
    recover_bounded 30 (λ _. meeting) 100 requested_tables
      (record { inspected = 1; unavailable = 0 }) recovered
