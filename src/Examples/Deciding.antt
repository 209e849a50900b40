-- ===== src/Examples/Deciding.antt =====
-- Examples for `record_decision` of workflows/activities.py: an approval, its retry, and a rejection
-- that comes too late.
use agents_should_survive_fa.Base.{
  ℕ, String, ◌≡◌, ◌≢◌, refl, Option, true, none, some, [], ◌∷◌, ok, err, arith, eq_iff, false,
}
use agents_should_survive_fa.Base.Int.{pos}
use agents_should_survive_fa.Models.{WorkflowRun, waiting, ApprovalStatus}
use agents_should_survive_fa.Gateway.State.{ApprovalRequest}
use agents_should_survive_fa.Workflow.Contracts.{
  ApprovalDecisionInput, VendorOnboardingInput, approved, rejected,
}
use agents_should_survive_fa.Review.State.{Vendor, VendorStatus, ReviewTables}
use agents_should_survive_fa.Review.Decide.{record_decision}
use agents_should_survive_fa.Review.Settle.{Found}
use agents_should_survive_fa.Review.Once.{record_decision_retried, record_decision_once}
use agents_should_survive_fa.Examples.Saving.{run}

abbrev input : VendorOnboardingInput
input = record { run_id = 1; vendor_id = 3 }

abbrev vendor : Vendor
vendor = record {
  id = 3;
  external_reference = "acme";
  status = VendorStatus.under_review;
  risk_score = some 20;
  contact_email = "a@example.com";
}

abbrev waiting_run : WorkflowRun
waiting_run = record run { status = waiting }

abbrev approval : ApprovalRequest
approval = record {
  id = 6;
  workflow_run_id = 1;
  request_key = "vendor-review";
  status = ApprovalStatus.pending;
  summary = "";
  version = 1;
}

abbrev tables : ReviewTables
tables = record {
  runs = waiting_run ∷ [];
  vendors = vendor ∷ [];
  requests = approval ∷ [];
  decisions = [];
  approved_vendors = [];
  events = [];
  audits = [];
}

abbrev yes : ApprovalDecisionInput
yes = record {
  approval_request_id = 6;
  expected_version = pos 1;
  decision = approved;
  decided_by_id = 2;
  rationale = "documents complete";
  idempotency_key = "decide-1";
}

abbrev no : ApprovalDecisionInput
no = record yes { decision = rejected; idempotency_key = "decide-2" }

abbrev sends : ℕ → Vendor → Option String
sends run_id v = none

abbrev breaks : ℕ → Vendor → Option String
breaks run_id v = some "mail"

rows-Found : Found input yes tables approval waiting_run vendor
rows-Found = record { request = refl; run = refl; vendor = refl }

decided : (record_decision sends 50 input yes tables).0 ≡ ok tt
unfolding record_decision
decided = refl

keys_differ : yes.idempotency_key ≢ no.idempotency_key
keys_differ e =
    let h : false ≡ true = (eq_iff "decide-1" "decide-2").1 e in absurd (ground (arith, h))

record_decision_retried_example :
    record_decision breaks 60 input yes (record_decision sends 50 input yes tables).1
    ≡ (ok tt, (record_decision sends 50 input yes tables).1)
record_decision_retried_example =
    record_decision_retried sends breaks 50 60 input yes tables approval waiting_run vendor
      rows-Found refl decided

record_decision_once_example :
    record_decision sends 70 input no (record_decision sends 50 input yes tables).1 ≡ (
      err "approval request is no longer pending at the expected version",
      (record_decision sends 50 input yes tables).1,
    )
record_decision_once_example =
    record_decision_once sends sends 50 70 input yes no tables approval waiting_run vendor
      rows-Found refl decided refl keys_differ refl
