-- ===== src/Examples/Saving.antt =====
-- Examples for the checkpoints of runtime_state.py, over an encoder that gives every value the same
-- byte and a digest that is the same text for all bytes.
use agents_should_survive_fa.Base.{◌≡◌, refl, none, some, [], ◌∷◌, ok, err}
use agents_should_survive_fa.Json.{null}
use agents_should_survive_fa.Models.{WorkflowRun, running}
use agents_should_survive_fa.Runtime.State.{RuntimeTables, Encoding, is_name, validation}
use agents_should_survive_fa.Runtime.Checkpoint.{
  CheckpointRequest, checkpoint_row, save_checkpoint, load_checkpoint,
}
use agents_should_survive_fa.Runtime.Checkpoint.Laws.{load-save_checkpoint}

abbrev pub encoding : Encoding
encoding = record { dumps = λ value. some (110 ∷ []); sha256 = λ bytes. "digest" }

abbrev pub run : WorkflowRun
run = record {
  id = 1;
  agent_id = 5;
  parent_workflow_run_id = none;
  root_workflow_run_id = 1;
  delegation_depth = 0;
  vendor_id = none;
  requested_by_id = 2;
  workflow_type = "managed_agent";
  temporal_workflow_id = ("managed-agent", 1);
  idempotency_key = "start-1";
  request_fingerprint = "f";
  status = running;
  input_summary = null;
  result_summary = none;
  started_at = none;
  completed_at = none;
}

abbrev pub tables : RuntimeTables
tables = record { runs = run ∷ []; checkpoints = []; artifacts = []; budgets = [] }

abbrev request : CheckpointRequest
request = record {
  workflow_run_id = 1;
  agent_id = 5;
  name = "plan";
  schema_version = "1";
  value = null;
  maximum_bytes = 64;
}

abbrev foreign : CheckpointRequest
foreign = record request { agent_id = 6 }

abbrev saved_tables : RuntimeTables
saved_tables = record tables { checkpoints = checkpoint_row request (110 ∷ []) "digest" ∷ [] }

saved :
    (save_checkpoint encoding request tables).0 ≡ ok (checkpoint_row request (110 ∷ []) "digest")
unfolding save_checkpoint is_name
saved = refl

refused :
    (save_checkpoint encoding foreign tables).0
    ≡ err (validation "checkpoint agent does not match the pinned run agent")
unfolding save_checkpoint is_name
refused = refl

found : load_checkpoint 1 "plan" saved_tables ≡ some (checkpoint_row request (110 ∷ []) "digest")
unfolding load_checkpoint
found = refl

-- A save under another name, which is accepted.
abbrev second : CheckpointRequest
second = record request { name = "notes" }

second_saved :
    (save_checkpoint encoding second saved_tables).0
    ≡ ok (checkpoint_row second (110 ∷ []) "digest")
unfolding save_checkpoint is_name
second_saved = refl

load-save_checkpoint_example :
    load_checkpoint 1 "plan" (save_checkpoint encoding second saved_tables).1
    ≡ some (checkpoint_row request (110 ∷ []) "digest")
load-save_checkpoint_example = load-save_checkpoint encoding second saved_tables 1 "plan" _ found
