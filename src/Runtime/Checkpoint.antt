-- ===== src/Runtime/Checkpoint.antt =====
-- `save_checkpoint` and `load_checkpoint` (runtime_state.py).
pub mod Laws
use agents_should_survive_fa.Base.{
  ℕ, String, Bool, not, ◌||◌, Option, none, some, ◌∷◌, str_eq, ltb, ◌==◌, ◌&&◌, length, Tx,
  raise_if, pure, ok, err, true, false, ◌>>=◌, ◌>>◌, find, gets, List,
}
use agents_should_survive_fa.Base.Text.{text_length}
use agents_should_survive_fa.Json.{Json}
use agents_should_survive_fa.Runtime.State.{
  RunCheckpoint, RuntimeTables, RuntimeError, conflict, validation, Encoding, json_payload, is_name,
  pins,
}

-- The keyword arguments of `save_checkpoint`.
pub record CheckpointRequest : Type 0 where
  pub workflow_run_id : ℕ
  pub agent_id : ℕ
  pub name : String
  pub schema_version : String
  pub value : Json
  pub maximum_bytes : ℕ

-- The clause on the unique pair of run and name.
abbrev pub named : ℕ → String → RunCheckpoint → Bool
named run_id name c = c.workflow_run_id == run_id && str_eq c.name name

-- The stored row has the agent, the schema version and the digest of the request.
abbrev pub agrees : RunCheckpoint → CheckpointRequest → String → Bool
agrees c r digest =
    c.agent_id == r.agent_id
    && str_eq c.schema_version r.schema_version
    && str_eq c.digest_sha256 digest

abbrev pub checkpoint_row : CheckpointRequest → List ℕ → String → RunCheckpoint
checkpoint_row r encoded digest = record {
  workflow_run_id = r.workflow_run_id;
  agent_id = r.agent_id;
  name = r.name;
  schema_version = r.schema_version;
  value = r.value;
  digest_sha256 = digest;
  size_bytes = length encoded;
}

-- The row under the name is returned if it agrees, and written if there is none.
unfoldable pub bind_checkpoint :
    CheckpointRequest → List ℕ → String → Tx RuntimeTables RuntimeError RunCheckpoint
bind_checkpoint r encoded digest s = elim (find (named r.workflow_run_id r.name) s.checkpoints) [
  | none ↦ (
    ok (checkpoint_row r encoded digest),
    record s { checkpoints = checkpoint_row r encoded digest ∷ s.checkpoints },
  )
  | some c ↦ elim (agrees c r digest) [
    | true ↦ (ok c, s)
    | false ↦ (err (conflict "checkpoint name is already bound to different content"), s)
  ]
]

unfoldable pub save_checkpoint :
    Encoding → CheckpointRequest → Tx RuntimeTables RuntimeError RunCheckpoint
unfolding json_payload bind_checkpoint
save_checkpoint e r = do
  raise_if
      (not (is_name r.name)
        || text_length r.schema_version == 0
        || ltb 40 (text_length r.schema_version))
      (validation "checkpoint name or schema version is invalid")
  payload ← json_payload e r.value r.maximum_bytes
  pinned ← gets (λ s. pins r.workflow_run_id s.runs r.agent_id)
  raise_if (not pinned) (validation "checkpoint agent does not match the pinned run agent")
  bind_checkpoint r payload.0 payload.1

unfoldable pub load_checkpoint : ℕ → String → RuntimeTables → Option RunCheckpoint
load_checkpoint run_id name s = find (named run_id name) s.checkpoints
