-- ===== src/Runtime/Checkpoint/Laws.antt =====
-- Checkpoints are saved once under a name and never change (runtime_state.py).
use agents_should_survive_fa.Base.{
  ℕ, ◌≤◌, String, ◌≡◌, inl, inr, true, none, some, ◌∷◌, eq_iff, eq_refl, ok, err, find,
  Option-cases, Bool-cases, arith, length, List,
}
use agents_should_survive_fa.Runtime.State.{
  RunCheckpoint, RuntimeTables, RuntimeError, Encoding, pins,
}
use agents_should_survive_fa.Runtime.Checkpoint.{
  CheckpointRequest, named, checkpoint_row, save_checkpoint, load_checkpoint,
}

-- Two clauses that a row satisfies select the same rows.
key_clash :
    (r : CheckpointRequest) (run_id : ℕ) (name : String) (row : RunCheckpoint)
    (rows : List RunCheckpoint)
    → row.workflow_run_id ≡ r.workflow_run_id
    → row.name ≡ r.name
    → named run_id name row ≡ true
    → find (named r.workflow_run_id r.name) rows ≡ none
    → find (named run_id name) rows ≡ none
key_clash r run_id name row rows same_run same_name e new =
    let a : run_id ≡ r.workflow_run_id = ground (arith, same_run) in
    let b : name ≡ r.name = ground (arith, same_name, eq_iff row.name name) in rw (a, b) new

-- The rows that a request's clause selects after a row is added under another clause's key.
kept_by_write :
    (r : CheckpointRequest) (run_id : ℕ) (name : String) (row c : RunCheckpoint)
    (rows : List RunCheckpoint)
    → find (named r.workflow_run_id r.name) rows ≡ none
    → row.workflow_run_id ≡ r.workflow_run_id
    → row.name ≡ r.name
    → find (named run_id name) rows ≡ some c
    → find (named run_id name) (row ∷ rows) ≡ some c
kept_by_write r run_id name row c rows new same_run same_name h =
    elim (Bool-cases (named run_id name row)) [
      | inl e ↦ cc (key_clash r run_id name row rows same_run same_name e new, h)
      | inr e ↦ rw e h
    ]

-- A checkpoint that a run has under a name is what a load returns after any one save, whatever it
-- saves and for whatever run, under that name or another.
pub load-save_checkpoint :
    (e : Encoding) (r : CheckpointRequest) (s : RuntimeTables) (run_id : ℕ) (name : String)
    (c : RunCheckpoint)
    → load_checkpoint run_id name s ≡ some c
    → load_checkpoint run_id name (save_checkpoint e r s).1 ≡ some c
unfolding load_checkpoint save_checkpoint
load-save_checkpoint e r s run_id name c h = elim (Option-cases (e.dumps r.value)) [
  | inl unencodable ↦ ground arith
  | inr (encoded, given) ↦
      let row = checkpoint_row r encoded (e.sha256 encoded) in
      ground (arith, kept_by_write r run_id name row c s.checkpoints)
]

-- A save that raises changes no table.
pub save_checkpoint_refused :
    (e : Encoding) (r : CheckpointRequest) (s : RuntimeTables) {x : RuntimeError}
    → (save_checkpoint e r s).0 ≡ err x
    → (save_checkpoint e r s).1 ≡ s
unfolding save_checkpoint
save_checkpoint_refused e r s h = ground arith

-- What a successful save has established.
pub record IsSaved (e : Encoding) (r : CheckpointRequest) (s : RuntimeTables) (c : RunCheckpoint)
    : Type 0 where
  pub found : load_checkpoint r.workflow_run_id r.name (save_checkpoint e r s).1 ≡ some c
  pub pinned : pins r.workflow_run_id s.runs r.agent_id ≡ true
  pub agent : c.agent_id ≡ r.agent_id
  pub version : c.schema_version ≡ r.schema_version
  pub stored_value :
      (encoded : List ℕ) × (e.dumps r.value ≡ some encoded)
      × (c.digest_sha256 ≡ e.sha256 encoded)
      × (length encoded ≤ r.maximum_bytes)

module _ (e : Encoding) (r : CheckpointRequest) (s : RuntimeTables) (c : RunCheckpoint)
    (saved : (save_checkpoint e r s).0 ≡ ok c) where
  save_encodes : (encoded : List ℕ) × (e.dumps r.value ≡ some encoded)
  unfolding save_checkpoint
  save_encodes = elim (Option-cases (e.dumps r.value)) [
    | inl unencodable ↦ absurd (ground arith)
    | inr given ↦ given
  ]

  module _ (encoded : List ℕ) (given : e.dumps r.value ≡ some encoded) where
    saved_value : (c.digest_sha256 ≡ e.sha256 encoded) × (length encoded ≤ r.maximum_bytes)
    unfolding save_checkpoint
    saved_value = ground (arith, eq_iff c.digest_sha256 (e.sha256 encoded))

    saved_row :
        (pins r.workflow_run_id s.runs r.agent_id ≡ true)
        × (c.agent_id ≡ r.agent_id)
        × (c.schema_version ≡ r.schema_version)
    unfolding save_checkpoint
    saved_row = ground (arith, eq_iff c.schema_version r.schema_version)

    saved_found : load_checkpoint r.workflow_run_id r.name (save_checkpoint e r s).1 ≡ some c
    unfolding load_checkpoint save_checkpoint
    saved_found = ground (arith, eq_refl r.name)

-- After a successful save the returned row is found under the request's run and name, belongs to
-- the agent that the run is pinned to, carries the request's schema version and the digest of its
-- value, and that value is within the size limit.
pub save_checkpoint-IsSaved :
    (e : Encoding) (r : CheckpointRequest) (s : RuntimeTables) (c : RunCheckpoint)
    → (save_checkpoint e r s).0 ≡ ok c
    → IsSaved e r s c
save_checkpoint-IsSaved e r s c h =
    let (encoded, given) = save_encodes e r s c h in
    let (pinned, agent, version) = saved_row e r s c h encoded given in
    let (digest, bounded) = saved_value e r s c h encoded given in
    record {
      found = saved_found e r s c h encoded given;
      pinned = pinned;
      agent = agent;
      version = version;
      stored_value = (encoded, given, digest, bounded);
    }

-- A save that succeeded once succeeds again, with the same row and no further change: the activity
-- that makes it may be retried.
pub save_checkpoint_retried :
    (e : Encoding) (r : CheckpointRequest) (s : RuntimeTables) (c : RunCheckpoint)
    → (save_checkpoint e r s).0 ≡ ok c
    → save_checkpoint e r (save_checkpoint e r s).1 ≡ (ok c, (save_checkpoint e r s).1)
unfolding save_checkpoint
save_checkpoint_retried e r s c h =
    let (encoded, given) = save_encodes e r s c h in
    ground (arith, eq_refl r.name, eq_refl r.schema_version, eq_refl (e.sha256 encoded))
