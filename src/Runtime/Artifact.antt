-- ===== src/Runtime/Artifact.antt =====
-- `create_artifact` and `read_artifact` (runtime_state.py).
pub mod Integrity
use agents_should_survive_fa.Base.{
  ℕ, String, Bool, true, false, not, ◌||◌, Option, none, some, List, ◌∷◌, str_eq, ltb, ◌==◌, ◌&&◌,
  length, Tx, raise_if, ok, err, ◌>>=◌, ◌>>◌, find, gets,
}
use agents_should_survive_fa.Base.Text.{codes, contains}
use agents_should_survive_fa.Runtime.State.{
  RunArtifact, RuntimeTables, RuntimeError, validation, Encoding, is_name, is_content_type, pins,
}

-- The keyword arguments of `create_artifact`.
pub record ArtifactRequest : Type 0 where
  pub workflow_run_id : ℕ
  pub agent_id : ℕ
  pub name : String
  pub content_type : String
  pub content : List ℕ
  pub maximum_bytes : ℕ
  pub parent_artifact_id : Option ℕ

-- The clause on the unique triple of run, name and digest.
abbrev pub same_content : ℕ → String → String → RunArtifact → Bool
same_content run_id name digest a =
    a.workflow_run_id == run_id && str_eq a.name name && str_eq a.digest_sha256 digest

-- `parent is None or parent.workflow_run_id != workflow_run_id`, negated.
abbrev pub parent_belongs : Option ℕ → ℕ → List RunArtifact → Bool
parent_belongs parent_id run_id artifacts = elim parent_id [
  | none ↦ true
  | some id ↦ elim (find (λ a. a.id == id) artifacts) [
    | none ↦ false
    | some parent ↦ parent.workflow_run_id == run_id
  ]
]

abbrev pub artifact_row : ℕ → ArtifactRequest → String → RunArtifact
artifact_row fresh r digest = record {
  id = fresh;
  workflow_run_id = r.workflow_run_id;
  agent_id = r.agent_id;
  parent_artifact_id = r.parent_artifact_id;
  name = r.name;
  content_type = r.content_type;
  digest_sha256 = digest;
  size_bytes = length r.content;
  content = r.content;
}

-- `fresh` is the new row's `uuid4`.
unfoldable pub create_artifact :
    Encoding → ℕ → ArtifactRequest → Tx RuntimeTables RuntimeError RunArtifact
create_artifact e fresh r = do
  raise_if
      (not (is_name r.name)
        || contains (codes "/") (codes r.name)
        || contains (codes "\\") (codes r.name))
      (validation "artifact name is invalid")
  raise_if (not (is_content_type r.content_type)) (validation "artifact content type is invalid")
  raise_if (ltb r.maximum_bytes (length r.content))
      (validation "artifact exceeds the configured size limit")
  pinned ← gets (λ s. pins r.workflow_run_id s.runs r.agent_id)
  raise_if (not pinned) (validation "artifact agent does not match the pinned run agent")
  belongs ← gets (λ s. parent_belongs r.parent_artifact_id r.workflow_run_id s.artifacts)
  raise_if (not belongs) (validation "artifact parent does not belong to this run")
  let digest = e.sha256 r.content
  λ s. elim (find (same_content r.workflow_run_id r.name digest) s.artifacts) [
    | some a ↦ (ok a, s)
    | none ↦ (
      ok (artifact_row fresh r digest),
      record s { artifacts = artifact_row fresh r digest ∷ s.artifacts },
    )
  ]

unfoldable pub read_artifact : Encoding → ℕ → ℕ → ℕ → Tx RuntimeTables RuntimeError RunArtifact
read_artifact e run_id agent_id artifact_id s = elim (find (λ a. a.id == artifact_id) s.artifacts) [
  | none ↦ (err (validation "artifact does not belong to the pinned run agent"), s)
  | some a ↦
      (raise_if (not (a.workflow_run_id == run_id) || not (a.agent_id == agent_id))
            (validation "artifact does not belong to the pinned run agent")
          >> raise_if (not (str_eq (e.sha256 a.content) a.digest_sha256))
              (validation "artifact integrity validation failed")
          >> λ t. (ok a, t))
        s
]
