-- ===== src/Runtime/Artifact/Integrity.antt =====
-- Artifacts are stored once for each content and read back unchanged (runtime_state.py).
use agents_should_survive_fa.Base.{
  ℕ, ◌≡◌, ◌≢◌, ◌⊎◌, refl, inl, inr, none, ◌∷◌, arith, eq_iff, eq_refl, find, ok, err, All,
  find_sound, Option-cases, ◌==◌, length, ◌≤◌,
}
use agents_should_survive_fa.Runtime.State.{RunArtifact, RuntimeTables, RuntimeError, Encoding}
use agents_should_survive_fa.Runtime.Artifact.{
  ArtifactRequest, same_content, artifact_row, create_artifact, read_artifact,
}

-- What `create_artifact` makes of every row: the digest and the size are those of its content.
abbrev pub IsSealed : Encoding → RunArtifact → Type 0
IsSealed e a = (a.digest_sha256 ≡ e.sha256 a.content) × (a.size_bytes ≡ length a.content)

-- The two ways in which the artifact table changes.
create_artifact_change :
    (e : Encoding) (fresh : ℕ) (r : ArtifactRequest) (s : RuntimeTables)
    → ((create_artifact e fresh r s).1.artifacts ≡ s.artifacts)
      ⊎ ((create_artifact e fresh r s).1.artifacts
          ≡ artifact_row fresh r (e.sha256 r.content) ∷ s.artifacts)
unfolding create_artifact
create_artifact_change e fresh r s = ground arith

-- Whatever it answers, `create_artifact` keeps every row sealed.
pub create_artifact-IsSealed :
    (e : Encoding) (fresh : ℕ) (r : ArtifactRequest) (s : RuntimeTables)
    → All (IsSealed e) s.artifacts
    → All (IsSealed e) (create_artifact e fresh r s).1.artifacts
create_artifact-IsSealed e fresh r s sealed = elim (create_artifact_change e fresh r s) [
  | inl same ↦ rw same sealed
  | inr added ↦ rw added ((refl, refl), sealed)
]

-- A call that raises changes no table.
pub create_artifact_refused :
    (e : Encoding) (fresh : ℕ) (r : ArtifactRequest) (s : RuntimeTables) {x : RuntimeError}
    → (create_artifact e fresh r s).0 ≡ err x
    → (create_artifact e fresh r s).1 ≡ s
unfolding create_artifact
create_artifact_refused e fresh r s h = ground arith

-- A creation that succeeded once succeeds again with the same row and no further change, whatever
-- identifier the second call draws.
pub create_artifact_retried :
    (e : Encoding) (fresh again : ℕ) (r : ArtifactRequest) (s : RuntimeTables) (a : RunArtifact)
    → (create_artifact e fresh r s).0 ≡ ok a
    → create_artifact e again r (create_artifact e fresh r s).1
      ≡ (ok a, (create_artifact e fresh r s).1)
unfolding create_artifact
create_artifact_retried e fresh again r s a h =
    ground (arith, eq_refl r.name, eq_refl (e.sha256 r.content))

-- An artifact that is read belongs to the run and agent that ask for it, has the identifier asked
-- for, and its bytes have the recorded digest; a read changes no table.
pub read_artifact_sound :
    (e : Encoding) (run_id agent_id artifact_id : ℕ) (s : RuntimeTables) (a : RunArtifact)
    → (read_artifact e run_id agent_id artifact_id s).0 ≡ ok a
    → (a.workflow_run_id ≡ run_id)
      × (a.agent_id ≡ agent_id)
      × (a.id ≡ artifact_id)
      × (a.digest_sha256 ≡ e.sha256 a.content)
      × ((read_artifact e run_id agent_id artifact_id s).1 ≡ s)
unfolding read_artifact
read_artifact_sound e run_id agent_id artifact_id s a h =
    elim (Option-cases (find (λ b. b.id == artifact_id) s.artifacts)) [
      | inl missing ↦ absurd (ground arith)
      | inr (b, found) ↦ ground (
        arith,
        find_sound (λ c. c.id == artifact_id) s.artifacts found,
        eq_iff (e.sha256 a.content) a.digest_sha256,
      )
    ]

-- Content that is new to its run under its name is read back whole under the identifier that the
-- creation drew, by the run and agent that stored it.
pub read-create_artifact :
    (e : Encoding) (fresh : ℕ) (r : ArtifactRequest) (s : RuntimeTables) (a : RunArtifact)
    → find (same_content r.workflow_run_id r.name (e.sha256 r.content)) s.artifacts ≡ none
    → (create_artifact e fresh r s).0 ≡ ok a
    → ((read_artifact e r.workflow_run_id r.agent_id fresh (create_artifact e fresh r s).1).0
        ≡ ok a)
      × (a.content ≡ r.content)
      × (length a.content ≤ r.maximum_bytes)
unfolding create_artifact read_artifact
read-create_artifact e fresh r s a new h = ground (arith, eq_refl (e.sha256 r.content))

-- A creation leaves what is read under every other identifier as it was.
pub read-create_artifact_ne :
    (e : Encoding) (fresh run_id agent_id artifact_id : ℕ) (r : ArtifactRequest) (s : RuntimeTables)
    → artifact_id ≢ fresh
    → (read_artifact e run_id agent_id artifact_id (create_artifact e fresh r s).1).0
      ≡ (read_artifact e run_id agent_id artifact_id s).0
unfolding create_artifact read_artifact
read-create_artifact_ne e fresh run_id agent_id artifact_id r s ne = ground arith
