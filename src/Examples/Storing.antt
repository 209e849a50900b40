-- ===== src/Examples/Storing.antt =====
-- Examples for the artifacts of runtime_state.py.
use agents_should_survive_fa.Base.{
  ℕ, ◌≡◌, ◌≢◌, ◌≤◌, refl, none, some, [], ◌∷◌, ok, err, length, arith,
}
use agents_should_survive_fa.Runtime.State.{
  RunArtifact, RuntimeTables, is_name, is_content_type, validation,
}
use agents_should_survive_fa.Runtime.Artifact.{
  ArtifactRequest, artifact_row, create_artifact, read_artifact,
}
use agents_should_survive_fa.Runtime.Artifact.Integrity.{read-create_artifact}
use agents_should_survive_fa.Examples.Saving.{encoding, tables}

abbrev request : ArtifactRequest
request = record {
  workflow_run_id = 1;
  agent_id = 5;
  name = "report.txt";
  content_type = "text/plain";
  content = 104 ∷ 105 ∷ [];
  maximum_bytes = 64;
  parent_artifact_id = none;
}

abbrev orphan : ArtifactRequest
orphan = record request { parent_artifact_id = some 40 }

abbrev row : RunArtifact
row = artifact_row 9 request "digest"

abbrev stored : RuntimeTables
stored = record tables { artifacts = row ∷ [] }

created : (create_artifact encoding 9 request tables).0 ≡ ok row
unfolding create_artifact is_name is_content_type
created = refl

refused :
    (create_artifact encoding 9 orphan tables).0
    ≡ err (validation "artifact parent does not belong to this run")
unfolding create_artifact is_name is_content_type
refused = refl

read : (read_artifact encoding 1 5 9 stored).0 ≡ ok row
unfolding read_artifact
read = refl

read-create_artifact_example :
    ((read_artifact encoding 1 5 9 (create_artifact encoding 9 request tables).1).0 ≡ ok row)
    × (row.content ≡ request.content)
    × (length row.content ≤ 64)
read-create_artifact_example = read-create_artifact encoding 9 request tables row refl created

abbrev other : ℕ
other = 10

other_id : 9 ≢ other
other_id = omega arith
