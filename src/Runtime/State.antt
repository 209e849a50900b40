-- ===== src/Runtime/State.antt =====
-- The tables of runtime_state.py, its errors, and its checks of names and content types. The
-- regular expressions are written out over code points; `fullmatch` takes the whole text.
use agents_should_survive_fa.Base.{
  ℕ, String, Bool, true, false, ◌&&◌, ◌||◌, Option, none, some, List, [], ◌∷◌, leb, ltb, ◌==◌,
  length, Tx, raise, pure, find,
}
use agents_should_survive_fa.Base.Int.{ℤ}
use agents_should_survive_fa.Base.Dict.{Dict}
use agents_should_survive_fa.Base.Text.{codes}
use agents_should_survive_fa.Failures.{PlatformFailure}
use agents_should_survive_fa.Json.{Json}
use agents_should_survive_fa.Models.{WorkflowRun}

pub record RunCheckpoint : Type 0 where
  pub workflow_run_id : ℕ
  pub agent_id : ℕ
  pub name : String
  pub schema_version : String
  pub value : Json
  pub digest_sha256 : String
  pub size_bytes : ℕ

pub record RunArtifact : Type 0 where
  pub id : ℕ
  pub workflow_run_id : ℕ
  pub agent_id : ℕ
  pub parent_artifact_id : Option ℕ
  pub name : String
  pub content_type : String
  pub digest_sha256 : String
  pub size_bytes : ℕ
  pub content : List ℕ

pub record RunBudget : Type 0 where
  pub workflow_run_id : ℕ
  pub limits : Dict ℤ
  pub consumed : Dict ℤ
  pub exhausted_at : Option ℕ

pub record RuntimeTables : Type 0 where
  pub runs : List WorkflowRun
  pub checkpoints : List RunCheckpoint
  pub artifacts : List RunArtifact
  pub budgets : List RunBudget

-- `RuntimeStateConflict`, `RuntimeStateValidationError` and a platform failure.
pub data RuntimeError : Type 0 where
  conflict : String → RuntimeError
  validation : String → RuntimeError
  platform : PlatformFailure → RuntimeError

abbrev pub all_of : (ℕ → Bool) → List ℕ → Bool
all_of p [] = true
all_of p (c ∷ cs) = p c && all_of p cs

abbrev pub is_alphanumeric : ℕ → Bool
is_alphanumeric c = leb b'A' c && leb c b'Z' || leb b'a' c && leb c b'z' || leb b'0' c && leb c b'9'

abbrev pub is_name_part : ℕ → Bool
is_name_part c = is_alphanumeric c || c == b'_' || c == b'.' || c == b'-'

-- `[A-Za-z0-9][A-Za-z0-9_.-]{0,159}`
abbrev name_codes : List ℕ → Bool
name_codes [] = false
name_codes (c ∷ cs) = is_alphanumeric c && leb (length cs) 159 && all_of is_name_part cs

unfoldable pub is_name : String → Bool
is_name name = name_codes (codes name)

-- The characters `!#$&^_.+-`.
abbrev is_type_part : ℕ → Bool
is_type_part c =
    is_alphanumeric c
    || c == b'!'
    || c == b'#'
    || c == b'$'
    || c == b'&'
    || c == b'^'
    || c == b'_'
    || c == b'.'
    || c == b'+'
    || c == b'-'

-- What follows the first character of a part: more of it, or the slash and the second part.
abbrev second_part : List ℕ → Bool
second_part [] = false
second_part (c ∷ cs) = is_type_part c && all_of is_type_part cs

abbrev first_part : List ℕ → Bool
first_part [] = false
first_part (c ∷ cs) = c == b'/' && second_part cs || is_type_part c && first_part cs

-- `[A-Za-z0-9!#$&^_.+-]+/[A-Za-z0-9!#$&^_.+-]+`
abbrev content_type_codes : List ℕ → Bool
content_type_codes [] = false
content_type_codes (c ∷ cs) = is_type_part c && first_part cs

unfoldable pub is_content_type : String → Bool
is_content_type content_type = content_type_codes (codes content_type)

-- `json.dumps(...).encode("utf-8")`, which may fail, and SHA-256 in hexadecimal.
pub record Encoding : Type 0 where
  pub dumps : Json → Option (List ℕ)
  pub sha256 : List ℕ → String

-- `_json_payload`: the encoded bytes and their digest.
unfoldable pub json_payload : Encoding → Json → ℕ → Tx RuntimeTables RuntimeError (List ℕ × String)
json_payload e value maximum_bytes = elim (e.dumps value) [
  | none ↦ raise (validation "runtime state must be JSON serializable")
  | some encoded ↦ elim (ltb maximum_bytes (length encoded)) [
    | true ↦ raise (validation "runtime state exceeds the configured size limit")
    | false ↦ pure (encoded, e.sha256 encoded)
  ]
]

-- `run is None or run.agent_id != agent_id`, negated.
abbrev pub pins : ℕ → List WorkflowRun → ℕ → Bool
pins run_id runs agent_id = elim (find (λ r. r.id == run_id) runs) [
  | none ↦ false
  | some run ↦ run.agent_id == agent_id
]
