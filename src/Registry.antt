-- ===== src/Registry.antt =====
-- `parse_registration` and `register_agent` (agent_registry.py): an agent version is registered once,
-- with a grant for each tool that its manifest declares.
pub mod Grants
use agents_should_survive_fa.Base.{
  ℕ, String, ◌≡◌, Bool, true, false, not, ◌&&◌, ◌||◌, Option, none, some, List, [], ◌∷◌, ◌++◌,
  str_eq, ◌==◌, leb, length, if◌then◌else◌, Tx, Result, ok, err, find,
}
use agents_should_survive_fa.Base.Text.{codes}
use agents_should_survive_fa.Json.{Json}
use agents_should_survive_fa.Gateway.State.{ToolDefinition}
use agents_should_survive_fa.Managed.State.{AgentStatus, active}
use agents_should_survive_fa.Runtime.State.{all_of, is_alphanumeric, is_name_part}
use agents_should_survive_fa.Starts.State.{AgentToolGrant}

-- `[A-Za-z0-9][A-Za-z0-9_.-]{0,119}`
abbrev package_codes : List ℕ → Bool
package_codes [] = false
package_codes (c ∷ cs) = is_alphanumeric c && leb (length cs) 119 && all_of is_name_part cs

abbrev is_letter : ℕ → Bool
is_letter c = leb b'A' c && leb c b'Z' || leb b'a' c && leb c b'z' || c == b'_'

abbrev is_word : ℕ → Bool
is_word c = is_alphanumeric c || c == b'_'

abbrev symbol_codes : List ℕ → Bool
symbol_codes [] = false
symbol_codes (c ∷ cs) = is_letter c && all_of is_word cs

abbrev module_codes : List ℕ → Bool
module_codes [] = false
module_codes (c ∷ cs) =
    let rest = module_codes cs in
    if c == b':' then symbol_codes cs else (is_word c || c == b'.') && rest

-- `[A-Za-z_][A-Za-z0-9_.]*:[A-Za-z_][A-Za-z0-9_]*`
abbrev entry_point_codes : List ℕ → Bool
entry_point_codes [] = false
entry_point_codes (c ∷ cs) = is_letter c && module_codes cs

-- The parts of a manifest that a registration reads, and its JSON. Tool names are unique in it.
pub record Manifest : Type 0 where
  pub slug : String
  pub version : String
  pub tools : List (String × String)
  pub content : Json

pub record AgentRegistration : Type 0 where
  pub metadata : Manifest
  pub package_name : String
  pub entry_point : String

-- `AgentManifestError` by its text, `AgentRegistrationConflict`, and `MissingDeclaredTool`.
pub data RegistryError : Type 0 where
  manifest_error : String → RegistryError
  registration_conflict missing_declared_tool : RegistryError

-- `parse_registration`; `manifest` is what `AgentMetadata.model_validate` makes of the JSON, if it
-- accepts it.
unfoldable pub parse_registration :
    Option Manifest → String → String → Result RegistryError AgentRegistration
parse_registration manifest package_name entry_point =
    if not (package_codes (codes package_name))
    then err (manifest_error "package name is invalid")
    else if not (entry_point_codes (codes entry_point))
    then err (manifest_error "entry point must be a module path and symbol")
    else elim manifest [
      | none ↦ err (manifest_error "managed agent manifest is invalid")
      | some metadata ↦
          ok
            (record { metadata = metadata; package_name = package_name; entry_point = entry_point })
    ]

-- The row of an agent version; the digest stands in it and in its configuration.
pub record AgentVersion : Type 0 where
  pub id : ℕ
  pub name : String
  pub version : String
  pub workflow_type : String
  pub package_name : String
  pub entry_point : String
  pub manifest : Json
  pub integrity_digest : String
  pub status : AgentStatus
  pub registration_sha256 : String

pub record RegistryTables : Type 0 where
  pub agents : List AgentVersion
  pub tools : List ToolDefinition
  pub grants : List AgentToolGrant

abbrev pub is_version : Manifest → AgentVersion → Bool
is_version m a = str_eq a.name m.slug && str_eq a.version m.version

-- An enabled tool of a name and version.
abbrev pub provides : String → String → ToolDefinition → Bool
provides name version tool = tool.enabled && str_eq tool.name name && str_eq tool.version version

abbrev pub agent_row : ℕ → AgentRegistration → String → AgentVersion
agent_row fresh r digest = record {
  id = fresh;
  name = r.metadata.slug;
  version = r.metadata.version;
  workflow_type = "managed_agent";
  package_name = r.package_name;
  entry_point = r.entry_point;
  manifest = r.metadata.content;
  integrity_digest = digest;
  status = active;
  registration_sha256 = digest;
}

abbrev pub grant_row : ℕ → ToolDefinition → String → String → AgentToolGrant
grant_row agent_id tool version digest = record {
  agent_id = agent_id;
  tool_definition_id = tool.id;
  policy_version = version;
  policy_hash = digest;
}

-- The grants of the declared tools, or none if a tool is missing.
unfoldable pub grants_for :
    ℕ
    → String
    → String
    → List ToolDefinition
    → List (String × String)
    → Option (List AgentToolGrant)
grants_for agent_id policy digest tools [] = some []
grants_for agent_id policy digest tools ((name, version) ∷ rest) =
    elim (find (provides name version) tools) [
      | none ↦ none
      | some tool ↦ elim (grants_for agent_id policy digest tools rest) [
        | none ↦ none
        | some grants ↦ some (grant_row agent_id tool policy digest ∷ grants)
      ]
    ]

-- `register_agent`; `digest` is `registration_digest`, `fresh` the identifier of a new row.
unfoldable pub register_agent :
    (AgentRegistration → String)
    → ℕ
    → AgentRegistration
    → Tx RegistryTables RegistryError AgentVersion
unfolding grants_for
register_agent digest fresh r t = elim (find (is_version r.metadata) t.agents) [
  | some own ↦ elim (str_eq own.registration_sha256 (digest r)) [
    | true ↦ (ok own, t)
    | false ↦ (err registration_conflict, t)
  ]
  | none ↦ elim (grants_for fresh r.metadata.version (digest r) t.tools r.metadata.tools) [
    | none ↦ (err missing_declared_tool, t)
    | some grants ↦ (
      ok (agent_row fresh r (digest r)),
      record t { agents = agent_row fresh r (digest r) ∷ t.agents; grants = grants ++ t.grants },
    )
  ]
]
