-- ===== src/Examples/Registering.antt =====
-- Examples for agent_registry.py: an agent that declares one tool, over a digest that is the package.
use agents_should_survive_fa.Base.{
  String, ◌≡◌, refl, true, false, some, [], ◌∷◌, ok, err, find, if◌then◌else◌, str_eq,
}
use agents_should_survive_fa.Json.{null}
use agents_should_survive_fa.Gateway.State.{ToolDefinition}
use agents_should_survive_fa.Managed.State.{active}
use agents_should_survive_fa.Registry.{
  Manifest, AgentRegistration, RegistryTables, agent_row, is_version, parse_registration,
  register_agent, grants_for, registration_conflict, missing_declared_tool, manifest_error,
}
use agents_should_survive_fa.Registry.Grants.{
  Granted, register_agent-Granted, register_agent_repeated,
}

abbrev manifest : Manifest
manifest = record { slug = "helper"; version = "1"; tools = ("mail", "1") ∷ []; content = null }

abbrev registration : AgentRegistration
registration = record {
  metadata = manifest;
  package_name = "helper-pkg";
  entry_point = "helper.main:agent";
}

abbrev other : AgentRegistration
other = record registration { package_name = "other-pkg" }

abbrev digest : AgentRegistration → String
digest r = r.package_name

abbrev mail : ToolDefinition
mail = record { id = 20; name = "mail"; version = "1"; approval_required = false; enabled = true }

abbrev tables : RegistryTables
tables = record { agents = []; tools = mail ∷ []; grants = [] }

parsed : parse_registration (some manifest) "helper-pkg" "helper.main:agent" ≡ ok registration
unfolding parse_registration
parsed = refl

misplaced :
    parse_registration (some manifest) "helper-pkg" "helper.main"
    ≡ err (manifest_error "entry point must be a module path and symbol")
unfolding parse_registration
misplaced = refl

registered :
    (register_agent digest 7 registration tables).0 ≡ ok (agent_row 7 registration "helper-pkg")
unfolding register_agent grants_for
registered = refl

unavailable :
    register_agent digest 7 registration
      (record tables { tools = record mail { enabled = false } ∷ [] })
    ≡ (err missing_declared_tool, record tables { tools = record mail { enabled = false } ∷ [] })
unfolding register_agent grants_for
unavailable = refl

register_agent-Granted_example :
    (find (is_version manifest) (register_agent digest 7 registration tables).1.agents
      ≡ some (agent_row 7 registration "helper-pkg"))
    × ((agent_row 7 registration "helper-pkg").id ≡ 7)
    × ((agent_row 7 registration "helper-pkg").status ≡ active)
    × Granted 7 tables.tools (register_agent digest 7 registration tables).1.grants manifest.tools
register_agent-Granted_example =
    register_agent-Granted digest 7 registration tables (agent_row 7 registration "helper-pkg") refl
      registered

register_agent_repeated_example :
    register_agent digest 8 other (register_agent digest 7 registration tables).1 ≡ (
      if str_eq "helper-pkg" "other-pkg"
      then (
        ok (agent_row 7 registration "helper-pkg"),
        (register_agent digest 7 registration tables).1,
      )
      else (err registration_conflict, (register_agent digest 7 registration tables).1))
register_agent_repeated_example =
    register_agent_repeated digest 7 8 registration other tables
      (agent_row 7 registration "helper-pkg") refl refl registered
