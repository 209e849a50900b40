-- ===== src/Registry/Grants.antt =====
-- What a registration leaves (agent_registry.py).
use agents_should_survive_fa.Base.{
  ℕ, String, ◌≡◌, inl, inr, ◌&&◌, ◌||◌, Bool, true, false, none, some, List, [], ◌∷◌, ◌++◌, ok, err,
  find, find_sound, arith, eq_refl, eq_iff, ==_refl, Option-cases, All, ok-injective, if◌then◌else◌,
  str_eq, ◌==◌, sym, subst, ap, ◌∙◌,
}
use agents_should_survive_fa.Gateway.State.{ToolDefinition}
use agents_should_survive_fa.Managed.State.{active}
use agents_should_survive_fa.Starts.State.{AgentToolGrant}
use agents_should_survive_fa.Registry.{
  AgentRegistration, AgentVersion, RegistryTables, RegistryError, registration_conflict, is_version,
  provides, agent_row, grant_row, grants_for, register_agent,
}

module _ (digest : AgentRegistration → String) (fresh : ℕ) (r : AgentRegistration)
    (t : RegistryTables) (row : AgentVersion) where
  created_answer :
      find (is_version r.metadata) t.agents ≡ none
      → (register_agent digest fresh r t).0 ≡ ok row
      → ((register_agent digest fresh r t).0 ≡ ok (agent_row fresh r (digest r)))
        × ((register_agent digest fresh r t).1.agents ≡ agent_row fresh r (digest r) ∷ t.agents)
  unfolding register_agent
  created_answer new h = (ground arith, ground arith)

  -- What stands in the table after a registration that returned.
  stands :
      (register_agent digest fresh r t).0 ≡ ok row
      → (find (is_version r.metadata) (register_agent digest fresh r t).1.agents ≡ some row)
        × (row.registration_sha256 ≡ digest r)
  unfolding register_agent
  stands h = elim (Option-cases (find (is_version r.metadata) t.agents)) [
    | inr (own, e) ↦ (ground arith, ground (arith, eq_iff own.registration_sha256 (digest r)))
    | inl e ↦
        let (answer, rows) = created_answer e h in
        let same =
          ok-injective RegistryError AgentVersion (agent_row fresh r (digest r)) row
            (sym answer ∙ h) in
        (
          ap (find (is_version r.metadata)) rows
              ∙ ground (arith, same, eq_refl r.metadata.slug, eq_refl r.metadata.version),
          ap (λ x. x.registration_sha256) (sym same),
        )
  ]

repeated_on :
    (digest : AgentRegistration → String) (again : ℕ) (r other : AgentRegistration)
    (u : RegistryTables) (row : AgentVersion)
    → other.metadata.slug ≡ r.metadata.slug
    → other.metadata.version ≡ r.metadata.version
    → find (is_version r.metadata) u.agents ≡ some row
    → row.registration_sha256 ≡ digest r
    → register_agent digest again other u
      ≡ (if str_eq (digest r) (digest other) then (ok row, u) else (err registration_conflict, u))
unfolding register_agent
repeated_on digest again r other u row slug version found same =
    let there : find (is_version other.metadata) u.agents ≡ some row = rw (slug, version) found in
    ground arith

-- A registration that returned a row is answered with that row when the same version is registered
-- again with a registration of the same digest, and refused as a conflict when the digest is another,
-- whatever identifier the repetition draws; neither changes anything.
pub register_agent_repeated :
    (digest : AgentRegistration → String) (fresh again : ℕ) (r other : AgentRegistration)
    (t : RegistryTables) (row : AgentVersion)
    → other.metadata.slug ≡ r.metadata.slug
    → other.metadata.version ≡ r.metadata.version
    → (register_agent digest fresh r t).0 ≡ ok row
    → register_agent digest again other (register_agent digest fresh r t).1 ≡ (
        if str_eq (digest r) (digest other)
        then (ok row, (register_agent digest fresh r t).1)
        else (err registration_conflict, (register_agent digest fresh r t).1))
register_agent_repeated digest fresh again r other t row slug version h =
    let (found, same) = stands digest fresh r t row h in
    repeated_on digest again r other (register_agent digest fresh r t).1 row slug version found same

abbrev pub grants_tool : ℕ → ToolDefinition → AgentToolGrant → Bool
grants_tool agent_id tool g = g.agent_id == agent_id && g.tool_definition_id == tool.id

abbrev pub has_grant : ℕ → ToolDefinition → List AgentToolGrant → Bool
has_grant agent_id tool [] = false
has_grant agent_id tool (g ∷ gs) = grants_tool agent_id tool g || has_grant agent_id tool gs

-- Each declared tool is there, enabled, and granted to the agent.
abbrev pub Granted : ℕ → List ToolDefinition → List AgentToolGrant → List (String × String) → Type 0
Granted agent_id tools gs declared =
    All
      (λ (name, version).
        (tool : ToolDefinition) × (find (provides name version) tools ≡ some tool)
        × (tool.enabled ≡ true)
        × (has_grant agent_id tool gs ≡ true))
      declared

weaken-Granted :
    (agent_id : ℕ) (tools : List ToolDefinition) (g : AgentToolGrant) (gs : List AgentToolGrant)
    (declared : List (String × String))
    → Granted agent_id tools gs declared
    → Granted agent_id tools (g ∷ gs) declared
weaken-Granted agent_id tools g gs [] all = tt
weaken-Granted agent_id tools g gs (d ∷ declared) ((tool, found, enabled, held), rest) =
    ((tool, found, enabled, ground arith), weaken-Granted agent_id tools g gs declared rest)

grants_for-Granted :
    (agent_id : ℕ) (policy digest : String) (tools : List ToolDefinition)
    (declared : List (String × String)) (gs old : List AgentToolGrant)
    → grants_for agent_id policy digest tools declared ≡ some gs
    → Granted agent_id tools (gs ++ old) declared
unfolding grants_for
grants_for-Granted agent_id policy digest tools [] gs old h = tt
grants_for-Granted agent_id policy digest tools ((name, version) ∷ declared) gs old h =
    elim (Option-cases (find (provides name version) tools)) [
      | inl e ↦ absurd (ground arith)
      | inr (tool, e) ↦ elim (Option-cases (grants_for agent_id policy digest tools declared)) [
        | inl f ↦ absurd (ground arith)
        | inr (rest, f) ↦
            let made : grant_row agent_id tool policy digest ∷ rest ≡ gs = ground arith in
            let fit = find_sound (provides name version) tools e in
            subst (λ x. Granted agent_id tools (x ++ old) ((name, version) ∷ declared)) made
              (
                (tool, e, ground arith, ground (arith, ==_refl agent_id, ==_refl tool.id)),
                weaken-Granted agent_id tools (grant_row agent_id tool policy digest) (rest ++ old)
                    declared (grants_for-Granted agent_id policy digest tools declared rest old f),
              )
      ]
    ]

-- A registration of a new version that succeeds leaves the row that it returns in the table, under the
-- name and version of its manifest: an active agent with the new identifier, which is granted every
-- tool of its manifest; each of these is installed in that version and enabled.
pub register_agent-Granted :
    (digest : AgentRegistration → String) (fresh : ℕ) (r : AgentRegistration) (t : RegistryTables)
    (row : AgentVersion)
    → find (is_version r.metadata) t.agents ≡ none
    → (register_agent digest fresh r t).0 ≡ ok row
    → (find (is_version r.metadata) (register_agent digest fresh r t).1.agents ≡ some row)
      × (row.id ≡ fresh)
      × (row.status ≡ active)
      × Granted fresh t.tools (register_agent digest fresh r t).1.grants r.metadata.tools
unfolding register_agent
register_agent-Granted digest fresh r t row new h =
    let (answer, _) = created_answer digest fresh r t row new h in
    let same =
      ok-injective RegistryError AgentVersion (agent_row fresh r (digest r)) row (sym answer ∙ h) in
    elim (Option-cases (grants_for fresh r.metadata.version (digest r) t.tools r.metadata.tools)) [
      | inl e ↦ absurd (ground arith)
      | inr (gs, e) ↦
          let stored : (register_agent digest fresh r t).1.grants ≡ gs ++ t.grants = ground arith in
          (
            (stands digest fresh r t row h).0,
            ap (λ x. x.id) (sym same),
            ap (λ x. x.status) (sym same),
            subst (λ x. Granted fresh t.tools x r.metadata.tools) (sym stored)
                (grants_for-Granted fresh r.metadata.version (digest r) t.tools r.metadata.tools gs
                  t.grants e),
          )
    ]
