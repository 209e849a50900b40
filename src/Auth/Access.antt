-- ===== src/Auth/Access.antt =====
-- The authority of a request: `get_authenticated_principal` and the dependency of `require_scopes`
-- (api.py), `allows` and `assert_approval_decision_authorized` (auth.py).
use agents_should_survive_fa.Base.{
  ℕ, String, ◌≡◌, ◌↔◌, ap, ◌∙◌, inl, inr, Bool, true, false, not, ◌&&◌, ◌||◌, Option, none, some,
  List, [], ◌∷◌, map, if◌then◌else◌, arith, Option-cases,
}
use agents_should_survive_fa.Base.Text.{to_lower}
use agents_should_survive_fa.Auth.Texts.{Codes, same_codes, is_empty, partition}
use agents_should_survive_fa.Auth.Secrets.{Crypto}
use agents_should_survive_fa.Auth.State.{PrincipalType, user, service, agent, AuthTables, has_scope}
use agents_should_survive_fa.Auth.Resolve.{AuthenticatedPrincipal, resolve_api_key}
use agents_should_survive_fa.Auth.Resolve.Sound.{Owns, resolve_api_key-Owns}

-- `set(required_scopes).issubset(self.scopes)`
abbrev pub all_scopes : List String → List String → Bool
all_scopes [] own = true
all_scopes (scope ∷ scopes) own = has_scope scope own && all_scopes scopes own

unfoldable pub allows : AuthenticatedPrincipal → List String → Bool
allows p required = has_scope "admin" p.scopes || all_scopes required p.scopes

abbrev pub same_type : PrincipalType → PrincipalType → Bool
same_type user user = true
same_type service service = true
same_type agent agent = true
same_type _ _ = false

abbrev pub is_type_of : PrincipalType → List PrincipalType → Bool
is_type_of t [] = false
is_type_of t (own ∷ types) = same_type own t || is_type_of t types

-- What a refused decision says.
pub data ApprovalDenial : Type 0 where
  insufficient_scope type_not_permitted : ApprovalDenial

-- `assert_approval_decision_authorized`; `none` is a call that returns.
unfoldable pub assert_approval_decision_authorized : AuthenticatedPrincipal → Option ApprovalDenial
unfolding allows
assert_approval_decision_authorized p =
    if not (allows p ("approvals:decide" ∷ []))
    then some insufficient_scope
    else if not (is_type_of p.principal_type (user ∷ service ∷ []))
    then some type_not_permitted
    else none

abbrev pub bearer : Codes
bearer = b'b' ∷ b'e' ∷ b'a' ∷ b'r' ∷ b'e' ∷ b'r' ∷ []

-- The token of an `Authorization` header, if its scheme is Bearer and it has one.
unfoldable pub bearer_token : Codes → Option Codes
bearer_token header = elim (partition b' ' header).1 [
  | none ↦ none
  | some token ↦
      if same_codes (map to_lower (partition b' ' header).0) bearer && not (is_empty token)
      then some token
      else none
]

-- `get_authenticated_principal`; `none` is the response 401.
unfoldable pub get_authenticated_principal :
    Crypto → ℕ → Codes → AuthTables → Option AuthenticatedPrincipal × AuthTables
get_authenticated_principal c now header t = elim (bearer_token header) [
  | none ↦ (none, t)
  | some token ↦ resolve_api_key c now token t
]

-- The response 401, the two responses 403, or the principal that the handler is called with.
pub data Access : Type 0 where
  unauthenticated scope_denied type_denied : Access
  admitted : AuthenticatedPrincipal → Access

-- `audit_authorization_denial`
abbrev audit_authorization_denial : AuthenticatedPrincipal → AuthTables → AuthTables
audit_authorization_denial p t = record t {
  audits =
      record { actor_id = some p.id; action = "api.authorization.denied"; resource_id = none }
      ∷ t.audits;
}

-- `allowed_principal_types is not None and principal.principal_type not in ...`, negated.
abbrev pub is_permitted : Option (List PrincipalType) → PrincipalType → Bool
is_permitted none t = true
is_permitted (some types) t = is_type_of t types

-- The dependency that `require_scopes` returns.
unfoldable pub require_scopes :
    List String
    → Option (List PrincipalType)
    → Crypto
    → ℕ
    → Codes
    → AuthTables
    → Access × AuthTables
unfolding get_authenticated_principal allows
require_scopes scopes types c now header t =
    let (found, u) = get_authenticated_principal c now header t in
    elim found [
      | none ↦ (unauthenticated, u)
      | some p ↦
          if not (allows p scopes)
          then (scope_denied, audit_authorization_denial p u)
          else if not (is_permitted types p.principal_type)
          then (type_denied, audit_authorization_denial p u)
          else (admitted p, u)
    ]

-- What a request needs to reach the handler as a principal.
pub data Admits (scopes : List String) (types : Option (List PrincipalType)) (c : Crypto) (now : ℕ)
    (header : Codes) (t : AuthTables) (p : AuthenticatedPrincipal) : Type 0 where
  admits :
      {token : Codes}
      → bearer_token header ≡ some token
      → Owns c now token t p
      → allows p scopes ≡ true
      → is_permitted types p.principal_type ≡ true
      → Admits scopes types c now header t p

module _ (scopes : List String) (types : Option (List PrincipalType)) (c : Crypto) (now : ℕ)
    (header : Codes) (t : AuthTables) (p : AuthenticatedPrincipal) where
  admitted_needs :
      (require_scopes scopes types c now header t).0 ≡ admitted p
      → Admits scopes types c now header t p
  unfolding require_scopes
  admitted_needs h = elim (Option-cases (bearer_token header)) [
    | inl e ↦ absurd (ground arith)
    | inr (token, e) ↦ elim (Option-cases (resolve_api_key c now token t).0) [
      | inl f ↦ absurd (ground arith)
      | inr (q, f) ↦
          let same : q ≡ p = ground arith in
          let may : allows p scopes ≡ true = ground arith in
          let fit : is_permitted types p.principal_type ≡ true = ground arith in
          admits e ((resolve_api_key-Owns c now token t p).0 (f ∙ ap some same)) may fit
    ]
  ]

  needs_admitted :
      Admits scopes types c now header t p
      → (require_scopes scopes types c now header t).0 ≡ admitted p
  unfolding require_scopes
  needs_admitted (admits {token} given owned may fit) =
      ground (arith, (resolve_api_key-Owns c now token t p).1 owned)

  -- A handler behind `require_scopes` is called with a principal exactly when the header carries a
  -- bearer token that belongs to that principal, the principal is an admin or has every required scope,
  -- and its type is permitted.
  pub require_scopes-Admits :
      ((require_scopes scopes types c now header t).0 ≡ admitted p)
      ↔ Admits scopes types c now header t p
  require_scopes-Admits = (admitted_needs, needs_admitted)
