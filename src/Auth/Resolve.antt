-- ===== src/Auth/Resolve.antt =====
-- `resolve_api_key` and `key_is_active` (auth.py).
pub mod Sound
use agents_should_survive_fa.Base.{
  ℕ, String, ◌≡◌, Bool, true, false, not, ◌&&◌, Option, none, some, List, ◌==◌, ltb, if◌then◌else◌,
  Result, ok, err, find, update_first, is_some,
}
use agents_should_survive_fa.Auth.Texts.{Codes, same_codes}
use agents_should_survive_fa.Auth.Keys.{parse_api_key}
use agents_should_survive_fa.Auth.Secrets.{Crypto, verify_secret}
use agents_should_survive_fa.Auth.State.{
  PrincipalType, AuthPrincipal, ApiKey, AuthTables, is_active, validate_scopes,
}

pub record AuthenticatedPrincipal : Type 0 where
  pub id : ℕ
  pub key_id : ℕ
  pub scopes : List String
  pub principal_type : PrincipalType

-- `revoked_at is None and (expires_at is None or expires_at > now)`
unfoldable pub key_is_active : ℕ → ApiKey → Bool
key_is_active now key = elim key.revoked_at [
  | some _ ↦ false
  | none ↦ elim key.expires_at [ none ↦ true | some expires ↦ ltb now expires ]
]

abbrev pub identified : Codes → ApiKey → Bool
identified identifier key = same_codes key.key_identifier identifier

abbrev pub principal_of : ℕ → AuthPrincipal → Bool
principal_of id principal = principal.id == id

abbrev pub authenticated : ApiKey → AuthPrincipal → List String → AuthenticatedPrincipal
authenticated key principal scopes = record {
  id = principal.id;
  key_id = key.id;
  scopes = scopes;
  principal_type = principal.principal_type;
}

-- What the checks on a key that was found give; `none` is a refusal.
unfoldable pub check_key :
    Crypto → ℕ → Codes → ApiKey → List AuthPrincipal → Option AuthenticatedPrincipal
unfolding key_is_active
check_key c now secret key principals =
    if not (key_is_active now key)
    then none
    else if not (verify_secret c secret key.secret_hash)
    then none
    else elim (find (principal_of key.principal_id) principals) [
      | none ↦ none
      | some principal ↦ elim (is_active principal.status) [
        | false ↦ none
        | true ↦ elim (validate_scopes key.scopes) [
          | err _ ↦ none
          | ok scopes ↦ some (authenticated key principal scopes)
        ]
      ]
    ]

-- `resolve_api_key` at the time `now`.
unfoldable pub resolve_api_key :
    Crypto → ℕ → Codes → AuthTables → Option AuthenticatedPrincipal × AuthTables
unfolding check_key
resolve_api_key c now raw t = elim (parse_api_key raw) [
  | none ↦ (none, t)
  | some (identifier, secret) ↦ elim (find (identified identifier) t.keys) [
    | none ↦ (none, t)
    | some key ↦ elim (check_key c now secret key t.principals) [
      | none ↦ (none, t)
      | some principal ↦ (
        some principal,
        record t {
          keys =
              update_first (identified identifier) (λ row. record row { last_used_at = some now })
                t.keys;
        },
      )
    ]
  ]
]
