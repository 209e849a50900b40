-- ===== src/Auth/Operator.antt =====
-- The operator's commands `bootstrap`, `revoke` and `disable_principal` (auth_cli.py), each one
-- transaction, and `generate_api_key` (auth.py), from the texts that the system's randomness gives.
pub mod Revoked
use agents_should_survive_fa.Base.{
  ℕ, String, Bool, true, false, not, ◌&&◌, ◌||◌, ◌-◌, zero, suc, Option, none, some, List, [], ◌∷◌,
  ◌++◌, str_eq, ◌==◌, if◌then◌else◌, Tx, Result, ok, err, transaction, ◌>>=◌, find, update_first,
  select_where, is_some, length,
}
use agents_should_survive_fa.Auth.Texts.{Codes}
use agents_should_survive_fa.Auth.Keys.{key_prefix_codes, plaintext_of}
use agents_should_survive_fa.Auth.Secrets.{Crypto, hash_secret}
use agents_should_survive_fa.Auth.State.{
  PrincipalType, PrincipalStatus, UserStatus, User, AuthPrincipal, ApiKey, AuthAudit, AuthTables,
  is_active, validate_scopes,
}
use agents_should_survive_fa.Auth.Resolve.{identified, principal_of, resolve_api_key}

pub record GeneratedApiKey : Type 0 where
  pub plaintext : Codes
  pub key_identifier : Codes
  pub key_prefix : Codes
  pub last_four : Codes
  pub secret_hash : Codes

-- `s[:n]` and `s[-4:]`
abbrev pub take_codes : ℕ → Codes → Codes
take_codes zero s = []
take_codes (suc n) [] = []
take_codes (suc n) (c ∷ s) = c ∷ take_codes n s

abbrev pub drop_codes : ℕ → Codes → Codes
drop_codes zero s = s
drop_codes (suc n) [] = []
drop_codes (suc n) (c ∷ s) = drop_codes n s

abbrev last_four_of : Codes → Codes
last_four_of s = drop_codes (length s - 4) s

-- `token_urlsafe(9).replace("-", "").replace("_", "")[:12]`
abbrev pub identifier_of : Codes → Codes
identifier_of token = take_codes 12 (select_where (λ c. not (c == b'-' || c == b'_')) token)

-- `generate_api_key` from its tokens and the salt; `none` is an error of `hash_secret`.
unfoldable pub generate_api_key : Crypto → Codes → Codes → List ℕ → Option GeneratedApiKey
generate_api_key c token secret salt = elim (hash_secret c secret salt) [
  | none ↦ none
  | some hash ↦ some (record {
    plaintext = plaintext_of (identifier_of token) secret;
    key_identifier = identifier_of token;
    key_prefix = key_prefix_codes ++ take_codes 6 (identifier_of token);
    last_four = last_four_of secret;
    secret_hash = hash;
  })
]

-- The `ValueError`s by their text, the unknown scopes, and the database's refusal of a row whose
-- identifier is taken.
pub data OperatorError : Type 0 where
  value_error : String → OperatorError
  unknown_scopes : List String → OperatorError
  integrity_error : OperatorError

-- The arguments of `bootstrap`, the generated key, and the identifiers of the rows it may add.
pub record Bootstrap : Type 0 where
  pub email : String
  pub display_name : String
  pub scopes : List String
  pub expires_at : Option ℕ
  pub generated : GeneratedApiKey
  pub fresh_user : ℕ
  pub fresh_key : ℕ

abbrev pub by_email : String → User → Bool
by_email email user = str_eq user.email email

abbrev pub of_user : ℕ → AuthPrincipal → Bool
of_user id principal = elim principal.user_id [ none ↦ false | some own ↦ own == id ]

-- The user with the address, or the row that is added.
abbrev pub user_for : Bootstrap → AuthTables → User × AuthTables
user_for b t = elim (find (by_email b.email) t.users) [
  | some user ↦ (user, t)
  | none ↦
      let user : User = record {
        id = b.fresh_user;
        email = b.email;
        display_name = b.display_name;
        status = UserStatus.active;
      } in
      (user, record t { users = user ∷ t.users })
]

abbrev pub new_principal : User → AuthPrincipal
new_principal user = record {
  id = user.id;
  principal_type = PrincipalType.user;
  display_name = user.display_name;
  status = PrincipalStatus.active;
  user_id = some user.id;
}

-- The principal of the user, or the row that is added under the user's identifier.
abbrev pub principal_for : User → Tx AuthTables OperatorError AuthPrincipal
principal_for user t = elim (find (of_user user.id) t.principals) [
  | some principal ↦ (ok principal, t)
  | none ↦ elim (is_some (find (principal_of user.id) t.principals)) [
    | true ↦ (err integrity_error, t)
    | false ↦ (ok (new_principal user), record t { principals = new_principal user ∷ t.principals })
  ]
]

abbrev pub new_key : Bootstrap → ℕ → List String → ApiKey
new_key b principal_id scopes = record {
  id = b.fresh_key;
  principal_id = principal_id;
  key_identifier = b.generated.key_identifier;
  key_prefix = b.generated.key_prefix;
  last_four = b.generated.last_four;
  secret_hash = b.generated.secret_hash;
  label = "local-bootstrap";
  scopes = scopes;
  expires_at = b.expires_at;
  revoked_at = none;
  last_used_at = none;
}

abbrev key_audit : String → Option ℕ → ℕ → AuthAudit
key_audit action actor_id resource_id = record {
  actor_id = actor_id;
  action = action;
  resource_id = some resource_id;
}

-- The key that is added for a principal.
abbrev pub add_key : Bootstrap → AuthPrincipal → Tx AuthTables OperatorError Codes
add_key b principal t = elim (validate_scopes b.scopes) [
  | err unknown ↦ (err (unknown_scopes unknown), t)
  | ok scopes ↦ elim (is_some (find (identified b.generated.key_identifier) t.keys)) [
    | true ↦ (err integrity_error, t)
    | false ↦ (
      ok b.generated.plaintext,
      record t {
        keys = new_key b principal.id scopes ∷ t.keys;
        audits = key_audit "api_key.create" (some principal.id) b.fresh_key ∷ t.audits;
      },
    )
  ]
]

-- `bootstrap`; an error leaves the tables that it met.
unfoldable pub bootstrap : Bootstrap → Tx AuthTables OperatorError Codes
bootstrap b = transaction (
    (λ t. (ok (user_for b t).0, (user_for b t).1)) >>= λ user.
    principal_for user >>= λ principal. add_key b principal)

-- `revoke` at the time `now`; the answer is the key's prefix and its last four characters.
unfoldable pub revoke : ℕ → Codes → Tx AuthTables OperatorError (Codes × Codes)
revoke now identifier t = elim (find (identified identifier) t.keys) [
  | none ↦ (err (value_error "API key identifier was not found"), t)
  | some key ↦ elim key.revoked_at [
    | some _ ↦ (ok (key.key_prefix, key.last_four), t)
    | none ↦ (
      ok (key.key_prefix, key.last_four),
      record t {
        keys =
            update_first (identified identifier) (λ row. record row { revoked_at = some now })
              t.keys;
        audits = key_audit "api_key.revoke" (some key.principal_id) key.id ∷ t.audits;
      },
    )
  ]
]

abbrev pub disable_row : AuthPrincipal → AuthPrincipal
disable_row principal = record principal { status = PrincipalStatus.disabled }

-- `disable_principal`
unfoldable pub disable_principal : String → Tx AuthTables OperatorError String
disable_principal email t = elim (find (by_email email) t.users) [
  | none ↦ (err (value_error "user was not found"), t)
  | some user ↦ elim (find (of_user user.id) t.principals) [
    | none ↦ (err (value_error "user has no API principal"), t)
    | some principal ↦ elim (is_active principal.status) [
      | false ↦ (ok principal.display_name, t)
      | true ↦ (
        ok principal.display_name,
        record t {
          users =
              update_first (by_email email) (λ row. record row { status = UserStatus.disabled })
                t.users;
          principals = update_first (of_user user.id) disable_row t.principals;
          audits = key_audit "principal.disable" none principal.id ∷ t.audits;
        },
      )
    ]
  ]
]

-- One authentication or one command of the operator.
pub data AuthStep (c : Crypto) (t : AuthTables) : AuthTables → Type 0 where
  authenticates : (now : ℕ) (raw : Codes) → AuthStep c t (resolve_api_key c now raw t).1
  bootstraps : (b : Bootstrap) → AuthStep c t (bootstrap b t).1
  revokes : (now : ℕ) (identifier : Codes) → AuthStep c t (revoke now identifier t).1
  disables : (email : String) → AuthStep c t (disable_principal email t).1

pub data AuthSteps (c : Crypto) (t : AuthTables) : AuthTables → Type 0 where
  stays : AuthSteps c t t
  then_step : {u v : AuthTables} → AuthSteps c t u → AuthStep c u v → AuthSteps c t v
