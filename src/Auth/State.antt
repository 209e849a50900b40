-- ===== src/Auth/State.antt =====
-- The tables of auth.py and auth_cli.py, and the scopes of an API key. An identifier is the number of
-- its UUID; a time is a number of microseconds.
use Prim.Native.String.{compare}
use text.Mathlib.Text.{is_lt}
use agents_should_survive_fa.Base.{
  ℕ, String, ◌≡◌, refl, sym, ap, ◌∙◌, subst, Bool, true, false, not, ◌||◌, Option, List, [], ◌∷◌,
  str_eq, if◌then◌else◌, Result, ok, err, select_where, arith, eq_iff, Bool-cases, inl, inr,
}
use agents_should_survive_fa.Auth.Texts.{Codes}

pub data PrincipalType : Type 0 where
  user service agent : PrincipalType

pub data PrincipalStatus : Type 0 where
  active disabled : PrincipalStatus

pub data UserStatus : Type 0 where
  active disabled : UserStatus

abbrev pub is_active : PrincipalStatus → Bool
is_active PrincipalStatus.active = true
is_active PrincipalStatus.disabled = false

pub record User : Type 0 where
  pub id : ℕ
  pub email : String
  pub display_name : String
  pub status : UserStatus

pub record AuthPrincipal : Type 0 where
  pub id : ℕ
  pub principal_type : PrincipalType
  pub display_name : String
  pub status : PrincipalStatus
  pub user_id : Option ℕ

pub record ApiKey : Type 0 where
  pub id : ℕ
  pub principal_id : ℕ
  pub key_identifier : Codes
  pub key_prefix : Codes
  pub last_four : Codes
  pub secret_hash : Codes
  pub label : String
  pub scopes : List String
  pub expires_at : Option ℕ
  pub revoked_at : Option ℕ
  pub last_used_at : Option ℕ

-- An audit event by its action, the actor it names and the row it is about.
pub record AuthAudit : Type 0 where
  pub actor_id : Option ℕ
  pub action : String
  pub resource_id : Option ℕ

pub record AuthTables : Type 0 where
  pub users : List User
  pub principals : List AuthPrincipal
  pub keys : List ApiKey
  pub audits : List AuthAudit

-- `name in scopes`
abbrev pub has_scope : String → List String → Bool
has_scope name [] = false
has_scope name (scope ∷ scopes) = str_eq scope name || has_scope name scopes

-- `API_KEY_SCOPES`
abbrev pub api_key_scopes : List String
api_key_scopes =
    "admin" ∷ "agents:read" ∷ "agents:write" ∷ "approvals:decide" ∷ "approvals:read"
    ∷ "evaluations:execute" ∷ "evaluations:read" ∷ "runs:read" ∷ "runs:write" ∷ "tools:invoke" ∷ []

-- A text in its place among sorted texts, once.
abbrev insert_scope : String → List String → List String
insert_scope scope [] = scope ∷ []
insert_scope scope (next ∷ rest) =
    let later = insert_scope scope rest in
    if str_eq scope next
    then next ∷ rest
    else if is_lt (compare scope next)
    then scope ∷ next ∷ rest
    else next ∷ later

-- `sorted(set(scopes))`
unfoldable normalize : List String → List String
normalize [] = []
normalize (scope ∷ scopes) = insert_scope scope (normalize scopes)

abbrev answer_scopes : List String → List String → Result (List String) (List String)
answer_scopes [] normalized = ok normalized
answer_scopes (name ∷ names) normalized = err (name ∷ names)

-- `validate_scopes`; the `ValueError` names the unknown scopes.
unfoldable pub validate_scopes : List String → Result (List String) (List String)
unfolding normalize
validate_scopes scopes =
    answer_scopes (select_where (λ s. not (has_scope s api_key_scopes)) (normalize scopes))
      (normalize scopes)

has_scope-insert_scope :
    (name scope : String) (scopes : List String)
    → has_scope name (insert_scope scope scopes) ≡ has_scope name (scope ∷ scopes)
has_scope-insert_scope name scope [] = refl
has_scope-insert_scope name scope (next ∷ rest) =
    ground (arith, eq_iff scope next, has_scope-insert_scope name scope rest)

has_scope-normalize :
    (name : String) (scopes : List String)
    → has_scope name (normalize scopes) ≡ has_scope name scopes
unfolding normalize
has_scope-normalize name [] = refl
has_scope-normalize name (scope ∷ scopes) =
    ground
      (arith, has_scope-insert_scope name scope (normalize scopes), has_scope-normalize name scopes)

none_unknown :
    (name : String) (known scopes : List String)
    → select_where (λ s. not (has_scope s known)) scopes ≡ []
    → has_scope name scopes ≡ true
    → has_scope name known ≡ true
none_unknown name known [] h k = absurd (ground arith)
none_unknown name known (scope ∷ scopes) h k = elim (Bool-cases (has_scope scope known)) [
  | inr e ↦ absurd (ground (arith, rw e at h))
  | inl e ↦ elim (Bool-cases (str_eq scope name)) [
    | inl same ↦ subst (λ x. has_scope x known ≡ true) ((eq_iff scope name).0 same) e
    | inr other ↦ none_unknown name known scopes (rw e at h) (rw other at k)
  ]
]

answered :
    (unknown normalized : List String) {valid : List String}
    → answer_scopes unknown normalized ≡ ok valid
    → (unknown ≡ []) × (normalized ≡ valid)
answered [] normalized h = (refl, ground arith)
answered (name ∷ names) normalized h = absurd (ground arith)

-- Accepted scopes are the given ones, as a set, and each is a scope of an API key.
pub validate_scopes_lem :
    (scopes valid : List String)
    → validate_scopes scopes ≡ ok valid
    → (name : String)
    → (has_scope name valid ≡ has_scope name scopes)
      × (has_scope name valid ≡ true → has_scope name api_key_scopes ≡ true)
unfolding validate_scopes
validate_scopes_lem scopes valid h name =
    let (known, same) = answered _ _ h in
    (
      ap (has_scope name) (sym same) ∙ has_scope-normalize name scopes,
      λ k.
          none_unknown name api_key_scopes (normalize scopes) known
            (subst (λ x. has_scope name x ≡ true) (sym same) k),
    )
