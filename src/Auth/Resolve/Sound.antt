-- ===== src/Auth/Resolve/Sound.antt =====
-- Who is authenticated by `resolve_api_key` (auth.py).
use agents_should_survive_fa.Base.{
  ℕ, String, ◌≡◌, ◌↔◌, ◌<◌, ◌⊎◌, refl, ap, ◌∙◌, subst, inl, inr, true, none, some, List, ok, find,
  arith, Option-cases, Result-cases,
}
use agents_should_survive_fa.Auth.Texts.{Codes}
use agents_should_survive_fa.Auth.Keys.{parse_api_key}
use agents_should_survive_fa.Auth.Secrets.{Crypto, verify_secret}
use agents_should_survive_fa.Auth.State.{
  PrincipalStatus, AuthPrincipal, ApiKey, AuthTables, is_active, validate_scopes,
}
use agents_should_survive_fa.Auth.Resolve.{
  AuthenticatedPrincipal, key_is_active, identified, principal_of, authenticated, check_key,
  resolve_api_key,
}

-- A key may be used at a time: it is not revoked and has not expired.
abbrev pub Usable : ℕ → ApiKey → Type 0
Usable now key =
    (key.revoked_at ≡ none)
    × ((key.expires_at ≡ none) ⊎ ((at : ℕ) × (key.expires_at ≡ some at) × (now < at)))

-- What makes a principal the owner of a raw key: the key stands in the table under the identifier,
-- may be used, has the secret, and names an active principal and known scopes.
pub data Owns (c : Crypto) (now : ℕ) (raw : Codes) (t : AuthTables)
    : AuthenticatedPrincipal → Type 0 where
  owns :
      {identifier secret : Codes} {key : ApiKey} {principal : AuthPrincipal} {scopes : List String}
      → parse_api_key raw ≡ some (identifier, secret)
      → find (identified identifier) t.keys ≡ some key
      → Usable now key
      → verify_secret c secret key.secret_hash ≡ true
      → find (principal_of key.principal_id) t.principals ≡ some principal
      → principal.status ≡ PrincipalStatus.active
      → validate_scopes key.scopes ≡ ok scopes
      → Owns c now raw t (authenticated key principal scopes)

usable : (now : ℕ) (key : ApiKey) → (key_is_active now key ≡ true) ↔ Usable now key
unfolding key_is_active
usable now key = elim (Option-cases key.expires_at) [
  | inl e ↦ (ground arith, ground arith)
  | inr (at, e) ↦ (ground arith, ground arith)
]

active_status : (s : PrincipalStatus) → is_active s ≡ true → s ≡ PrincipalStatus.active
active_status PrincipalStatus.active h = refl
active_status PrincipalStatus.disabled h = absurd (ground (arith, h))

module _ (c : Crypto) (now : ℕ) (raw : Codes) (t : AuthTables) where
  key_owner :
      (identifier secret : Codes) (key : ApiKey) (p : AuthenticatedPrincipal)
      → parse_api_key raw ≡ some (identifier, secret)
      → find (identified identifier) t.keys ≡ some key
      → check_key c now secret key t.principals ≡ some p
      → Owns c now raw t p
  unfolding check_key
  key_owner identifier secret key p parsed found h =
      elim (Option-cases (find (principal_of key.principal_id) t.principals)) [
        | inl e ↦ absurd (ground arith)
        | inr (principal, e) ↦ elim (Result-cases (validate_scopes key.scopes)) [
          | inr (unknown, f) ↦ absurd (ground arith)
          | inl (scopes, f) ↦
              let fit : key_is_active now key ≡ true = ground arith in
              let verified : verify_secret c secret key.secret_hash ≡ true = ground arith in
              let status : is_active principal.status ≡ true = ground arith in
              let same : authenticated key principal scopes ≡ p = ground arith in
              subst (Owns c now raw t) same (
                owns parsed found ((usable now key).0 fit) verified e
                  (active_status principal.status status) f)
        ]
      ]

  resolved_owner :
      (p : AuthenticatedPrincipal) → (resolve_api_key c now raw t).0 ≡ some p → Owns c now raw t p
  unfolding resolve_api_key
  resolved_owner p h = elim (Option-cases (parse_api_key raw)) [
    | inl e ↦ absurd (ground arith)
    | inr ((identifier, secret), e) ↦ elim (Option-cases (find (identified identifier) t.keys)) [
      | inl f ↦ absurd (ground arith)
      | inr (key, f) ↦ elim (Option-cases (check_key c now secret key t.principals)) [
        | inl g ↦ absurd (ground arith)
        | inr (own, g) ↦
            let same : own ≡ p = ground arith in
            key_owner identifier secret key p e f (g ∙ ap some same)
      ]
    ]
  ]

  owner_resolved :
      (p : AuthenticatedPrincipal) → Owns c now raw t p → (resolve_api_key c now raw t).0 ≡ some p
  unfolding resolve_api_key check_key
  owner_resolved p (owns {key} parsed found fit verified e status f) =
      ground (arith, (usable now key).1 fit)

  -- A raw key is answered with a principal exactly when it parses into an identifier and a secret, the
  -- key with that identifier is neither revoked nor expired, has the secret and only known scopes, and
  -- belongs to an active principal, whose identity and type the answer has, with those scopes.
  pub resolve_api_key-Owns :
      (p : AuthenticatedPrincipal) → ((resolve_api_key c now raw t).0 ≡ some p) ↔ Owns c now raw t p
  resolve_api_key-Owns p = (resolved_owner p, owner_resolved p)
