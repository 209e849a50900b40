-- ===== src/Auth/Operator/Revoked.antt =====
-- A revoked key stays revoked, and no request is authenticated with it (auth.py, auth_cli.py).
use agents_should_survive_fa.Base.{
  ℕ, String, ◌≡◌, refl, ◌∙◌, inl, inr, true, none, some, List, ok, find, find_sound,
  find-update_first, find-update_first_other, update_first, arith, Option-cases, Bool-cases,
  is_some,
}
use agents_should_survive_fa.Auth.Texts.{Codes, same_codes, same_codes_eq}
use agents_should_survive_fa.Auth.Keys.{parse_api_key}
use agents_should_survive_fa.Auth.Secrets.{Crypto}
use agents_should_survive_fa.Auth.State.{ApiKey, AuthTables}
use agents_should_survive_fa.Auth.Resolve.{identified, check_key, key_is_active, resolve_api_key}
use agents_should_survive_fa.Auth.Operator.{
  Bootstrap, bootstrap, revoke, disable_principal, AuthStep, authenticates, bootstraps, revokes,
  disables, AuthSteps, stays, then_step,
}

-- The key that the identifier selects is revoked.
abbrev pub IsRevoked : Codes → AuthTables → Type 0
IsRevoked identifier t =
    (key : ApiKey) × (find (identified identifier) t.keys ≡ some key)
    × (is_some key.revoked_at ≡ true)

-- A change of the key under one identifier, which keeps identifiers and revocations, keeps a revoked
-- key revoked.
module _ (f : ApiKey → ApiKey) (same : (k : ApiKey) → (f k).key_identifier ≡ k.key_identifier)
    (keeps : (k : ApiKey) → is_some k.revoked_at ≡ true → is_some (f k).revoked_at ≡ true) where
  updated_key :
      (own identifier : Codes) (keys : List ApiKey) {key : ApiKey}
      → find (identified identifier) keys ≡ some key
      → is_some key.revoked_at ≡ true
      → (key' : ApiKey) × (find (identified identifier) (update_first (identified own) f keys)
          ≡ some key')
        × (is_some key'.revoked_at ≡ true)
  updated_key own identifier keys {key} found revoked =
      elim (Bool-cases (same_codes own identifier)) [
        | inl e ↦
            let eq = same_codes_eq own identifier e in
            let kept : same_codes (f key).key_identifier identifier ≡ true =
              rw (same key) (find_sound (identified identifier) keys found) in
            (
              f key,
              rw eq (find-update_first (identified identifier) f keys found kept),
              keeps key revoked,
            )
        | inr e ↦ (
          key,
          find-update_first_other (identified own) (identified identifier) f keys (λ x h.
                let eq = same_codes_eq x.key_identifier own h in (rw eq e, rw (same x, eq) e))
              ∙ found,
          revoked,
        )
      ]

module _ (identifier : Codes) (c : Crypto) where
  resolve_api_key-IsRevoked :
      (now : ℕ) (raw : Codes) (t : AuthTables)
      → IsRevoked identifier t
      → IsRevoked identifier (resolve_api_key c now raw t).1
  unfolding resolve_api_key
  resolve_api_key-IsRevoked now raw t (key, found, revoked) =
      elim (Option-cases (parse_api_key raw)) [
        | inl e ↦ rw (resolve_api_key, e) (key, found, revoked)
        | inr ((own, secret), e) ↦ elim (Option-cases (find (identified own) t.keys)) [
          | inl f ↦ rw (resolve_api_key, e) (rw f (key, found, revoked))
          | inr (row, f) ↦ elim (Option-cases (check_key c now secret row t.principals)) [
            | inl g ↦ rw (resolve_api_key, e) (rw f (rw g (key, found, revoked)))
            | inr (p, g) ↦
                rw (resolve_api_key, e)
                  (rw f (
                    rw g (
                      updated_key (λ x. record x { last_used_at = some now }) (λ _. refl) (λ _ h. h)
                        own identifier t.keys found revoked)))
          ]
        ]
      ]

revoke-IsRevoked :
    (own identifier : Codes) (now : ℕ) (t : AuthTables)
    → IsRevoked identifier t
    → IsRevoked identifier (revoke now own t).1
unfolding revoke
revoke-IsRevoked own identifier now t (key, found, revoked) =
    elim (Option-cases (find (identified own) t.keys)) [
      | inl e ↦ rw (revoke, e) (key, found, revoked)
      | inr (row, e) ↦ elim (Option-cases row.revoked_at) [
        | inr (at, f) ↦ rw (revoke, e) (rw f (key, found, revoked))
        | inl f ↦
            rw (revoke, e)
              (rw f (
                updated_key (λ x. record x { revoked_at = some now }) (λ _. refl) (λ _ _. refl) own
                  identifier t.keys found revoked))
      ]
    ]

disable_principal_keys :
    (email : String) (t : AuthTables) → (disable_principal email t).1.keys ≡ t.keys
unfolding disable_principal
disable_principal_keys email t = ground arith

bootstrap-found :
    (identifier : Codes) (b : Bootstrap) (t : AuthTables) {key : ApiKey}
    → find (identified identifier) t.keys ≡ some key
    → find (identified identifier) (bootstrap b t).1.keys ≡ some key
unfolding bootstrap
bootstrap-found identifier b t {key} found =
    elim (Bool-cases (same_codes b.generated.key_identifier identifier)) [
      | inr other ↦ ground arith
      | inl e ↦
          let eq = same_codes_eq b.generated.key_identifier identifier e in
          let taken : find (identified b.generated.key_identifier) t.keys ≡ some key =
            rw eq found in
          ground arith
    ]

step-IsRevoked :
    (identifier : Codes) (c : Crypto) {t u : AuthTables}
    → AuthStep c t u
    → IsRevoked identifier t
    → IsRevoked identifier u
step-IsRevoked identifier c {t} (authenticates now raw) r =
    resolve_api_key-IsRevoked identifier c now raw t r
step-IsRevoked identifier c {t} (bootstraps b) (key, found, revoked) =
    (key, bootstrap-found identifier b t found, revoked)
step-IsRevoked identifier c {t} (revokes now own) r = revoke-IsRevoked own identifier now t r
step-IsRevoked identifier c {t} (disables email) (key, found, revoked) =
    (key, rw (disable_principal_keys email t) found, revoked)

steps-IsRevoked :
    (identifier : Codes) (c : Crypto) {t u : AuthTables}
    → AuthSteps c t u
    → IsRevoked identifier t
    → IsRevoked identifier u
steps-IsRevoked identifier c stays r = r
steps-IsRevoked identifier c (then_step s step) r =
    step-IsRevoked identifier c step (steps-IsRevoked identifier c s r)

revoked_refused :
    (c : Crypto) (now : ℕ) (raw identifier secret : Codes) (t : AuthTables)
    → IsRevoked identifier t
    → parse_api_key raw ≡ some (identifier, secret)
    → resolve_api_key c now raw t ≡ (none, t)
unfolding resolve_api_key check_key key_is_active
revoked_refused c now raw identifier secret t (key, found, revoked) parsed = ground arith

revoke_revokes :
    (now : ℕ) (identifier : Codes) (t : AuthTables) (shown : Codes × Codes)
    → (revoke now identifier t).0 ≡ ok shown
    → IsRevoked identifier (revoke now identifier t).1
unfolding revoke
revoke_revokes now identifier t shown h =
    elim (Option-cases (find (identified identifier) t.keys)) [
      | inl e ↦ absurd (ground arith)
      | inr (key, e) ↦ elim (Option-cases key.revoked_at) [
        | inr (at, f) ↦ rw (revoke, e) (rw f (key, e, rw f refl))
        | inl f ↦
            rw (revoke, e)
              (rw f (
                record key { revoked_at = some now },
                find-update_first (identified identifier)
                    (λ row. record row { revoked_at = some now }) t.keys e
                    (find_sound (identified identifier) t.keys e),
                refl,
              ))
      ]
    ]

-- Once the operator has revoked the key with an identifier, and whatever requests and commands follow,
-- a raw key with that identifier is refused at every time, and the refusal changes no table.
pub revoke-resolve_api_key :
    (c : Crypto) (at : ℕ) (identifier : Codes) (t : AuthTables) (shown : Codes × Codes)
    → (revoke at identifier t).0 ≡ ok shown
    → (later : AuthTables) → AuthSteps c (revoke at identifier t).1 later
    → (now : ℕ) (raw secret : Codes) → parse_api_key raw ≡ some (identifier, secret)
    → resolve_api_key c now raw later ≡ (none, later)
revoke-resolve_api_key c at identifier t shown h later steps now raw secret parsed =
    revoked_refused c now raw identifier secret later
      (steps-IsRevoked identifier c steps (revoke_revokes at identifier t shown h)) parsed
