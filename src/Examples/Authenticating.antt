-- ===== src/Examples/Authenticating.antt =====
-- Examples for auth.py, auth_cli.py and the authority of a request. The library is stood in for by
-- functions that keep its laws: base64 and decimals leave out the code of the dollar sign.
use agents_should_survive_fa.Base.{
  ℕ, ◌≡◌, ◌≢◌, ◌-◌, map, ltb, if◌then◌else◌, ap, ◌↔◌, refl, true, Option, none, some, List, [], ◌∷◌,
  ok, arith, suc, String,
}
use agents_should_survive_fa.Base.Int.{ℤ, pos}
use agents_should_survive_fa.Auth.Texts.{Codes, Free, partition, strip_prefix, split, join}
use agents_should_survive_fa.Auth.Keys.{parse_api_key, plaintext_of, parse_api_key_iff, IsKeyText}
use agents_should_survive_fa.Auth.Secrets.{
  Crypto, CryptoLaws, dollar, hash_secret, verify_secret, derive, stored_hash,
  verify_secret-hash_secret,
}
use agents_should_survive_fa.Auth.State.{
  PrincipalType, PrincipalStatus, AuthPrincipal, ApiKey, AuthTables, validate_scopes,
}
use agents_should_survive_fa.Auth.Resolve.{resolve_api_key, authenticated, check_key, key_is_active}
use agents_should_survive_fa.Auth.Operator.{revoke, stays}
use agents_should_survive_fa.Auth.Operator.Revoked.{revoke-resolve_api_key}
use agents_should_survive_fa.Auth.Access.{
  require_scopes, admitted, Admits, require_scopes-Admits, bearer_token,
}

-- The identifier `ab1` and the secret `xyz`.
abbrev identifier : Codes
identifier = b'a' ∷ b'b' ∷ b'1' ∷ []

abbrev secret : Codes
secret = b'x' ∷ b'y' ∷ b'z' ∷ []

abbrev raw : Codes
raw = plaintext_of identifier secret

parsed : parse_api_key raw ≡ some (identifier, secret)
unfolding parse_api_key partition strip_prefix
parsed = refl

parse_api_key_iff_example :
    (parse_api_key raw ≡ some (identifier, secret))
    ↔ (raw ≡ plaintext_of identifier secret) × IsKeyText identifier secret
parse_api_key_iff_example = parse_api_key_iff raw identifier secret

-- A number as a code that is not the dollar sign's.
abbrev skip : ℕ → ℕ
skip n = if ltb n dollar then n else suc n

abbrev unskip : ℕ → ℕ
unskip n = if ltb n dollar then n else n - 1

skip-ne : (n : ℕ) → skip n ≢ dollar
skip-ne n = ground arith

unskip-skip : (n : ℕ) → unskip (skip n) ≡ n
unskip-skip n = ground arith

skips-Free : (b : List ℕ) → Free dollar (map skip b)
skips-Free [] = tt
skips-Free (n ∷ b) = (skip-ne n, skips-Free b)

unskips : (b : List ℕ) → map unskip (map skip b) ≡ b
unskips [] = refl
unskips (n ∷ b) = rw (unskip-skip n, unskips b) refl

abbrev parse_one : Codes → Option ℤ
parse_one (c ∷ []) = some (pos (unskip c))
parse_one _ = none

-- The derived key is the secret.
abbrev crypto : Crypto
crypto = record {
  scrypt = λ s salt n r p. some s;
  encode = map skip;
  decode = λ s. some (map unskip s);
  parse_int = parse_one;
  decimal = λ n. skip n ∷ [];
}

crypto_laws : CryptoLaws crypto
crypto_laws = record {
  decimal_free = λ n. (skip-ne n, tt);
  encode_free = skips-Free;
  parse_int-decimal = λ n. ap (λ k. some (pos k)) (unskip-skip n);
  decode-encode = λ b. ap some (unskips b);
}

abbrev salt : List ℕ
salt = 7 ∷ 8 ∷ []

verify_secret-hash_secret_example :
    (verify_secret crypto secret (stored_hash crypto salt secret) ≡ true)
    ↔ (derive crypto secret salt ≡ derive crypto secret salt)
unfolding hash_secret
verify_secret-hash_secret_example =
    verify_secret-hash_secret crypto crypto_laws secret secret salt (stored_hash crypto salt secret)
      refl

abbrev owner : AuthPrincipal
owner = record {
  id = 4;
  principal_type = PrincipalType.user;
  display_name = "Ada";
  status = PrincipalStatus.active;
  user_id = some 4;
}

abbrev key : ApiKey
key = record {
  id = 9;
  principal_id = 4;
  key_identifier = identifier;
  key_prefix = [];
  last_four = secret;
  secret_hash = stored_hash crypto salt secret;
  label = "local-bootstrap";
  scopes = "runs:read" ∷ [];
  expires_at = some 50;
  revoked_at = none;
  last_used_at = none;
}

abbrev tables : AuthTables
tables = record { users = []; principals = owner ∷ []; keys = key ∷ []; audits = [] }

abbrev read_scope : List String
read_scope = "runs:read" ∷ []

scopes_known : validate_scopes read_scope ≡ ok read_scope
unfolding validate_scopes
scopes_known = refl

resolved : (resolve_api_key crypto 20 raw tables).0 ≡ some (authenticated key owner read_scope)
unfolding resolve_api_key check_key key_is_active parse_api_key partition strip_prefix verify_secret
    stored_hash split join validate_scopes
resolved = refl

expired : (resolve_api_key crypto 50 raw tables).0 ≡ none
unfolding resolve_api_key check_key key_is_active parse_api_key partition strip_prefix
expired = refl

abbrev header : Codes
header = b'B' ∷ b'e' ∷ b'a' ∷ b'r' ∷ b'e' ∷ b'r' ∷ b' ' ∷ raw

admitted_request :
    (require_scopes read_scope none crypto 20 header tables).0
    ≡ admitted (authenticated key owner read_scope)
unfolding require_scopes resolve_api_key check_key key_is_active parse_api_key partition
    strip_prefix verify_secret stored_hash split join validate_scopes bearer_token
admitted_request = refl

require_scopes-Admits_example :
    ((require_scopes read_scope none crypto 20 header tables).0
      ≡ admitted (authenticated key owner read_scope))
    ↔ Admits read_scope none crypto 20 header tables (authenticated key owner read_scope)
require_scopes-Admits_example =
    require_scopes-Admits read_scope none crypto 20 header tables
      (authenticated key owner read_scope)

revoked : (revoke 30 identifier tables).0 ≡ ok ([], secret)
unfolding revoke
revoked = refl

revoke-resolve_api_key_example :
    resolve_api_key crypto 40 raw (revoke 30 identifier tables).1
    ≡ (none, (revoke 30 identifier tables).1)
revoke-resolve_api_key_example =
    revoke-resolve_api_key crypto 30 identifier tables ([], secret) revoked
      (revoke 30 identifier tables).1 stays 40 raw secret parsed
