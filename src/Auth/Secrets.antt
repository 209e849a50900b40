-- ===== src/Auth/Secrets.antt =====
-- `hash_secret`, `verify_secret` and `generate_api_key` (auth.py). `hashlib.scrypt`, `base64`, `int`
-- and the encoding of text are of the standard library.
use mathlib.Core.Option.{some-injective}
use agents_should_survive_fa.Base.{
  ℕ, ◌≡◌, ◌↔◌, ap, ◌∙◌, subst, inl, inr, Bool, true, false, Option, none, some, List, [], ◌∷◌,
  if◌then◌else◌, arith, Option-cases,
}
use agents_should_survive_fa.Base.Int.{ℤ, pos}
use agents_should_survive_fa.Auth.Texts.{
  Codes, same_codes, Free, split, join, split-join, same_codes_refl, same_codes_eq,
}

-- The library calls; `none` is a `ValueError` or a `UnicodeError`. `decode` takes the text of the
-- base64 alphabet, `encode` writes it.
pub record Crypto : Type 0 where
  pub scrypt : Codes → List ℕ → ℤ → ℤ → ℤ → Option (List ℕ)
  pub encode : List ℕ → Codes
  pub decode : Codes → Option (List ℕ)
  pub parse_int : Codes → Option ℤ
  pub decimal : ℕ → Codes

abbrev pub dollar : ℕ
dollar = b'$'

abbrev pub scrypt_name : Codes
scrypt_name = b's' ∷ b'c' ∷ b'r' ∷ b'y' ∷ b'p' ∷ b't' ∷ []

abbrev pub scrypt_n : ℕ
scrypt_n = 16384

abbrev pub scrypt_r : ℕ
scrypt_r = 8

abbrev pub scrypt_p : ℕ
scrypt_p = 1

module _ (c : Crypto) where
  -- The key that `hash_secret` derives.
  abbrev pub derive : Codes → List ℕ → Option (List ℕ)
  derive secret salt = c.scrypt secret salt (pos scrypt_n) (pos scrypt_r) (pos scrypt_p)

  -- What is stored for a derived key.
  unfoldable pub stored_hash : List ℕ → List ℕ → Codes
  stored_hash salt derived = join dollar scrypt_name (
      c.decimal scrypt_n
      ∷ c.decimal scrypt_r
      ∷ c.decimal scrypt_p
      ∷ c.encode salt
      ∷ c.encode derived
      ∷ [])

  -- `hash_secret`; `salt` is `secrets.token_bytes(16)`.
  unfoldable pub hash_secret : Codes → List ℕ → Option Codes
  unfolding stored_hash
  hash_secret secret salt = elim (derive secret salt) [
    | none ↦ none
    | some derived ↦ some (stored_hash salt derived)
  ]

  -- The comparison with the parts of the stored text; a `ValueError` answers False, and is all that
  -- the parsing and scrypt are taken to raise.
  abbrev verify_parts : Codes → Codes → Codes → Codes → Codes → Codes → Bool
  verify_parts secret n r p salt expected = elim (c.decode salt) [
    | none ↦ false
    | some s ↦ elim (c.parse_int n) [
      | none ↦ false
      | some cost ↦ elim (c.parse_int r) [
        | none ↦ false
        | some block ↦ elim (c.parse_int p) [
          | none ↦ false
          | some lanes ↦ elim (c.scrypt secret s cost block lanes) [
            | none ↦ false
            | some derived ↦ elim (c.decode expected) [
              | none ↦ false
              | some own ↦ same_codes derived own
            ]
          ]
        ]
      ]
    ]
  ]

  -- The unpacking of `encoded.split("$")` into six names, and the test of the first.
  abbrev verify_split : Codes → List Codes → Bool
  verify_split secret (algorithm ∷ n ∷ r ∷ p ∷ salt ∷ expected ∷ []) =
      if same_codes algorithm scrypt_name then verify_parts secret n r p salt expected else false
  verify_split secret _ = false

  unfoldable pub verify_secret : Codes → Codes → Bool
  verify_secret secret encoded = verify_split secret (split dollar encoded)

-- What the library documents: numbers and base64 have no dollar sign, and are read back.
pub record CryptoLaws (c : Crypto) : Type 0 where
  pub decimal_free : (n : ℕ) → Free dollar (c.decimal n)
  pub encode_free : (b : List ℕ) → Free dollar (c.encode b)
  pub parse_int-decimal : (n : ℕ) → c.parse_int (c.decimal n) ≡ some (pos n)
  pub decode-encode : (b : List ℕ) → c.decode (c.encode b) ≡ some b

scrypt_name-Free : Free dollar scrypt_name
scrypt_name-Free = (
  ground arith,
  (ground arith, (ground arith, (ground arith, (ground arith, (ground arith, tt))))),
)

module _ (c : Crypto) (laws : CryptoLaws c) where
  split-stored_hash :
      (salt derived : List ℕ)
      → split dollar (stored_hash c salt derived)
        ≡ scrypt_name
          ∷ c.decimal scrypt_n
          ∷ c.decimal scrypt_r
          ∷ c.decimal scrypt_p
          ∷ c.encode salt
          ∷ c.encode derived
          ∷ []
  unfolding stored_hash
  split-stored_hash salt derived = split-join dollar scrypt_name _ scrypt_name-Free (
    laws.decimal_free scrypt_n,
    (
      laws.decimal_free scrypt_r,
      (laws.decimal_free scrypt_p, (laws.encode_free salt, (laws.encode_free derived, tt))),
    ),
  )

  -- The comparison of a derived key with the stored one.
  abbrev matches : Option (List ℕ) → List ℕ → Bool
  matches none derived = false
  matches (some own) derived = same_codes own derived

  verify_parts-stored :
      (secret : Codes) (salt derived : List ℕ)
      → verify_parts c secret
          (c.decimal scrypt_n)
          (c.decimal scrypt_r)
          (c.decimal scrypt_p)
          (c.encode salt)
          (c.encode derived)
        ≡ matches (derive c secret salt) derived
  verify_parts-stored secret salt derived = ground (
    arith,
    laws.decode-encode salt,
    laws.parse_int-decimal scrypt_n,
    laws.parse_int-decimal scrypt_r,
    laws.parse_int-decimal scrypt_p,
    laws.decode-encode derived,
  )

  -- A secret is verified against what is stored for a derived key by its own derived key.
  verify_secret-stored_hash :
      (secret : Codes) (salt derived : List ℕ)
      → verify_secret c secret (stored_hash c salt derived) ≡ matches (derive c secret salt) derived
  unfolding verify_secret
  verify_secret-stored_hash secret salt derived =
      ap (verify_split c secret) (split-stored_hash salt derived)
      ∙ verify_parts-stored secret salt derived

  matches_eq :
      (own : Option (List ℕ)) (derived : List ℕ)
      → (matches own derived ≡ true) ↔ (own ≡ some derived)
  matches_eq none derived = (λ h. absurd (ground arith), λ h. absurd (ground arith))
  matches_eq (some own) derived = (
    λ h. ap some (same_codes_eq own derived h),
    λ h. ground (arith, some-injective own derived h, same_codes_refl own),
  )

  -- The hash that `hash_secret` stores for a secret verifies another secret exactly when that has the
  -- same derived key under the same salt.
  pub verify_secret-hash_secret :
      (secret other : Codes) (salt : List ℕ) (encoded : Codes)
      → hash_secret c secret salt ≡ some encoded
      → (verify_secret c other encoded ≡ true) ↔ (derive c other salt ≡ derive c secret salt)
  unfolding hash_secret
  verify_secret-hash_secret secret other salt encoded h =
      elim (Option-cases (derive c secret salt)) [
        | inl e ↦ absurd (ground arith)
        | inr (derived, e) ↦
            let stored : stored_hash c salt derived ≡ encoded = ground arith in
            rw e (
              subst (λ x. (verify_secret c other x ≡ true) ↔ (derive c other salt ≡ some derived))
                stored
                (rw (verify_secret-stored_hash other salt derived)
                  (matches_eq (derive c other salt) derived)))
      ]
