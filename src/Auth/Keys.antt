-- ===== src/Auth/Keys.antt =====
-- `parse_api_key` and the text that `generate_api_key` makes (auth.py).
use agents_should_survive_fa.Base.{
  ℕ, ◌≡◌, ◌↔◌, inl, inr, Bool, false, ◌||◌, Option, none, some, [], ◌∷◌, ◌++◌, ltb, length,
  if◌then◌else◌, arith, Option-cases, ap, ◌∙◌, subst,
}
use agents_should_survive_fa.Auth.Texts.{
  Codes, is_empty, Free, partition, strip_prefix, partition-++, partition_sound, strip_prefix-++,
  strip_prefix_sound,
}

-- "asf_" and "."
abbrev pub key_prefix_codes : Codes
key_prefix_codes = b'a' ∷ b's' ∷ b'f' ∷ b'_' ∷ []

abbrev pub dot : ℕ
dot = b'.'

-- `not identifier or len(identifier) > 32`
abbrev pub is_bad_identifier : Codes → Bool
is_bad_identifier identifier = is_empty identifier || ltb 32 (length identifier)

-- `f"asf_{identifier}.{secret}"`
abbrev pub plaintext_of : Codes → Codes → Codes
plaintext_of identifier secret = key_prefix_codes ++ (identifier ++ dot ∷ secret)

-- The identifier and the secret of a key, or none if the text is no key.
unfoldable pub parse_api_key : Codes → Option (Codes × Codes)
parse_api_key value = elim (partition dot value).1 [
  | none ↦ none
  | some secret ↦ elim (strip_prefix key_prefix_codes (partition dot value).0) [
    | none ↦ none
    | some identifier ↦
        if is_empty secret || is_bad_identifier identifier then none else some (identifier, secret)
  ]
]

abbrev pub IsKeyText : Codes → Codes → Type 0
IsKeyText identifier secret =
    Free dot identifier × (is_bad_identifier identifier ≡ false) × (is_empty secret ≡ false)

prefix_partition :
    (identifier secret : Codes)
    → Free dot identifier
    → partition dot (plaintext_of identifier secret) ≡ (key_prefix_codes ++ identifier, some secret)
prefix_partition identifier secret free =
    partition-++ dot (key_prefix_codes ++ identifier) secret
      (ground arith, (ground arith, (ground arith, (ground arith, free))))

pub parse_api_key-plaintext_of :
    (identifier secret : Codes)
    → IsKeyText identifier secret
    → parse_api_key (plaintext_of identifier secret) ≡ some (identifier, secret)
unfolding parse_api_key
parse_api_key-plaintext_of identifier secret (free, fits, given) =
    ground
      (arith, prefix_partition identifier secret free, strip_prefix-++ key_prefix_codes identifier)

-- The parts that the text of a key has been cut into.
parsed_parts :
    (value own own_secret : Codes)
    → (partition dot value).1 ≡ some own_secret
    → strip_prefix key_prefix_codes (partition dot value).0 ≡ some own
    → (answer : Codes × Codes)
    → (if is_empty own_secret || is_bad_identifier own then none else some (own, own_secret))
      ≡ some answer
    → (value ≡ plaintext_of answer.0 answer.1) × IsKeyText answer.0 answer.1
parsed_parts value own own_secret e f answer h =
    let (cut, free) = partition_sound dot value own_secret e in
    let head = strip_prefix_sound key_prefix_codes (partition dot value).0 own f in
    let given : is_empty own_secret ≡ false = ground arith in
    let fits : is_bad_identifier own ≡ false = ground arith in
    let same : (own, own_secret) ≡ answer = ground arith in
    subst (λ a. (value ≡ plaintext_of a.0 a.1) × IsKeyText a.0 a.1) same
      (
        cut ∙ ap (λ t. t ++ dot ∷ own_secret) head,
        ((subst (Free dot) head free).1.1.1.1, fits, given),
      )

parse_api_key_sound :
    (value identifier secret : Codes)
    → parse_api_key value ≡ some (identifier, secret)
    → (value ≡ plaintext_of identifier secret) × IsKeyText identifier secret
unfolding parse_api_key
parse_api_key_sound value identifier secret h = elim (Option-cases (partition dot value).1) [
  | inl e ↦ absurd (ground arith)
  | inr (own_secret, e) ↦
      elim (Option-cases (strip_prefix key_prefix_codes (partition dot value).0)) [
        | inl f ↦ absurd (ground arith)
        | inr (own, f) ↦ parsed_parts value own own_secret e f (identifier, secret) (ground arith)
      ]
]

-- A text is parsed into an identifier and a secret exactly when it is `asf_`, the identifier, a dot and
-- the secret, the identifier has 1 to 32 characters and no dot, and the secret is not empty.
pub parse_api_key_iff :
    (value identifier secret : Codes)
    → (parse_api_key value ≡ some (identifier, secret))
      ↔ (value ≡ plaintext_of identifier secret) × IsKeyText identifier secret
parse_api_key_iff value identifier secret = (
  parse_api_key_sound value identifier secret,
  λ (text, fits). ap parse_api_key text ∙ parse_api_key-plaintext_of identifier secret fits,
)
