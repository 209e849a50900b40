-- ===== src/Auth/Texts.antt =====
-- Python's operations on text that auth.py uses, over code points: `partition`, `startswith` with
-- `removeprefix`, `split` and `join`.
use mathlib.Core.Option.{some-injective}
use agents_should_survive_fa.Base.{
  ℕ, ◌≡◌, ◌≢◌, refl, ap, ◌∙◌, inl, inr, Bool, true, false, ◌&&◌, Option, none, some, List, [], ◌∷◌,
  ◌++◌, ◌==◌, if◌then◌else◌, arith, Bool-cases, ==_iff, ==_refl, All,
}

abbrev pub Codes : Type 0
Codes = List ℕ

abbrev pub same_codes : Codes → Codes → Bool
same_codes [] [] = true
same_codes (c ∷ s) (d ∷ t) = c == d && same_codes s t
same_codes _ _ = false

abbrev pub is_empty : Codes → Bool
is_empty [] = true
is_empty (_ ∷ _) = false

-- The text has no character `c`.
abbrev pub Free : ℕ → Codes → Type 0
Free c s = All (λ d. d ≢ c) s

-- `s.partition(sep)`: what stands before the separator, and what follows it if it occurs.
unfoldable pub partition : ℕ → Codes → Codes × Option Codes
partition sep [] = ([], none)
partition sep (c ∷ s) =
    let rest = partition sep s in if c == sep then ([], some s) else (c ∷ rest.0, rest.1)

-- `s.removeprefix(prefix)` where `s.startswith(prefix)`, otherwise none.
unfoldable pub strip_prefix : Codes → Codes → Option Codes
strip_prefix [] s = some s
strip_prefix (c ∷ prefix) [] = none
strip_prefix (c ∷ prefix) (d ∷ s) = if c == d then strip_prefix prefix s else none

abbrev pub prepend : ℕ → List Codes → List Codes
prepend c [] = (c ∷ []) ∷ []
prepend c (part ∷ parts) = (c ∷ part) ∷ parts

-- `s.split(sep)`
unfoldable pub split : ℕ → Codes → List Codes
split sep [] = [] ∷ []
split sep (c ∷ s) = let parts = split sep s in if c == sep then [] ∷ parts else prepend c parts

-- `sep.join((part, *parts))`
unfoldable pub join : ℕ → Codes → List Codes → Codes
join sep part [] = part
join sep part (next ∷ parts) = part ++ sep ∷ join sep next parts

pub same_codes_refl : (s : Codes) → same_codes s s ≡ true
same_codes_refl [] = refl
same_codes_refl (c ∷ s) = ground (arith, same_codes_refl s)

pub same_codes_eq : (s t : Codes) → same_codes s t ≡ true → s ≡ t
same_codes_eq [] [] h = refl
same_codes_eq (c ∷ s) (d ∷ t) h =
    let head : c ≡ d = ground arith in
    let tail : s ≡ t = same_codes_eq s t (ground arith) in rw (head, tail) refl
same_codes_eq s t h = absurd (ground arith)

pub partition-++ :
    (sep : ℕ) (head rest : Codes)
    → Free sep head
    → partition sep (head ++ sep ∷ rest) ≡ (head, some rest)
unfolding partition
partition-++ sep [] rest free = ground (arith, ==_refl sep)
partition-++ sep (c ∷ head) rest free =
    ground (arith, ==_iff c sep, free.0, partition-++ sep head rest free.1)

pub partition_sound :
    (sep : ℕ) (s rest : Codes)
    → (partition sep s).1 ≡ some rest
    → (s ≡ (partition sep s).0 ++ sep ∷ rest) × Free sep (partition sep s).0
unfolding partition
partition_sound sep [] rest h = absurd (ground arith)
partition_sound sep (c ∷ s) rest h = elim (Bool-cases (c == sep)) [
  | inl e ↦
      let same : c ≡ sep = (==_iff c sep).0 e in
      let after : s ≡ rest = some-injective s rest (rw e at h) in rw e (rw (same, after) refl, tt)
  | inr e ↦
      let (parts, free) = partition_sound sep s rest (rw e at h) in
      let other : c ≢ sep = λ same. ground (arith, (==_iff c sep).1 same) in
      rw e (ap (λ t. c ∷ t) parts, (other, free))
]

pub strip_prefix-++ : (prefix s : Codes) → strip_prefix prefix (prefix ++ s) ≡ some s
unfolding strip_prefix
strip_prefix-++ [] s = refl
strip_prefix-++ (c ∷ prefix) s = ground (arith, ==_refl c, strip_prefix-++ prefix s)

pub strip_prefix_sound :
    (prefix s rest : Codes) → strip_prefix prefix s ≡ some rest → s ≡ prefix ++ rest
unfolding strip_prefix
strip_prefix_sound [] s rest h = some-injective s rest h
strip_prefix_sound (c ∷ prefix) [] rest h = absurd (ground arith)
strip_prefix_sound (c ∷ prefix) (d ∷ s) rest h = elim (Bool-cases (c == d)) [
  | inl e ↦
      let same : c ≡ d = (==_iff c d).0 e in
      rw (same, strip_prefix_sound prefix s rest (rw e at h)) refl
  | inr e ↦ absurd (ground arith)
]

split-Free : (sep : ℕ) (s : Codes) → Free sep s → split sep s ≡ s ∷ []
unfolding split
split-Free sep [] free = refl
split-Free sep (c ∷ s) free = ground (arith, ==_iff c sep, free.0, split-Free sep s free.1)

split-++ :
    (sep : ℕ) (s rest : Codes) → Free sep s → split sep (s ++ sep ∷ rest) ≡ s ∷ split sep rest
unfolding split
split-++ sep [] rest free = ground (arith, ==_refl sep)
split-++ sep (c ∷ s) rest free = ground (arith, ==_iff c sep, free.0, split-++ sep s rest free.1)

-- Parts without the separator come back from their joined text.
pub split-join :
    (sep : ℕ) (part : Codes) (parts : List Codes)
    → Free sep part
    → All (Free sep) parts
    → split sep (join sep part parts) ≡ part ∷ parts
unfolding join
split-join sep part [] free all_free = split-Free sep part free
split-join sep part (next ∷ parts) free all_free =
    split-++ sep part (join sep next parts) free
    ∙ ap (λ t. part ∷ t) (split-join sep next parts all_free.0 all_free.1)
