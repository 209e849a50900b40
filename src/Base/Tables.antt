-- ===== src/Base/Tables.antt =====
-- A database table is a list of its rows, newest first. `find` is `session.scalar(select ...
-- where ...)`: the first row that matches. `update_where` is the assignment to the fields of the
-- rows that the same clause selects.
use mathlib.Core.Path.{◌≡◌, refl, subst}
use mathlib.Core.Bool.{Bool, true, false}
use mathlib.Core.Option.{Option, none, some, some-injective}
use mathlib.Core.List.{List, [], ◌∷◌}
use agents_should_survive_fa.Base.Tests.{if◌then◌else◌, Bool-cases}
use mathlib.Core.Logic.{inl, inr}

-- Every row satisfies a predicate.
abbrev pub All {ℓ κ} : {A : Type ℓ} → (A → Type κ) → List A → Type κ
All P [] = Unit
All P (x ∷ xs) = P x × All P xs

module _ {ℓ} {A : Type ℓ} where
  abbrev pub find : (A → Bool) → List A → Option A
  find p [] = none
  find p (x ∷ xs) = if p x then some x else find p xs

  abbrev pub update_where : (A → Bool) → (A → A) → List A → List A
  update_where p f [] = []
  update_where p f (x ∷ xs) = (if p x then f x else x) ∷ update_where p f xs

  -- The rows that a clause selects.
  abbrev pub select_where : (A → Bool) → List A → List A
  select_where p [] = []
  select_where p (x ∷ xs) = if p x then x ∷ select_where p xs else select_where p xs

module _ {ℓ} {A : Type ℓ} where
  -- What is found satisfies the clause.
  pub find_sound : (p : A → Bool) (xs : List A) {x : A} → find p xs ≡ some x → p x ≡ true
  find_sound p [] h = cc
  find_sound p (y ∷ ys) {x} h = elim (Bool-cases (p y)) [
    | inl e ↦ cc (e, rw e at h)
    | inr e ↦ find_sound p ys (rw e at h)
  ]

  -- What holds of every row holds of the row that is found.
  pub find-All {κ} :
      (P : A → Type κ) (p : A → Bool) (xs : List A) {x : A} → All P xs → find p xs ≡ some x → P x
  find-All P p [] a h = cc
  find-All P p (y ∷ ys) {x} a h = elim (Bool-cases (p y)) [
    | inl e ↦ subst P (some-injective y x (rw e at h)) a.0
    | inr e ↦ find-All P p ys a.1 (rw e at h)
  ]

module _ {ℓ} {A : Type ℓ} where
  -- The assignment to the fields of the row that `find` returns.
  abbrev pub update_first : (A → Bool) → (A → A) → List A → List A
  update_first p f [] = []
  update_first p f (x ∷ xs) = if p x then f x ∷ xs else x ∷ update_first p f xs

  -- What every row satisfies is kept by an update that keeps it.
  pub All-update_first {κ} :
      (P : A → Type κ) (p : A → Bool) (f : A → A) (xs : List A)
      → ((x : A) → p x ≡ true → P x → P (f x))
      → All P xs
      → All P (update_first p f xs)
  All-update_first P p f [] keep a = a
  All-update_first P p f (x ∷ xs) keep a = elim (Bool-cases (p x)) [
    | inl e ↦ rw e (keep x e a.0, a.1)
    | inr e ↦ rw e (a.0, All-update_first P p f xs keep a.1)
  ]

module _ {ℓ} {A : Type ℓ} where
  -- The same where the update suits only the row that is found.
  pub All-update_found {κ} :
      (P : A → Type κ) (p : A → Bool) (f : A → A) (xs : List A)
      → ((x : A) → find p xs ≡ some x → P x → P (f x))
      → All P xs
      → All P (update_first p f xs)
  All-update_found P p f [] keep a = a
  All-update_found P p f (x ∷ xs) keep a = elim (Bool-cases (p x)) [
    | inl e ↦ rw e (keep x (rw e) a.0, a.1)
    | inr e ↦ rw e (a.0, All-update_found P p f xs (λ y h. keep y (rw e h)) a.1)
  ]

  -- A changed row that still satisfies the clause is the one that is found.
  pub find-update_first :
      (p : A → Bool) (f : A → A) (xs : List A) {x : A}
      → find p xs ≡ some x
      → p (f x) ≡ true
      → find p (update_first p f xs) ≡ some (f x)
  find-update_first p f [] h k = cc
  find-update_first p f (y ∷ ys) {x} h k = elim (Bool-cases (p y)) [
    | inl e ↦ let same : y ≡ x = some-injective y x (rw e at h) in rw e (rw same (rw k))
    | inr e ↦ rw e (rw e (find-update_first p f ys (rw e at h) k))
  ]

  -- Rows that another clause selects are found as before, if the change moves no row between the
  -- two clauses.
  pub find-update_first_other :
      (p q : A → Bool) (f : A → A) (xs : List A)
      → ((x : A) → p x ≡ true → (q x ≡ false) × (q (f x) ≡ false))
      → find q (update_first p f xs) ≡ find q xs
  find-update_first_other p q f [] apart = refl
  find-update_first_other p q f (x ∷ xs) apart = elim (Bool-cases (p x)) [
    | inl e ↦ rw e (rw ((apart x e).0, (apart x e).1))
    | inr e ↦ rw e (rw (find-update_first_other p q f xs apart))
  ]
