-- ===== src/Base/Session.antt =====
-- A call on a database session: state and exceptions. `async with database.session()` commits on
-- a normal exit and rolls every change back when an exception leaves the block; `transaction` is
-- that block.
use mathlib.Core.Bool.{Bool, true, false}
use mathlib.Core.Path.{◌≡◌, refl, ap}
use mathlib.Core.Logic.{◌⊎◌, inl, inr}
use mathlib.Core.Option.{Option, none, some, some-injective}

pub data Result (E A : Type 0) : Type 0 where
  ok : A → Result E A
  err : E → Result E A

abbrev answer_of : {E A : Type 0} → Result E A → Option A
answer_of (ok a) = some a
answer_of (err _) = none

pub ok-injective : (E A : Type 0) (a b : A) → Path (Result E A) (ok a) (ok b) → a ≡ b
ok-injective E A a b h = some-injective a b (ap answer_of h)

pub Result-cases :
    {E A : Type 0} (r : Result E A) → ((a : A) × (r ≡ ok a)) ⊎ ((e : E) × (r ≡ err e))
Result-cases (ok a) = inl (a, refl)
Result-cases (err e) = inr (e, refl)

abbrev pub Tx : Type 0 → Type 0 → Type 0 → Type 0
Tx S E A = S → Result E A × S

infixl 5 ◌>>=◌ ◌>>◌
abbrev pub ◌>>=◌ : {S E A B : Type 0} → Tx S E A → (A → Tx S E B) → Tx S E B
◌>>=◌ m f s = let (r, s') = m s in elim r [ ok a ↦ f a s' | err e ↦ (err e, s') ]

abbrev pub ◌>>◌ : {S E A B : Type 0} → Tx S E A → Tx S E B → Tx S E B
m >> k = m >>= λ _. k

module _ {S E : Type 0} where
  abbrev pub pure : {A : Type 0} → A → Tx S E A
  pure a s = (ok a, s)

  abbrev pub raise : {A : Type 0} → E → Tx S E A
  raise e s = (err e, s)

  abbrev pub gets : {A : Type 0} → (S → A) → Tx S E A
  gets f s = (ok (f s), s)

  abbrev pub modify : (S → S) → Tx S E (Unit {0})
  modify f s = (ok tt, f s)

  -- `if c: raise e`
  abbrev pub raise_if : Bool → E → Tx S E (Unit {0})
  raise_if true e s = (err e, s)
  raise_if false e s = (ok tt, s)

  abbrev pub transaction : {A : Type 0} → Tx S E A → Tx S E A
  transaction m s = let (r, s') = m s in elim r [ ok a ↦ (ok a, s') | err e ↦ (err e, s) ]

-- Rules for the state that a call leaves, whatever it returns.
module _ {ℓ} {S E A : Type 0} (P : S → Type ℓ) where
  transaction_result :
      (s s' : S) (r : Result E A)
      → P s
      → ((a : A) → r ≡ ok a → P s')
      → P (transaction (λ _. (r, s')) s).1
  transaction_result s s' (ok a) before done = done a refl
  transaction_result s s' (err e) before done = before

  pub transaction_state :
      (m : Tx S E A) (s : S) → P s → ((a : A) → (m s).0 ≡ ok a → P (m s).1) → P (transaction m s).1
  transaction_state m s before done = transaction_result s (m s).1 (m s).0 before done

module _ {ℓ} {S E A B : Type 0} (P : S → Type ℓ) where
  >>=_result :
      (r : Result E A) (s : S) (f : A → Tx S E B)
      → P s
      → ((a : A) → r ≡ ok a → P (f a s).1)
      → P (◌>>=◌ {S = S} (λ _. (r, s)) f s).1
  >>=_result (ok a) s f before done = done a refl
  >>=_result (err e) s f before done = before

  pub >>=_state :
      (m : Tx S E A) (f : A → Tx S E B) (s : S)
      → P (m s).1
      → ((a : A) → (m s).0 ≡ ok a → P (f a (m s).1).1)
      → P ((m >>= f) s).1
  >>=_state m f s before done = >>=_result (m s).0 (m s).1 f before done

-- A session that begins with a call and goes on with `f` ends in the state that it met, or in the
-- one that `f` leaves after the call has succeeded.
module _ {ℓ} {S E B : Type 0} (P : S → Type ℓ) (s : S) (met : P s) where
  committed : (r : Result E B) (t : S) → P t → P (transaction (λ _. (r, t)) s).1
  committed (ok b) t h = h
  committed (err e) t h = met

module _ {ℓ} {S E A B : Type 0} (P : S → Type ℓ) (s : S) (met : P s) where
  session_after :
      (r : Result E A) (t : S) (f : A → Tx S E B)
      → ((a : A) → r ≡ ok a → P (f a t).1)
      → P (transaction (◌>>=◌ {S = S} (λ _. (r, t)) f) s).1
  session_after (ok a) t f done = committed P s met (f a t).0 (f a t).1 (done a refl)
  session_after (err e) t f done = met

  pub session_state :
      (m : Tx S E A) (f : A → Tx S E B)
      → ((a : A) → (m s).0 ≡ ok a → P (f a (m s).1).1)
      → P (transaction (m >>= f) s).1
  session_state m f done = session_after (m s).0 (m s).1 f done
