-- ===== src/Runtime/Budget/Limits.antt =====
-- A budget is never exceeded, and is charged exactly (runtime_state.py).
use agents_should_survive_fa.Base.{
  String, ◌≡◌, refl, inl, inr, false, some, [], ◌∷◌, arith, str_eq, eq_iff, eq_refl, if◌then◌else◌,
  Bool-cases, ◌∙◌, subst,
}
use mathlib.Core.Option.{some-injective}
use agents_should_survive_fa.Base.Int.{ℤ, pos, ◌+ℤ◌, ◌≤ℤ◌, int_laws}
use agents_should_survive_fa.Base.Dict.{Dict, get_or, insert, get-insert}
use agents_should_survive_fa.Runtime.Budget.{has_bad_entry, add_usage}

abbrev pub zero_int : ℤ
zero_int = pos 0

-- What `amount` adds to a name.
abbrev pub total : String → Dict ℤ → ℤ
total k [] = pos 0
total k ((key, increment) ∷ amount) = (if str_eq key k then increment else pos 0) +ℤ total k amount

-- Usage lies between 0 and the limit under every name.
abbrev pub IsWithin : Dict ℤ → Dict ℤ → Type 0
IsWithin limits used =
    (k : String)
    → (pos 0 ≤ℤ get_or k (pos 0) used) × (get_or k (pos 0) used ≤ℤ get_or k (pos 0) limits)

get_or-insert :
    (k j : String) (v : ℤ) (d : Dict ℤ)
    → get_or j (pos 0) (insert k v d) ≡ (if str_eq k j then v else get_or j (pos 0) d)
get_or-insert k j v d = ground (arith, get-insert k j v d)

total_nonneg :
    (k : String) (amount : Dict ℤ) → has_bad_entry amount ≡ false → pos 0 ≤ℤ total k amount
total_nonneg k [] h = omega arith
total_nonneg k ((key, v) ∷ amount) h = grind (int_laws, total_nonneg k amount)

insert-IsWithin :
    (limits updated : Dict ℤ) (key : String) (v : ℤ)
    → pos 0 ≤ℤ v
    → IsWithin limits updated
    → get_or key (pos 0) updated +ℤ v ≤ℤ get_or key (pos 0) limits
    → IsWithin limits (insert key (get_or key (pos 0) updated +ℤ v) updated)
insert-IsWithin limits updated key v good within fits k =
    rw (get_or-insert key k (get_or key (pos 0) updated +ℤ v) updated)
      (elim (Bool-cases (str_eq key k)) [
        | inl same ↦
            let e : key ≡ k = (eq_iff key k).0 same in
            rw same (rw (← e) (omega (int_laws, within key), fits))
        | inr other ↦ rw other (within k)
      ])

-- Charging `v` more under one name.
charged :
    (key k : String) (v rest : ℤ) (d : Dict ℤ)
    → get_or k (pos 0) (insert key (get_or key (pos 0) d +ℤ v) d) +ℤ rest
      ≡ get_or k (pos 0) d +ℤ ((if str_eq key k then v else pos 0) +ℤ rest)
charged key k v rest d =
    rw (get_or-insert key k (get_or key (pos 0) d +ℤ v) d) (elim (Bool-cases (str_eq key k)) [
      | inl same ↦ let e : key ≡ k = (eq_iff key k).0 same in rw same (rw e (omega int_laws))
      | inr other ↦ rw other (omega int_laws)
    ])

-- One entry of a charge that goes through.
add_usage_step :
    (limits updated amount u : Dict ℤ) (key : String) (v : ℤ)
    → add_usage limits updated ((key, v) ∷ amount) ≡ some u
    → (add_usage limits (insert key (get_or key (pos 0) updated +ℤ v) updated) amount ≡ some u)
      × (get_or key (pos 0) updated +ℤ v ≤ℤ get_or key (pos 0) limits)
unfolding add_usage
add_usage_step limits updated amount u key v h = ground arith

-- A charge that goes through adds to every name what `amount` holds for it.
pub add_usage-total :
    (limits updated amount u : Dict ℤ) (k : String)
    → add_usage limits updated amount ≡ some u
    → get_or k (pos 0) u ≡ get_or k (pos 0) updated +ℤ total k amount
unfolding add_usage
add_usage-total limits updated [] u k h =
    let e : updated ≡ u = some-injective updated u h in rw e (omega int_laws)
add_usage-total limits updated ((key, v) ∷ amount) u k h =
    add_usage-total limits (insert key (get_or key (pos 0) updated +ℤ v) updated) amount u k
      (add_usage_step limits updated amount u key v h).0
    ∙ charged key k v (total k amount) updated

-- A charge of entries that are not negative keeps a budget within its limits.
pub add_usage-IsWithin :
    (limits updated amount u : Dict ℤ)
    → has_bad_entry amount ≡ false
    → IsWithin limits updated
    → add_usage limits updated amount ≡ some u
    → IsWithin limits u
unfolding add_usage
add_usage-IsWithin limits updated [] u good within h =
    subst (IsWithin limits) (some-injective updated u h) within
add_usage-IsWithin limits updated ((key, v) ∷ amount) u good within h =
    let (rest, fits) = add_usage_step limits updated amount u key v h in
    add_usage-IsWithin limits (insert key (get_or key (pos 0) updated +ℤ v) updated) amount u
      (ground arith) (insert-IsWithin limits updated key v (ground arith) within fits) rest

fits_head :
    (limits updated amount : Dict ℤ) (key : String) (v : ℤ)
    → has_bad_entry amount ≡ false
    → get_or key (pos 0) updated +ℤ total key ((key, v) ∷ amount) ≤ℤ get_or key (pos 0) limits
    → get_or key (pos 0) updated +ℤ v ≤ℤ get_or key (pos 0) limits
fits_head limits updated amount key v good h =
    let h' : get_or key (pos 0) updated +ℤ (v +ℤ total key amount) ≤ℤ get_or key (pos 0) limits =
      rw (eq_refl key) at h in
    omega (int_laws, total_nonneg key amount good)

add_usage_within :
    (limits updated amount : Dict ℤ) (key : String) (v : ℤ)
    → get_or key (pos 0) updated +ℤ v ≤ℤ get_or key (pos 0) limits
    → add_usage limits updated ((key, v) ∷ amount)
      ≡ add_usage limits (insert key (get_or key (pos 0) updated +ℤ v) updated) amount
unfolding add_usage
add_usage_within limits updated amount key v h = ground arith

-- A charge that fits under every name goes through.
pub add_usage-total_fits :
    (limits updated amount : Dict ℤ)
    → has_bad_entry amount ≡ false
    → ((k : String) → get_or k (pos 0) updated +ℤ total k amount ≤ℤ get_or k (pos 0) limits)
    → (u : Dict ℤ) × (add_usage limits updated amount ≡ some u)
unfolding add_usage
add_usage-total_fits limits updated [] good fits = (updated, refl)
add_usage-total_fits limits updated ((key, v) ∷ amount) good fits =
    let later : has_bad_entry amount ≡ false = ground arith in
    let head = fits_head limits updated amount key v later (fits key) in
    let next = insert key (get_or key (pos 0) updated +ℤ v) updated in
    let (u, e) =
      add_usage-total_fits limits next amount later
        (λ k. rw (charged key k v (total k amount) updated) (fits k)) in
    (u, rw (add_usage_within limits updated amount key v head) e)
