-- ===== src/Runtime/Budget/Charges.antt =====
-- What a charge does to the budget table (runtime_state.py), and what its caller's rollback takes
-- back.
use agents_should_survive_fa.Base.{
  ℕ, String, ◌≡◌, sym, ap, ◌∙◌, ◌↔◌, ◌⊎◌, inl, inr, true, false, none, some, [], ◌∷◌, arith,
  Option-cases, Bool-cases, find, update_first, All, All-update_found, find-update_first, ok,
  Result, Tx, transaction, session_state, ◌>>=◌, find_sound,
}
use mathlib.Core.Option.{some-injective}
use agents_should_survive_fa.Base.Int.{ℤ, pos, ◌+ℤ◌, ◌≤ℤ◌}
use agents_should_survive_fa.Base.Dict.{Dict, get_or}
use agents_should_survive_fa.Runtime.State.{RunBudget, RuntimeTables, RuntimeError}
use agents_should_survive_fa.Runtime.Budget.{
  has_bad_entry, add_usage, of_run, initialize_budget, consume_budget, use_up, exhaust, new_budget,
}
use agents_should_survive_fa.Runtime.Budget.Limits.{
  total, IsWithin, add_usage-total, add_usage-IsWithin, add_usage-total_fits,
}

abbrev pub IsSound : RunBudget → Type 0
IsSound b = IsWithin b.limits b.consumed

-- What a consume changes in the budget table.
data Charge (run_id : ℕ) (amount : Dict ℤ) (s t : RuntimeTables) : Type 0 where
  unchanged : t.budgets ≡ s.budgets → Charge run_id amount s t
  stopped :
      (now : ℕ)
      → t.budgets ≡ update_first (of_run run_id) (exhaust now) s.budgets
      → Charge run_id amount s t
  charged :
      (b : RunBudget) (u : Dict ℤ)
      → has_bad_entry amount ≡ false
      → find (of_run run_id) s.budgets ≡ some b
      → add_usage b.limits b.consumed amount ≡ some u
      → t.budgets ≡ update_first (of_run run_id) (use_up u) s.budgets
      → Charge run_id amount s t

module _ (now run_id : ℕ) (amount : Dict ℤ) (s : RuntimeTables) where
  consume_unbudgeted :
      find (of_run run_id) s.budgets ≡ none → (consume_budget now run_id amount s).1 ≡ s
  unfolding consume_budget
  consume_unbudgeted h = ground arith

  module _ (b : RunBudget) (found : find (of_run run_id) s.budgets ≡ some b) where
    consume_bad : has_bad_entry amount ≡ true → (consume_budget now run_id amount s).1 ≡ s
    unfolding consume_budget
    consume_bad bad = ground arith

    module _ (good : has_bad_entry amount ≡ false) where
      consume_over :
          add_usage b.limits b.consumed amount ≡ none
          → (consume_budget now run_id amount s).1
            ≡ record s { budgets = update_first (of_run run_id) (exhaust now) s.budgets }
      unfolding consume_budget
      consume_over over = ground arith

      consume_fits :
          (u : Dict ℤ)
          → add_usage b.limits b.consumed amount ≡ some u
          → consume_budget now run_id amount s ≡ (
            ok (use_up u b),
            record s { budgets = update_first (of_run run_id) (use_up u) s.budgets },
          )
      unfolding consume_budget
      consume_fits u fits = ground arith

module _ (now run_id : ℕ) (amount : Dict ℤ) (s : RuntimeTables) (b : RunBudget)
    (found : find (of_run run_id) s.budgets ≡ some b) (good : has_bad_entry amount ≡ false)
    (c : RunBudget) (h : (consume_budget now run_id amount s).0 ≡ ok c) where
  accepted : (u : Dict ℤ) × (add_usage b.limits b.consumed amount ≡ some u)
  unfolding consume_budget
  accepted = elim (Option-cases (add_usage b.limits b.consumed amount)) [
    | inl over ↦ absurd (ground arith)
    | inr fits ↦ fits
  ]

accepted_good :
    (now run_id : ℕ) (amount : Dict ℤ) (s : RuntimeTables) (c : RunBudget)
    → (consume_budget now run_id amount s).0 ≡ ok c
    → has_bad_entry amount ≡ false
unfolding consume_budget
accepted_good now run_id amount s c h = ground arith

consume_budget-Charge :
    (now run_id : ℕ) (amount : Dict ℤ) (s : RuntimeTables)
    → Charge run_id amount s (consume_budget now run_id amount s).1
consume_budget-Charge now run_id amount s = elim (Option-cases (find (of_run run_id) s.budgets)) [
  | inl missing ↦ unchanged (rw (consume_unbudgeted now run_id amount s missing))
  | inr (b, found) ↦ elim (Bool-cases (has_bad_entry amount)) [
    | inl bad ↦ unchanged (rw (consume_bad now run_id amount s b found bad))
    | inr good ↦ elim (Option-cases (add_usage b.limits b.consumed amount)) [
      | inl over ↦ stopped now (rw (consume_over now run_id amount s b found good over))
      | inr (u, fits) ↦
          charged b u good found fits (rw (consume_fits now run_id amount s b found good u fits))
    ]
  ]
]

Charge-IsSound :
    {run_id : ℕ} {amount : Dict ℤ} {s t : RuntimeTables}
    → Charge run_id amount s t
    → All IsSound s.budgets
    → All IsSound t.budgets
Charge-IsSound (unchanged e) sound = rw e sound
Charge-IsSound {run_id} {s = s} (stopped now e) sound =
    rw e (All-update_found IsSound (of_run run_id) (exhaust now) s.budgets (λ x h w. w) sound)
Charge-IsSound {run_id} {amount} {s} (charged b u good found fits e) sound = rw e (
    All-update_found IsSound (of_run run_id) (use_up u) s.budgets
      (λ x h w.
        let same : b ≡ x = some-injective b x (sym found ∙ h) in
        add_usage-IsWithin x.limits x.consumed amount u good w (rw same at fits))
      sound)

-- Whatever it answers, a consume keeps every budget of the table between 0 and its limits.
pub consume_budget-IsSound :
    (now run_id : ℕ) (amount : Dict ℤ) (s : RuntimeTables)
    → All IsSound s.budgets
    → All IsSound (consume_budget now run_id amount s).1.budgets
consume_budget-IsSound now run_id amount s =
    Charge-IsSound (consume_budget-Charge now run_id amount s)

get_or_nonneg :
    (k : String) (limits : Dict ℤ) → has_bad_entry limits ≡ false → pos 0 ≤ℤ get_or k (pos 0) limits
get_or_nonneg k [] good = omega arith
get_or_nonneg k ((key, v) ∷ limits) good = ground (arith, get_or_nonneg k limits)

new_budget-IsSound :
    (run_id : ℕ) (limits : Dict ℤ)
    → has_bad_entry limits ≡ false
    → IsSound (new_budget run_id limits)
new_budget-IsSound run_id limits good k = (omega arith, get_or_nonneg k limits good)

initialize_change :
    (run_id : ℕ) (limits : Dict ℤ) (s : RuntimeTables)
    → ((initialize_budget run_id limits s).1.budgets ≡ s.budgets)
      ⊎ ((has_bad_entry limits ≡ false)
          × ((initialize_budget run_id limits s).1.budgets ≡ new_budget run_id limits ∷ s.budgets))
unfolding initialize_budget
initialize_change run_id limits s = ground arith

-- A new budget starts within its limits, and an existing one is left as it is.
pub initialize_budget-IsSound :
    (run_id : ℕ) (limits : Dict ℤ) (s : RuntimeTables)
    → All IsSound s.budgets
    → All IsSound (initialize_budget run_id limits s).1.budgets
initialize_budget-IsSound run_id limits s sound = elim (initialize_change run_id limits s) [
  | inl same ↦ rw same sound
  | inr (good, added) ↦ rw added (new_budget-IsSound run_id limits good, sound)
]

-- A consume of entries that have names and are not negative, from a budget within its limits, succeeds
-- exactly when, under every name, what is already used together with all that the entries add stays
-- within the limit.
pub consume_budget_exactly :
    (now run_id : ℕ) (amount : Dict ℤ) (s : RuntimeTables) (b : RunBudget)
    → find (of_run run_id) s.budgets ≡ some b
    → has_bad_entry amount ≡ false
    → IsSound b
    → ((c : RunBudget) × ((consume_budget now run_id amount s).0 ≡ ok c))
      ↔ ((k : String) → get_or k (pos 0) b.consumed +ℤ total k amount ≤ℤ get_or k (pos 0) b.limits)
consume_budget_exactly now run_id amount s b found good sound = (
  λ (c, h) k.
      let (u, fits) = accepted now run_id amount s b found good c h in
      rw (← add_usage-total b.limits b.consumed amount u k fits)
        (add_usage-IsWithin b.limits b.consumed amount u good sound fits k).1,
  λ fits.
      let (u, e) = add_usage-total_fits b.limits b.consumed amount good fits in
      (
        use_up u b,
        ap (λ (x : Result RuntimeError RunBudget × RuntimeTables). x.0)
            (consume_fits now run_id amount s b found good u e),
      ),
)

-- After a consume that succeeds the run's budget has the same limits, and under every name exactly
-- what `amount` holds for it is added to the usage.
pub consume_budget-total :
    (now run_id : ℕ) (amount : Dict ℤ) (s : RuntimeTables) (b c : RunBudget)
    → find (of_run run_id) s.budgets ≡ some b
    → (consume_budget now run_id amount s).0 ≡ ok c
    → (find (of_run run_id) (consume_budget now run_id amount s).1.budgets ≡ some c)
      × (c.limits ≡ b.limits)
      × ((k : String) → get_or k (pos 0) c.consumed ≡ get_or k (pos 0) b.consumed +ℤ total k amount)
consume_budget-total now run_id amount s b c found h =
    let good = accepted_good now run_id amount s c h in
    let (u, fits) = accepted now run_id amount s b found good c h in
    let e = consume_fits now run_id amount s b found good u fits in
    let mine = find_sound (of_run run_id) s.budgets found in
    let same : c ≡ use_up u b = ground (arith, e) in
    let after = find-update_first (of_run run_id) (use_up u) s.budgets found mine in
    (
      rw (same, e) after,
      ap (λ (x : RunBudget). x.limits) same,
      λ k.
          ap (λ (x : RunBudget). get_or k (pos 0) x.consumed) same
          ∙ add_usage-total b.limits b.consumed amount u k fits,
    )

-- The time at which a budget was exhausted is not set.
abbrev pub IsUnmarked : RunBudget → Type 0
IsUnmarked b = b.exhausted_at ≡ none

consumed-IsUnmarked :
    (now run_id : ℕ) (amount : Dict ℤ) (s : RuntimeTables) {c : RunBudget}
    → All IsUnmarked s.budgets
    → (consume_budget now run_id amount s).0 ≡ ok c
    → All IsUnmarked (consume_budget now run_id amount s).1.budgets
consumed-IsUnmarked now run_id amount s unmarked h =
    elim (Option-cases (find (of_run run_id) s.budgets)) [
      | inl missing ↦ rw (consume_unbudgeted now run_id amount s missing) unmarked
      | inr (b, found) ↦
          let good = accepted_good now run_id amount s _ h in
          let (u, fits) = accepted now run_id amount s b found good _ h in
          rw (consume_fits now run_id amount s b found good u fits)
            (All-update_found IsUnmarked (of_run run_id) (use_up u) s.budgets (λ x _ w. w) unmarked)
    ]

-- The exhaustion time is never committed: a session that charges a budget and goes on with any
-- body, which itself marks no budget, leaves every budget unmarked, also when the charge stops at a
-- limit, since the exception that leaves the session rolls the mark back.
pub charge_never_marks :
    (now run_id : ℕ) (amount : Dict ℤ) (s : RuntimeTables) {B : Type 0}
    (body : RunBudget → Tx RuntimeTables RuntimeError B)
    → ((b : RunBudget) (t : RuntimeTables)
        → All IsUnmarked t.budgets
        → All IsUnmarked (body b t).1.budgets)
    → All IsUnmarked s.budgets
    → All IsUnmarked (transaction (consume_budget now run_id amount >>= body) s).1.budgets
charge_never_marks now run_id amount s body keeps unmarked =
    session_state (λ t. All IsUnmarked t.budgets) s unmarked (consume_budget now run_id amount) body
      (λ c h. keeps c _ (consumed-IsUnmarked now run_id amount s unmarked h))
