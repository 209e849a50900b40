-- ===== src/Runtime/Budget.antt =====
-- `initialize_budget` and `consume_budget` (runtime_state.py). A budget's dicts map names to Python
-- integers.
pub mod Limits
pub mod Charges
use agents_should_survive_fa.Base.{
  ℕ, String, Bool, true, false, not, ◌||◌, ◌&&◌, Option, none, some, List, [], ◌∷◌, str_eq, ◌==◌,
  if◌then◌else◌, Tx, Result, ok, err, raise_if, ◌>>=◌, ◌>>◌, find, update_first,
}
use agents_should_survive_fa.Base.Int.{ℤ, pos, ◌+ℤ◌, ltb_ℤ, eqb_ℤ}
use agents_should_survive_fa.Base.Dict.{Dict, get, get_or, insert}
use agents_should_survive_fa.Failures.{platform_failure, budget_exhausted}
use agents_should_survive_fa.Runtime.State.{
  RunBudget, RuntimeTables, RuntimeError, conflict, validation, platform,
}

-- `any(not key or value < 0 for key, value in amount.items())`
abbrev pub has_bad_entry : Dict ℤ → Bool
has_bad_entry [] = false
has_bad_entry ((key, value) ∷ rest) = str_eq key "" || ltb_ℤ value (pos 0) || has_bad_entry rest

-- Every entry of the first dict is in the second.
abbrev includes : Dict ℤ → Dict ℤ → Bool
includes [] e = true
includes ((key, value) ∷ rest) e =
    (elim (get key e) [ none ↦ false | some v ↦ eqb_ℤ value v ]) && includes rest e

-- Python's `==` on dicts: the same keys with the same values, in any order.
abbrev pub same_dict : Dict ℤ → Dict ℤ → Bool
same_dict d e = includes d e && includes e d

abbrev pub of_run : ℕ → RunBudget → Bool
of_run run_id b = b.workflow_run_id == run_id

abbrev pub new_budget : ℕ → Dict ℤ → RunBudget
new_budget run_id limits = record {
  workflow_run_id = run_id;
  limits = limits;
  consumed = [];
  exhausted_at = none;
}

unfoldable pub initialize_budget : ℕ → Dict ℤ → Tx RuntimeTables RuntimeError RunBudget
initialize_budget run_id limits =
    raise_if (has_bad_entry limits) (validation "budget limits must be non-negative named integers")
    >> λ s. elim (find (of_run run_id) s.budgets) [
      | some b ↦ elim (same_dict b.limits limits) [
        | true ↦ (ok b, s)
        | false ↦ (err (conflict "run budget is already pinned to different limits"), s)
      ]
      | none ↦ (
        ok (new_budget run_id limits),
        record s { budgets = new_budget run_id limits ∷ s.budgets },
      )
    ]

-- The loop of `consume_budget` over the entries of `amount`; `none` is the exit at a limit.
unfoldable pub add_usage : Dict ℤ → Dict ℤ → Dict ℤ → Option (Dict ℤ)
add_usage limits updated [] = some updated
add_usage limits updated ((key, increment) ∷ amount) =
    let next_value = get_or key (pos 0) updated +ℤ increment in
    let rest = add_usage limits (insert key next_value updated) amount in
    if ltb_ℤ (get_or key (pos 0) limits) next_value then none else rest

abbrev pub exhaust : ℕ → RunBudget → RunBudget
exhaust now b = record b { exhausted_at = some now }

abbrev pub use_up : Dict ℤ → RunBudget → RunBudget
use_up consumed b = record b { consumed = consumed }

-- The body of `consume_budget`, in its caller's session: at a limit the time is set before it
-- raises.
unfoldable pub consume_budget : ℕ → ℕ → Dict ℤ → Tx RuntimeTables RuntimeError RunBudget
unfolding platform_failure
consume_budget now run_id amount =
    raise_if (has_bad_entry amount) (validation "budget usage must be non-negative named integers")
    >> λ s. elim (find (of_run run_id) s.budgets) [
      | none ↦ (err (validation "run budget has not been initialized"), s)
      | some b ↦ elim (add_usage b.limits b.consumed amount) [
        | none ↦ (
          err (platform (platform_failure budget_exhausted false none)),
          record s { budgets = update_first (of_run run_id) (exhaust now) s.budgets },
        )
        | some updated ↦ (
          ok (use_up updated b),
          record s { budgets = update_first (of_run run_id) (use_up updated) s.budgets },
        )
      ]
    ]
