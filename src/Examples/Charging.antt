-- ===== src/Examples/Charging.antt =====
-- Examples for the budgets of runtime_state.py: a run with a limit of 10 tool calls and 4 used.
use agents_should_survive_fa.Base.{ℕ, String, ◌≡◌, ◌↔◌, refl, none, [], ◌∷◌, ok, All, arith}
use agents_should_survive_fa.Base.Int.{ℤ, pos, ◌+ℤ◌, ◌≤ℤ◌}
use agents_should_survive_fa.Base.Dict.{Dict, get_or}
use agents_should_survive_fa.Runtime.State.{RunBudget, RuntimeTables}
use agents_should_survive_fa.Runtime.Budget.{consume_budget, use_up, add_usage}
use agents_should_survive_fa.Runtime.Budget.Limits.{total}
use agents_should_survive_fa.Runtime.Budget.Charges.{
  IsSound, consume_budget-IsSound, consume_budget_exactly,
}

abbrev calls : ℕ → Dict ℤ
calls n = ("tool_calls", pos n) ∷ []

abbrev budget : RunBudget
budget = record { workflow_run_id = 3; limits = calls 10; consumed = calls 4; exhausted_at = none }

abbrev tables : RuntimeTables
tables = record { runs = []; checkpoints = []; artifacts = []; budgets = budget ∷ [] }

budget-IsSound : IsSound budget
budget-IsSound k = ground arith

charge_fits : (consume_budget 0 3 (calls 6) tables).0 ≡ ok (use_up (calls 10) budget)
unfolding consume_budget add_usage ◌+ℤ◌
charge_fits = refl

consume_budget_exactly_example :
    ((c : RunBudget) × ((consume_budget 0 3 (calls 6) tables).0 ≡ ok c)) ↔ (
      (k : String) → get_or k (pos 0) (calls 4) +ℤ total k (calls 6) ≤ℤ get_or k (pos 0) (calls 10))
consume_budget_exactly_example =
    consume_budget_exactly 0 3 (calls 6) tables budget refl refl budget-IsSound

consume_budget-IsSound_example : All IsSound (consume_budget 0 3 (calls 7) tables).1.budgets
consume_budget-IsSound_example = consume_budget-IsSound 0 3 (calls 7) tables (budget-IsSound, tt)
