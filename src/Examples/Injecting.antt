-- ===== src/Examples/Injecting.antt =====
-- Examples for fault_injection.py: a plan of two triggers, before and after `create`.
use Prim.Native.Nat.{min}
use agents_should_survive_fa.Base.{◌≤◌, ◌≡◌, refl, true, [], ◌∷◌, ok, All}
use agents_should_survive_fa.Base.Int.{pos}
use agents_should_survive_fa.Faults.Names.{
  vendor_lookup, retryable_exception, action_of_value, action_value,
}
use agents_should_survive_fa.Faults.Injector.{
  FaultRequest, FaultTables, create, new_plan, has_secret_like_key,
}
use agents_should_survive_fa.Faults.Triggers.{IsNamed, fire_times}
use agents_should_survive_fa.Faults.Plans.{IsValid}
use agents_should_survive_fa.Faults.Delivery.{create-fires}

abbrev request : FaultRequest
request = record {
  fault_point = vendor_lookup;
  action = retryable_exception;
  scope_key = "run-1";
  trigger_count = pos 2;
  delay_ms = pos 0;
  safe_metadata = [];
}

abbrev no_plans : FaultTables
no_plans = record { plans = []; consumptions = [] }

abbrev one_plan : FaultTables
one_plan = record { plans = new_plan 7 request ∷ []; consumptions = [] }

no_plans-IsValid : IsValid no_plans
no_plans-IsValid = record { unique = tt; named = tt }

plans_named : All IsNamed one_plan.plans
unfolding action_of_value action_value
plans_named = ((retryable_exception, refl), tt)

one_plan-IsValid : IsValid one_plan
one_plan-IsValid = record { unique = (refl, tt); named = plans_named }

created : create true 7 request no_plans ≡ (ok (new_plan 7 request), one_plan)
unfolding create has_secret_like_key
created = refl

accepted : (create true 7 request no_plans).0 ≡ ok (new_plan 7 request)
unfolding create has_secret_like_key
accepted = refl

create-fires_example :
    (1 ≤ 2)
    × (2 ≤ 10)
    × ((fire_times 5 vendor_lookup "run-1" (create true 7 request no_plans).1).0 ≡ min 5 2)
create-fires_example = create-fires true 7 request no_plans 5 no_plans-IsValid accepted
