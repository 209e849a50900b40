-- ===== src/Faults/Injector.antt =====
-- `FaultInjector` (fault_injection.py): `create`, `consume`, `clear`, `list` and `inject` over the
-- plan and consumption tables. The columns that a CHECK constraint keeps non-negative are ℕ; the
-- arguments are Python's integers. The sleep of `inject` has no effect on the tables.
use agents_should_survive_fa.Base.{
  ℕ, ◌-◌, String, Bool, true, false, not, ◌&&◌, ◌||◌, Option, none, some, List, [], ◌∷◌, str_eq,
  ltb, ◌==◌, if◌then◌else◌, find, update_first, select_where, is_some, Tx, ok, err, ◌>>=◌, ◌>>◌,
  pure, raise, gets, modify, raise_if, transaction,
}
use agents_should_survive_fa.Base.Int.{ℤ, pos, pos_part, ltb_ℤ}
use agents_should_survive_fa.Base.Dict.{Dict}
use agents_should_survive_fa.Base.Text.{text_length, in_lower}
use agents_should_survive_fa.Failures.{
  Exception, platform, permission_error, value_error, other_error, platform_failure,
  worker_terminated,
}
use agents_should_survive_fa.Faults.Names.{
  FaultPoint, point_value, FaultAction, delay, worker_termination, action_value, action_of_value,
  failure_for_action,
}

pub data FaultPlanStatus : Type 0 where
  active exhausted cleared : FaultPlanStatus

abbrev pub is_active : FaultPlanStatus → Bool
is_active active = true
is_active _ = false

pub record FaultInjectionPlan : Type 0 where
  pub id : ℕ
  pub fault_point : String
  pub scope_key : String
  pub category : String
  pub trigger_count : ℕ
  pub remaining_triggers : ℕ
  pub delay_ms : ℕ
  pub status : FaultPlanStatus
  pub safe_metadata : Dict String

pub record FaultInjectionConsumption : Type 0 where
  pub fault_plan_id : ℕ
  pub fault_point : String
  pub scope_key : String
  pub category : String
  pub remaining_triggers : ℕ

pub record FaultDirective : Type 0 where
  pub plan_id : ℕ
  pub fault_point : FaultPoint
  pub scope_key : String
  pub action : FaultAction
  pub delay_ms : ℕ
  pub remaining_triggers : ℕ

pub record FaultTables : Type 0 where
  pub plans : List FaultInjectionPlan
  pub consumptions : List FaultInjectionConsumption

-- The columns of a plan that `create` is given.
pub record FaultRequest : Type 0 where
  pub fault_point : FaultPoint
  pub action : FaultAction
  pub scope_key : String
  pub trigger_count : ℤ
  pub delay_ms : ℤ
  pub safe_metadata : Dict String

-- The clause on the unique pair of point and scope.
abbrev pub at : FaultPoint → String → FaultInjectionPlan → Bool
at point scope p = str_eq p.fault_point (point_value point) && str_eq p.scope_key scope

-- A plan that `consume` may select.
abbrev pub fires : FaultInjectionPlan → Bool
fires p = is_active p.status && ltb 0 p.remaining_triggers

abbrev pub armed : FaultPoint → String → FaultInjectionPlan → Bool
armed point scope p = at point scope p && fires p

-- `any(token in key.lower() ...)` over the keys of the metadata.
unfoldable pub has_secret_like_key : Dict String → Bool
has_secret_like_key [] = false
has_secret_like_key ((key, _) ∷ rest) =
    in_lower "secret" key
    || in_lower "token" key
    || in_lower "key" key
    || in_lower "password" key
    || has_secret_like_key rest

-- The row that `create` writes, and the fields that it overwrites in a row that is not active.
abbrev pub new_plan : ℕ → FaultRequest → FaultInjectionPlan
new_plan fresh r = record {
  id = fresh;
  fault_point = point_value r.fault_point;
  scope_key = r.scope_key;
  category = action_value r.action;
  trigger_count = pos_part r.trigger_count;
  remaining_triggers = pos_part r.trigger_count;
  delay_ms = pos_part r.delay_ms;
  status = active;
  safe_metadata = r.safe_metadata;
}

abbrev pub rearm : FaultRequest → FaultInjectionPlan → FaultInjectionPlan
rearm r p = record p {
  category = action_value r.action;
  trigger_count = pos_part r.trigger_count;
  remaining_triggers = pos_part r.trigger_count;
  delay_ms = pos_part r.delay_ms;
  status = active;
  safe_metadata = r.safe_metadata;
}

-- The argument checks of `create`, in their order.
unfoldable pub create_checks : Bool → FaultRequest → Tx FaultTables Exception (Unit {0})
create_checks enabled r = do
  raise_if (not enabled) (permission_error "fault injection is disabled")
  raise_if (text_length r.scope_key == 0 || ltb 240 (text_length r.scope_key))
      (value_error "fault scope key must be between 1 and 240 characters")
  raise_if (ltb_ℤ r.trigger_count (pos 1) || ltb_ℤ (pos 10) r.trigger_count)
      (value_error "fault trigger count must be between 1 and 10")
  raise_if (ltb_ℤ r.delay_ms (pos 0) || ltb_ℤ (pos 60000) r.delay_ms)
      (value_error "fault delay must be between 0 and 60000 milliseconds")
  raise_if (has_secret_like_key r.safe_metadata)
      (value_error "fault metadata may not include secret-like keys")

-- The transaction of `create`; `fresh` is the row's `uuid4`.
unfoldable pub store_plan : ℕ → FaultRequest → Tx FaultTables Exception FaultInjectionPlan
store_plan fresh r s = elim (find (at r.fault_point r.scope_key) s.plans) [
  | none ↦ (ok (new_plan fresh r), record s { plans = new_plan fresh r ∷ s.plans })
  | some p ↦
      if is_active p.status
      then (err (value_error "an active fault plan already exists for this point and scope"), s)
      else (
        ok (rearm r p),
        record s { plans = update_first (at r.fault_point r.scope_key) (rearm r) s.plans },
      )
]

unfoldable pub create : Bool → ℕ → FaultRequest → Tx FaultTables Exception FaultInjectionPlan
unfolding create_checks store_plan
create enabled fresh r = create_checks enabled r >> transaction (store_plan fresh r)

-- `plan.remaining_triggers -= 1`, and exhausted at 0.
abbrev pub spend : FaultInjectionPlan → FaultInjectionPlan
spend p = record p {
  remaining_triggers = p.remaining_triggers - 1;
  status = if p.remaining_triggers - 1 == 0 then exhausted else p.status;
}

abbrev pub consumption_of : FaultInjectionPlan → FaultInjectionConsumption
consumption_of p = record {
  fault_plan_id = p.id;
  fault_point = p.fault_point;
  scope_key = p.scope_key;
  category = p.category;
  remaining_triggers = p.remaining_triggers - 1;
}

-- `FaultDirective(...)`; the clause makes `FaultPoint(plan.fault_point)` the point asked for.
abbrev pub directive_of :
    FaultPoint
    → FaultInjectionPlan
    → Option FaultAction
    → Tx FaultTables Exception (Option FaultDirective)
directive_of point p none = raise (value_error p.category)
directive_of point p (some action) = pure (
    some (record {
      plan_id = p.id;
      fault_point = point;
      scope_key = p.scope_key;
      action = action;
      delay_ms = p.delay_ms;
      remaining_triggers = p.remaining_triggers;
    }))

-- The transaction of `consume`.
unfoldable pub take_trigger : FaultPoint → String → Tx FaultTables Exception (Option FaultDirective)
take_trigger point scope s = elim (find (armed point scope) s.plans) [
  | none ↦ (ok none, s)
  | some p ↦ directive_of point (spend p) (action_of_value p.category) (record {
    plans = update_first (armed point scope) spend s.plans;
    consumptions = consumption_of p ∷ s.consumptions;
  })
]

unfoldable pub consume :
    Bool → FaultPoint → String → Tx FaultTables Exception (Option FaultDirective)
unfolding take_trigger
consume enabled point scope =
    if not enabled then pure none else transaction (take_trigger point scope)

abbrev pub disarm : FaultInjectionPlan → FaultInjectionPlan
disarm p = record p { remaining_triggers = 0; status = cleared }

unfoldable pub clear : Bool → FaultPoint → String → Tx FaultTables Exception Bool
clear enabled point scope = do
  raise_if (not enabled) (permission_error "fault injection is disabled")
  found ← gets (λ s. is_some (find (at point scope) s.plans))
  modify (λ s. record s { plans = update_first (at point scope) disarm s.plans })
  pure found

-- `list`; the rows stand newest first.
unfoldable pub list_plans :
    Bool → Option String → Tx FaultTables Exception (List FaultInjectionPlan)
list_plans enabled scope = do
  raise_if (not enabled) (permission_error "fault injection is disabled")
  gets (λ s. elim scope [
    | none ↦ s.plans
    | some key ↦ select_where (λ p. str_eq p.scope_key key) s.plans
  ])

-- The part of `inject` after the sleep.
unfoldable pub apply_action : FaultAction → Tx FaultTables Exception (Unit {0})
unfolding platform_failure
apply_action delay = pure tt
apply_action worker_termination = raise (platform (platform_failure worker_terminated true none))
apply_action action = elim (failure_for_action action) [
  | none ↦ raise (other_error "KeyError")
  | some failure ↦ raise (platform failure)
]

unfoldable pub inject : Bool → FaultPoint → String → Tx FaultTables Exception (Unit {0})
unfolding apply_action
inject enabled point scope = do
  directive ← consume enabled point scope
  elim directive [ none ↦ pure tt | some d ↦ apply_action d.action ]
