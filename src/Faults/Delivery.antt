-- ===== src/Faults/Delivery.antt =====
-- From a plan to the faults that reach the caller (fault_injection.py): a plan fires as often as it
-- was asked to, a cleared plan does not fire, and `inject` raises only classified failures.
use Prim.Native.Nat.{min}
use agents_should_survive_fa.Base.{
  length, Tx, pure, ◌>>=◌, ℕ, ◌+◌, ◌≤◌, String, ◌≡◌, refl, inl, inr, Bool, true, Option, none, some,
  List, [], ◌∷◌, arith, update_first, ok, err, Bool-cases, Result, ap, ◌∙◌,
}
use agents_should_survive_fa.Base.Int.{pos_part}
use agents_should_survive_fa.Failures.{Exception, platform, PlatformFailure}
use agents_should_survive_fa.Faults.Names.{FaultPoint, FaultAction, failure_for_action}
use agents_should_survive_fa.Faults.Injector.{
  FaultInjectionPlan, FaultTables, FaultRequest, at, disarm, store_plan, create_checks, create,
  clear, apply_action, inject, FaultDirective,
}
use agents_should_survive_fa.Faults.Triggers.{
  triggers_of, weight, fire_times, fire_times-min, Consumed, nothing_left, one_taken,
  consume-Consumed,
}
use agents_should_survive_fa.Faults.Plans.{
  IsUnique, IsValid, triggers-store_plan, none_at, weight_not_at, find-same_key,
}
use agents_should_survive_fa.Faults.Keys.{create-IsValid, create_checks_state, clear-IsValid}

-- An accepted request asks for one to ten triggers.
create_checks_count :
    (enabled : Bool) (r : FaultRequest) (s : FaultTables)
    → (create_checks enabled r s).0 ≡ ok tt
    → (enabled ≡ true) × (1 ≤ pos_part r.trigger_count) × (pos_part r.trigger_count ≤ 10)
unfolding create_checks
create_checks_count enabled r s h = ground arith

create_store :
    (enabled : Bool) (fresh : ℕ) (r : FaultRequest) (s : FaultTables) {p : FaultInjectionPlan}
    → (create enabled fresh r s).0 ≡ ok p
    → ((create_checks enabled r s).0 ≡ ok tt)
      × ((store_plan fresh r s).0 ≡ ok p)
      × ((create enabled fresh r s).1 ≡ (store_plan fresh r s).1)
unfolding create
create_store enabled fresh r s h = ground (arith, create_checks_state enabled r s)

-- A plan that `create` accepts on a valid table asks for one to ten triggers, and of any number `k`
-- of consumes at its point and scope exactly that many fire, or all `k` if they are fewer.
pub create-fires :
    (enabled : Bool) (fresh : ℕ) (r : FaultRequest) (s : FaultTables) (k : ℕ)
    {p : FaultInjectionPlan}
    → IsValid s
    → (create enabled fresh r s).0 ≡ ok p
    → (1 ≤ pos_part r.trigger_count)
      × (pos_part r.trigger_count ≤ 10)
      × ((fire_times k r.fault_point r.scope_key (create enabled fresh r s).1).0
          ≡ min k (pos_part r.trigger_count))
create-fires enabled fresh r s k v h =
    let (checked, stored, same) = create_store enabled fresh r s h in
    let (_, low, high) = create_checks_count enabled r s checked in
    let count = triggers-store_plan fresh r s v.unique stored in
    let fires =
      fire_times-min k r.fault_point r.scope_key (create enabled fresh r s).1
        (create-IsValid enabled fresh r s v).named in
    (
      low,
      high,
      omega (
        arith,
        count,
        fires.0,
        ap (λ (t : FaultTables). triggers_of r.fault_point r.scope_key t.plans) same,
      ),
    )

weight-disarm :
    (point : FaultPoint) (scope : String) (p : FaultInjectionPlan)
    → weight point scope (disarm p) ≡ 0
weight-disarm point scope p = ground arith

triggers-disarm :
    (point : FaultPoint) (scope : String) (ps : List FaultInjectionPlan)
    → IsUnique ps
    → triggers_of point scope (update_first (at point scope) disarm ps) ≡ 0
triggers-disarm point scope [] u = refl
triggers-disarm point scope (q ∷ ps) u = elim (Bool-cases (at point scope q)) [
  | inl e ↦
      let rest = none_at point scope ps (find-same_key point scope q ps e ∙ u.0) in
      rw e (omega (arith, rest, weight-disarm point scope q))
  | inr e ↦ rw e (omega (arith, weight_not_at point scope q e, triggers-disarm point scope ps u.1))
]

cleared_triggers :
    (point : FaultPoint) (scope : String) (s : FaultTables)
    → IsValid s
    → triggers_of point scope (clear true point scope s).1.plans ≡ 0
unfolding clear
cleared_triggers point scope s v = triggers-disarm point scope s.plans v.unique

-- On a valid table no consume fires after `clear`, however many triggers were left.
pub clear_silences :
    (point : FaultPoint) (scope : String) (s : FaultTables) (k : ℕ)
    → IsValid s
    → (fire_times k point scope (clear true point scope s).1).0 ≡ 0
clear_silences point scope s k v =
    let fires =
      fire_times-min k point scope (clear true point scope s).1
        (clear-IsValid true point scope s v).named in
    let gone = cleared_triggers point scope s v in omega (arith, fires.0, gone)

-- What `inject` may raise: a classified failure.
abbrev pub IsClassified : Result Exception (Unit {0}) → Type 0
IsClassified (ok _) = Unit {0}
IsClassified (err e) = (f : PlatformFailure) × (e ≡ platform f)

apply_action-IsClassified : (a : FaultAction) (s : FaultTables) → IsClassified (apply_action a s).0
unfolding apply_action failure_for_action
apply_action-IsClassified FaultAction.delay s = tt
apply_action-IsClassified FaultAction.retryable_exception s = (_, refl)
apply_action-IsClassified FaultAction.permanent_exception s = (_, refl)
apply_action-IsClassified FaultAction.temporary_database_outage s = (_, refl)
apply_action-IsClassified FaultAction.provider_failure s = (_, refl)
apply_action-IsClassified FaultAction.tool_mcp_failure s = (_, refl)
apply_action-IsClassified FaultAction.ambiguous_handoff s = (_, refl)
apply_action-IsClassified FaultAction.worker_termination s = (_, refl)

apply_action_state : (a : FaultAction) (s : FaultTables) → (apply_action a s).1 ≡ s
unfolding apply_action failure_for_action
apply_action_state FaultAction.delay s = refl
apply_action_state FaultAction.retryable_exception s = refl
apply_action_state FaultAction.permanent_exception s = refl
apply_action_state FaultAction.temporary_database_outage s = refl
apply_action_state FaultAction.provider_failure s = refl
apply_action_state FaultAction.tool_mcp_failure s = refl
apply_action_state FaultAction.ambiguous_handoff s = refl
apply_action_state FaultAction.worker_termination s = refl

-- What `inject` has done: it ended normally or with a classified failure, and took one trigger and
-- recorded one consumption if a trigger was left, else none.
abbrev pub Injected :
    FaultPoint → String → FaultTables → Result Exception (Unit {0}) × FaultTables → Type 0
Injected point scope s (r, t) =
    IsClassified r
    × (triggers_of point scope t.plans + min 1 (triggers_of point scope s.plans)
        ≡ triggers_of point scope s.plans)
    × (length t.consumptions ≡ length s.consumptions + min 1 (triggers_of point scope s.plans))

abbrev act : Option FaultDirective → Tx FaultTables Exception (Unit {0})
act directive = elim directive [ none ↦ pure tt | some d ↦ apply_action d.action ]

act-Injected :
    (point : FaultPoint) (scope : String) (s : FaultTables)
    {out : Result Exception (Option FaultDirective) × FaultTables}
    → Consumed point scope s out
    → Injected point scope s (◌>>=◌ {S = FaultTables} (λ _. out) act s)
act-Injected point scope s (nothing_left none_left) = (tt, omega arith, omega arith)
act-Injected point scope s (one_taken d t fewer recorded) =
    let same = apply_action_state d.action t in
    (
      apply_action-IsClassified d.action t,
      omega (arith, ap (λ (u : FaultTables). triggers_of point scope u.plans) same),
      omega (arith, ap (λ (u : FaultTables). length u.consumptions) same),
    )

-- On a valid table `inject` ends normally or with a classified failure, never with a lookup error;
-- and also when it raises, the trigger it took stays taken and its consumption stays recorded.
pub inject-Injected :
    (point : FaultPoint) (scope : String) (s : FaultTables)
    → IsValid s
    → Injected point scope s (inject true point scope s)
unfolding inject
inject-Injected point scope s v =
    act-Injected point scope s (consume-Consumed point scope s v.named)
