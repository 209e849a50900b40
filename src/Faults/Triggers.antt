-- ===== src/Faults/Triggers.antt =====
-- Each trigger of a plan fires once (fault_injection.py): a consume takes one trigger at its own
-- point and scope, writes one consumption, and touches no other plan.
use agents_should_survive_fa.Base.{
  ap, ◌⊎◌, is_some, All-update_first, ℕ, zero, suc, ◌+◌, ◌-◌, String, ◌≡◌, refl, ◌≢◌, inl, inr,
  Bool, true, false, Option, none, some, List, [], ◌∷◌, if◌then◌else◌, arith, eq_iff, find,
  update_first, All, Result, ok, err, Bool-cases, Option-cases, find-All, length,
}
use Prim.Native.Nat.{min}
use agents_should_survive_fa.Failures.{Exception}
use agents_should_survive_fa.Faults.Names.{FaultPoint, point_value, FaultAction, action_of_value}
use agents_should_survive_fa.Faults.Injector.{
  FaultInjectionPlan, FaultDirective, FaultTables, armed, spend, consume, consumption_of,
}

-- The category of a plan names an action, as `create` makes it.
abbrev pub IsNamed : FaultInjectionPlan → Type 0
IsNamed p = (a : FaultAction) × (action_of_value p.category ≡ some a)

-- The triggers that a row holds for a point and scope, and those of a table.
abbrev pub weight : FaultPoint → String → FaultInjectionPlan → ℕ
weight point scope p = if armed point scope p then p.remaining_triggers else 0

abbrev pub triggers_of : FaultPoint → String → List FaultInjectionPlan → ℕ
triggers_of point scope [] = 0
triggers_of point scope (p ∷ ps) = weight point scope p + triggers_of point scope ps

weight_unarmed :
    (point : FaultPoint) (scope : String) (p : FaultInjectionPlan)
    → armed point scope p ≡ false
    → weight point scope p ≡ 0
weight_unarmed point scope p h = rw h

weight-spend :
    (point : FaultPoint) (scope : String) (p : FaultInjectionPlan)
    → armed point scope p ≡ true
    → weight point scope (spend p) + 1 ≡ weight point scope p
weight-spend point scope p h = ground arith

none-armed :
    (point : FaultPoint) (scope : String) (ps : List FaultInjectionPlan)
    → find (armed point scope) ps ≡ none
    → triggers_of point scope ps ≡ 0
none-armed point scope [] h = refl
none-armed point scope (p ∷ ps) h = elim (Bool-cases (armed point scope p)) [
  | inl e ↦ cc (rw e at h)
  | inr e ↦ omega (arith, weight_unarmed point scope p e, none-armed point scope ps (rw e at h))
]

some-armed :
    (point : FaultPoint) (scope : String) (ps : List FaultInjectionPlan) {p : FaultInjectionPlan}
    → find (armed point scope) ps ≡ some p
    → triggers_of point scope (update_first (armed point scope) spend ps) + 1
      ≡ triggers_of point scope ps
some-armed point scope [] h = cc
some-armed point scope (p ∷ ps) h = elim (Bool-cases (armed point scope p)) [
  | inl e ↦
      let w : weight point scope p ≡ p.remaining_triggers = rw e in
      rw e (omega (arith, weight-spend point scope p e))
  | inr e ↦
      rw e (omega (arith, weight_unarmed point scope p e, some-armed point scope ps (rw e at h)))
]

-- What a consume at a point and scope has done to the tables.
pub data Consumed (point : FaultPoint) (scope : String) (s : FaultTables)
    : Result Exception (Option FaultDirective) × FaultTables → Type 0 where
  nothing_left : triggers_of point scope s.plans ≡ 0 → Consumed point scope s (ok none, s)
  one_taken :
      (d : FaultDirective) (t : FaultTables)
      → triggers_of point scope t.plans + 1 ≡ triggers_of point scope s.plans
      → length t.consumptions ≡ length s.consumptions + 1
      → Consumed point scope s (ok (some d), t)

-- The tables and the directive after a trigger of `p` is taken.
abbrev taken : FaultPoint → String → FaultInjectionPlan → FaultTables → FaultTables
taken point scope p s = record {
  plans = update_first (armed point scope) spend s.plans;
  consumptions = consumption_of p ∷ s.consumptions;
}

abbrev pub directive : FaultPoint → FaultAction → FaultInjectionPlan → FaultDirective
directive point a p = record {
  plan_id = p.id;
  fault_point = point;
  scope_key = p.scope_key;
  action = a;
  delay_ms = p.delay_ms;
  remaining_triggers = p.remaining_triggers - 1;
}

pub consume-none :
    (point : FaultPoint) (scope : String) (s : FaultTables)
    → find (armed point scope) s.plans ≡ none
    → consume true point scope s ≡ (ok none, s)
unfolding consume
consume-none point scope s h = ground arith

pub consume-some :
    (point : FaultPoint) (scope : String) (s : FaultTables) (p : FaultInjectionPlan)
    (a : FaultAction)
    → find (armed point scope) s.plans ≡ some p
    → action_of_value p.category ≡ some a
    → consume true point scope s ≡ (ok (some (directive point a p)), taken point scope p s)
unfolding consume
consume-some point scope s p a h e = ground arith

-- A consume over plans that name an action never fails: it reports that no trigger is left, and
-- changes nothing, or it takes one trigger and records one consumption.
pub consume-Consumed :
    (point : FaultPoint) (scope : String) (s : FaultTables)
    → All IsNamed s.plans
    → Consumed point scope s (consume true point scope s)
consume-Consumed point scope s named = elim (Option-cases (find (armed point scope) s.plans)) [
  | inl h ↦ rw (consume-none point scope s h) (nothing_left (none-armed point scope s.plans h))
  | inr (p, h) ↦
      let (a, e) = find-All IsNamed (armed point scope) s.plans named h in
      rw (consume-some point scope s p a h e)
        (one_taken _ _ (some-armed point scope s.plans h) (omega arith))
]

pub taken-IsNamed :
    (point : FaultPoint) (scope : String) (p : FaultInjectionPlan) (s : FaultTables)
    → All IsNamed s.plans
    → All IsNamed (taken point scope p s).plans
taken-IsNamed point scope p s named =
    All-update_first IsNamed (armed point scope) spend s.plans (λ x h n. n) named

-- `k` consumes in a row: how many return a directive, and the tables after them.
pub fire_times : ℕ → FaultPoint → String → FaultTables → ℕ × FaultTables
fire_times zero point scope s = (0, s)
fire_times (suc k) point scope s =
    let (r, t) = consume true point scope s in
    let (n, u) = fire_times k point scope t in
    (elim r [ ok d ↦ if is_some d then suc n else n | err _ ↦ n ], u)

fire_times-none :
    (k : ℕ) (point : FaultPoint) (scope : String) (s : FaultTables)
    → find (armed point scope) s.plans ≡ none
    → fire_times k point scope s ≡ (0, s)
unfolding fire_times
fire_times-none zero point scope s h = refl
fire_times-none (suc k) point scope s h =
    ground (arith, consume-none point scope s h, fire_times-none k point scope s h)

fire_times-some :
    (k : ℕ) (point : FaultPoint) (scope : String) (s t : FaultTables) {d : FaultDirective}
    → consume true point scope s ≡ (ok (some d), t)
    → fire_times (suc k) point scope s
      ≡ (suc (fire_times k point scope t).0, (fire_times k point scope t).1)
unfolding fire_times
fire_times-some k point scope s t e = ground arith

-- Of `k` consumes in a row exactly as many fire as there were triggers left, or all `k` if there
-- were more; each that fires leaves one consumption in the audit table.
pub fire_times-min :
    (k : ℕ) (point : FaultPoint) (scope : String) (s : FaultTables)
    → All IsNamed s.plans
    → ((fire_times k point scope s).0 ≡ min k (triggers_of point scope s.plans))
      × (length (fire_times k point scope s).1.consumptions
          ≡ length s.consumptions + (fire_times k point scope s).0)
unfolding fire_times
fire_times-min zero point scope s named = omega arith
fire_times-min (suc k) point scope s named =
    elim (Option-cases (find (armed point scope) s.plans)) [
      | inl h ↦
          let e = fire_times-none (suc k) point scope s h in
          omega (
            arith,
            none-armed point scope s.plans h,
            ap (λ (r : ℕ × FaultTables). r.0) e,
            ap (λ (r : ℕ × FaultTables). length r.1.consumptions) e,
          )
      | inr (p, h) ↦
          let (a, e) = find-All IsNamed (armed point scope) s.plans named h in
          let t = taken point scope p s in
          let first = fire_times-some k point scope s t (consume-some point scope s p a h e) in
          omega (
            arith,
            some-armed point scope s.plans h,
            fire_times-min k point scope t (taken-IsNamed point scope p s named),
            ap (λ (r : ℕ × FaultTables). r.0) first,
            ap (λ (r : ℕ × FaultTables). length r.1.consumptions) first,
          )
    ]

-- Two plan keys that differ, in the point or in the scope.
abbrev pub Differs : FaultPoint → String → FaultPoint → String → Type 0
Differs point scope point' scope' = (point_value point ≢ point_value point') ⊎ (scope ≢ scope')

weight_other :
    (point point' : FaultPoint) (scope scope' : String) (p : FaultInjectionPlan)
    → Differs point scope point' scope'
    → armed point scope p ≡ true
    → (weight point' scope' p ≡ 0) × (weight point' scope' (spend p) ≡ 0)
weight_other point point' scope scope' p d h = ground (
  arith,
  eq_iff p.fault_point (point_value point),
  eq_iff p.fault_point (point_value point'),
  eq_iff p.scope_key scope,
  eq_iff p.scope_key scope',
)

triggers_other :
    (point point' : FaultPoint) (scope scope' : String) (ps : List FaultInjectionPlan)
    → Differs point scope point' scope'
    → triggers_of point' scope' (update_first (armed point scope) spend ps)
      ≡ triggers_of point' scope' ps
triggers_other point point' scope scope' [] d = refl
triggers_other point point' scope scope' (p ∷ ps) d = elim (Bool-cases (armed point scope p)) [
  | inl e ↦
      let (before, after) = weight_other point point' scope scope' p d e in
      rw e (omega (arith, before, after))
  | inr e ↦ rw e (omega (arith, triggers_other point point' scope scope' ps d))
]

-- A consume leaves the triggers of every other point and scope as they were.
pub consume_isolated :
    (enabled : Bool) (point point' : FaultPoint) (scope scope' : String) (s : FaultTables)
    → Differs point scope point' scope'
    → triggers_of point' scope' (consume enabled point scope s).1.plans
      ≡ triggers_of point' scope' s.plans
unfolding consume
consume_isolated enabled point point' scope scope' s d =
    ground (arith, triggers_other point point' scope scope' s.plans d)
