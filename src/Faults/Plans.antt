-- ===== src/Faults/Plans.antt =====
-- Creating and clearing plans (fault_injection.py): one row for each point and scope, and exactly
-- the triggers that were asked for.
use agents_should_survive_fa.Base.{
  ℕ, String, ◌≡◌, refl, inl, inr, Bool, true, false, none, some, List, [], ◌∷◌, ◌∙◌, eq_refl, arith,
  str_eq, eq_iff, find, update_first, All, ok, Bool-cases, Option-cases, ◌&&◌,
}
use agents_should_survive_fa.Base.Int.{pos_part}
use agents_should_survive_fa.Faults.Names.{FaultPoint, point_value}
use agents_should_survive_fa.Faults.Injector.{
  FaultInjectionPlan, FaultTables, FaultRequest, at, rearm, new_plan, store_plan,
}
use agents_should_survive_fa.Faults.Triggers.{IsNamed, weight, triggers_of}

abbrev pub same_key : FaultInjectionPlan → FaultInjectionPlan → Bool
same_key p q = str_eq q.fault_point p.fault_point && str_eq q.scope_key p.scope_key

-- No two rows have the same point and scope.
abbrev pub IsUnique : List FaultInjectionPlan → Type 0
IsUnique [] = Unit {0}
IsUnique (p ∷ ps) = (find (same_key p) ps ≡ none) × IsUnique ps

-- What holds of the plan table between two calls.
pub record IsValid (s : FaultTables) : Type 0 where
  pub unique : IsUnique s.plans
  pub named : All IsNamed s.plans

pub weight_not_at :
    (point : FaultPoint) (scope : String) (p : FaultInjectionPlan)
    → at point scope p ≡ false
    → weight point scope p ≡ 0
weight_not_at point scope p h = rw h

-- A row with the key of `p`, which is at the point and scope, would be found there.
at-same_key :
    (point : FaultPoint) (scope : String) (p q : FaultInjectionPlan)
    → at point scope p ≡ true
    → at point scope q ≡ same_key p q
at-same_key point scope p q h =
    ground (arith, eq_iff p.fault_point (point_value point), eq_iff p.scope_key scope)

pub find-same_key :
    (point : FaultPoint) (scope : String) (p : FaultInjectionPlan) (ps : List FaultInjectionPlan)
    → at point scope p ≡ true
    → find (at point scope) ps ≡ find (same_key p) ps
find-same_key point scope p [] h = refl
find-same_key point scope p (q ∷ ps) h =
    rw (at-same_key point scope p q h, find-same_key point scope p ps h)

pub none_at :
    (point : FaultPoint) (scope : String) (ps : List FaultInjectionPlan)
    → find (at point scope) ps ≡ none
    → triggers_of point scope ps ≡ 0
none_at point scope [] h = refl
none_at point scope (p ∷ ps) h = elim (Bool-cases (at point scope p)) [
  | inl e ↦ cc (rw e at h)
  | inr e ↦ omega (arith, weight_not_at point scope p e, none_at point scope ps (rw e at h))
]

weight-rearm :
    (r : FaultRequest) (p : FaultInjectionPlan)
    → at r.fault_point r.scope_key p ≡ true
    → weight r.fault_point r.scope_key (rearm r p) ≡ pos_part r.trigger_count
weight-rearm r p h = rw h (ground arith)

triggers-rearm :
    (r : FaultRequest) (ps : List FaultInjectionPlan) {p : FaultInjectionPlan}
    → IsUnique ps
    → find (at r.fault_point r.scope_key) ps ≡ some p
    → triggers_of r.fault_point r.scope_key
        (update_first (at r.fault_point r.scope_key) (rearm r) ps)
      ≡ pos_part r.trigger_count
triggers-rearm r [] u h = cc
triggers-rearm r (q ∷ ps) u h = elim (Bool-cases (at r.fault_point r.scope_key q)) [
  | inl e ↦
      let rest =
        none_at r.fault_point r.scope_key ps
          (find-same_key r.fault_point r.scope_key q ps e ∙ u.0) in
      rw e (omega (arith, rest, weight-rearm r q e))
  | inr e ↦ rw e (
      omega
        (arith, weight_not_at r.fault_point r.scope_key q e, triggers-rearm r ps u.1 (rw e at h)))
]

weight-new_plan :
    (fresh : ℕ) (r : FaultRequest)
    → weight r.fault_point r.scope_key (new_plan fresh r) ≡ pos_part r.trigger_count
weight-new_plan fresh r = ground (arith, eq_refl (point_value r.fault_point), eq_refl r.scope_key)

-- After a plan is stored the triggers at its point and scope are those asked for.
pub triggers-store_plan :
    (fresh : ℕ) (r : FaultRequest) (s : FaultTables) {p : FaultInjectionPlan}
    → IsUnique s.plans
    → (store_plan fresh r s).0 ≡ ok p
    → triggers_of r.fault_point r.scope_key (store_plan fresh r s).1.plans
      ≡ pos_part r.trigger_count
unfolding store_plan
triggers-store_plan fresh r s u h =
    elim (Option-cases (find (at r.fault_point r.scope_key) s.plans)) [
      | inl e ↦ ground (arith, weight-new_plan fresh r, none_at r.fault_point r.scope_key s.plans e)
      | inr (p, e) ↦ ground (arith, triggers-rearm r s.plans {p = p} u e)
    ]
