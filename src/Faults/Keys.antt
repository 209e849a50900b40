-- ===== src/Faults/Keys.antt =====
-- Every operation of the injector keeps the plan table valid (fault_injection.py): it has one row
-- for each point and scope, and each row names an action.
use agents_should_survive_fa.Base.{
  ℕ, String, ◌≡◌, refl, inl, inr, Bool, true, false, none, List, [], ◌∷◌, arith, find, update_first,
  ok, Bool-cases, Option-cases, All-update_first, ◌∙◌, >>=_state, transaction, transaction_state,
}
use agents_should_survive_fa.Faults.Names.{FaultPoint, action_of_value-action_value}
use agents_should_survive_fa.Faults.Injector.{
  FaultInjectionPlan, FaultTables, FaultRequest, at, armed, spend, rearm, disarm, new_plan,
  store_plan, create_checks, create, clear, consume, take_trigger,
}
use agents_should_survive_fa.Faults.Triggers.{IsNamed}
use agents_should_survive_fa.Faults.Plans.{same_key, IsUnique, IsValid}

-- A change of a row that keeps its key.
abbrev KeepsKey : (FaultInjectionPlan → FaultInjectionPlan) → Type 0
KeepsKey f =
    (x : FaultInjectionPlan) → ((f x).fault_point ≡ x.fault_point) × ((f x).scope_key ≡ x.scope_key)

module _ (f : FaultInjectionPlan → FaultInjectionPlan) (keeps : KeepsKey f) where
  same_key-keeps : (p x : FaultInjectionPlan) → same_key p (f x) ≡ same_key p x
  same_key-keeps p x = rw ((keeps x).0, (keeps x).1)

  find_changed :
      (p x : FaultInjectionPlan) (ps : List FaultInjectionPlan)
      → find (same_key p) (x ∷ ps) ≡ none
      → find (same_key p) (f x ∷ ps) ≡ none
  find_changed p x ps h = elim (Bool-cases (same_key p x)) [
    | inl same ↦ cc (rw same at h)
    | inr other ↦ rw (same_key-keeps p x) (rw other (rw other at h))
  ]

  find-update_first :
      (p : FaultInjectionPlan) (q : FaultInjectionPlan → Bool) (ps : List FaultInjectionPlan)
      → find (same_key p) ps ≡ none
      → find (same_key p) (update_first q f ps) ≡ none
  find-update_first p q [] h = refl
  find-update_first p q (x ∷ ps) h = elim (Bool-cases (q x)) [
    | inl e ↦ rw e (find_changed p x ps h)
    | inr e ↦ elim (Bool-cases (same_key p x)) [
      | inl same ↦ cc (rw same at h)
      | inr other ↦ rw e (rw other (find-update_first p q ps (rw other at h)))
    ]
  ]

  same_key-changed :
      (x : FaultInjectionPlan) (ps : List FaultInjectionPlan)
      → find (same_key (f x)) ps ≡ find (same_key x) ps
  same_key-changed x ps = rw ((keeps x).0, (keeps x).1)

  update_first-IsUnique :
      (q : FaultInjectionPlan → Bool) (ps : List FaultInjectionPlan)
      → IsUnique ps
      → IsUnique (update_first q f ps)
  update_first-IsUnique q [] u = u
  update_first-IsUnique q (x ∷ ps) u = elim (Bool-cases (q x)) [
    | inl e ↦ rw e (same_key-changed x ps ∙ u.0, u.1)
    | inr e ↦ rw e (find-update_first x q ps u.0, update_first-IsUnique q ps u.1)
  ]

same_key-new_plan :
    (fresh : ℕ) (r : FaultRequest) (ps : List FaultInjectionPlan)
    → find (at r.fault_point r.scope_key) ps ≡ none
    → find (same_key (new_plan fresh r)) ps ≡ none
same_key-new_plan fresh r ps h = h

-- An update of the found row that keeps its key and still names an action.
module _ (q : FaultInjectionPlan → Bool) (f : FaultInjectionPlan → FaultInjectionPlan)
    (keeps : KeepsKey f) (names : (x : FaultInjectionPlan) → IsNamed x → IsNamed (f x)) where
  changed-IsValid : (s t : FaultTables) → t.plans ≡ update_first q f s.plans → IsValid s → IsValid t
  changed-IsValid s t e v = record {
    unique = rw e (update_first-IsUnique f keeps q s.plans v.unique);
    named = rw e (All-update_first IsNamed q f s.plans (λ x h n. names x n) v.named);
  }

added-IsValid :
    (fresh : ℕ) (r : FaultRequest) (s t : FaultTables)
    → find (at r.fault_point r.scope_key) s.plans ≡ none
    → t.plans ≡ new_plan fresh r ∷ s.plans
    → IsValid s
    → IsValid t
added-IsValid fresh r s t h e v = record {
  unique = rw e (same_key-new_plan fresh r s.plans h, v.unique);
  named = rw e ((r.action, action_of_value-action_value r.action), v.named);
}

-- The three ways in which the plan table changes.
data PlansChange (s t : FaultTables) : Type 0 where
  kept : t.plans ≡ s.plans → PlansChange s t
  added :
      (fresh : ℕ) (r : FaultRequest)
      → find (at r.fault_point r.scope_key) s.plans ≡ none
      → t.plans ≡ new_plan fresh r ∷ s.plans
      → PlansChange s t
  rearmed :
      (r : FaultRequest)
      → t.plans ≡ update_first (at r.fault_point r.scope_key) (rearm r) s.plans
      → PlansChange s t
  disarmed :
      (q : FaultInjectionPlan → Bool) → t.plans ≡ update_first q disarm s.plans → PlansChange s t
  spent : (q : FaultInjectionPlan → Bool) → t.plans ≡ update_first q spend s.plans → PlansChange s t

PlansChange-IsValid : {s t : FaultTables} → PlansChange s t → IsValid s → IsValid t
PlansChange-IsValid {s} {t} (kept e) v = record { unique = rw e v.unique; named = rw e v.named }
PlansChange-IsValid {s} {t} (added fresh r h e) v = added-IsValid fresh r s t h e v
PlansChange-IsValid {s} {t} (rearmed r e) v =
    changed-IsValid _ (rearm r) (λ x. (refl, refl))
      (λ x n. (r.action, action_of_value-action_value r.action)) s t e v
PlansChange-IsValid {s} {t} (disarmed q e) v =
    changed-IsValid q disarm (λ x. (refl, refl)) (λ x n. n) s t e v
PlansChange-IsValid {s} {t} (spent q e) v =
    changed-IsValid q spend (λ x. (refl, refl)) (λ x n. n) s t e v

pub create_checks_state :
    (enabled : Bool) (r : FaultRequest) (s : FaultTables) → (create_checks enabled r s).1 ≡ s
unfolding create_checks
create_checks_state enabled r s = ground arith

store_plan_change :
    (fresh : ℕ) (r : FaultRequest) (s : FaultTables) {p : FaultInjectionPlan}
    → (store_plan fresh r s).0 ≡ ok p
    → PlansChange s (store_plan fresh r s).1
unfolding store_plan
store_plan_change fresh r s h = elim (Option-cases (find (at r.fault_point r.scope_key) s.plans)) [
  | inl e ↦ added fresh r e (ground arith)
  | inr (p, e) ↦ rearmed r (ground arith)
]

-- Whatever `create` answers, it keeps the plan table valid.
pub create-IsValid :
    (enabled : Bool) (fresh : ℕ) (r : FaultRequest) (s : FaultTables)
    → IsValid s
    → IsValid (create enabled fresh r s).1
unfolding create
create-IsValid enabled fresh r s v =
    let same = create_checks_state enabled r s in
    >>=_state IsValid (create_checks enabled r) (λ _. transaction (store_plan fresh r)) s
      (rw same v)
      (λ _ _.
        transaction_state IsValid (store_plan fresh r) _ (rw same v)
          (λ p h. rw same (PlansChange-IsValid (store_plan_change fresh r s (rw same at h)) v)))

clear_change :
    (enabled : Bool) (point : FaultPoint) (scope : String) (s : FaultTables)
    → PlansChange s (clear enabled point scope s).1
unfolding clear
clear_change true point scope s = disarmed (at point scope) refl
clear_change false point scope s = kept refl

-- Whatever `clear` answers, it keeps the plan table valid.
pub clear-IsValid :
    (enabled : Bool) (point : FaultPoint) (scope : String) (s : FaultTables)
    → IsValid s
    → IsValid (clear enabled point scope s).1
clear-IsValid enabled point scope s v = PlansChange-IsValid (clear_change enabled point scope s) v

take_trigger_change :
    (point : FaultPoint) (scope : String) (s : FaultTables)
    → PlansChange s (take_trigger point scope s).1
unfolding take_trigger
take_trigger_change point scope s = elim (Option-cases (find (armed point scope) s.plans)) [
  | inl e ↦ kept (ground arith)
  | inr (p, e) ↦ spent (armed point scope) (ground arith)
]

-- Whatever `consume` answers, it keeps the plan table valid.
pub consume-IsValid :
    (enabled : Bool) (point : FaultPoint) (scope : String) (s : FaultTables)
    → IsValid s
    → IsValid (consume enabled point scope s).1
unfolding consume
consume-IsValid false point scope s v = v
consume-IsValid true point scope s v =
    transaction_state IsValid (take_trigger point scope) s v
      (λ _ _. PlansChange-IsValid (take_trigger_change point scope s) v)
