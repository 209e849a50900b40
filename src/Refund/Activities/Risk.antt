-- ===== src/Refund/Activities/Risk.antt =====
-- The bounds of the risk score (workflows/refund/activities.py).
use agents_should_survive_fa.Base.{
  ℕ, ◌≡◌, ◌≤◌, ◌+◌, sym, subst, ◌∙◌, inl, inr, Bool, some, ok, arith, Option-cases, if◌then◌else◌,
}
use agents_should_survive_fa.Json.{Json, Fields, lookup}
use agents_should_survive_fa.Refund.State.{RefundWorkflowInput}
use agents_should_survive_fa.Refund.Activities.{
  Decimals, is_delivered, risk_score, calculate_refund_risk,
}

score_bounds :
    (large delivered : Bool)
    → (30 ≤ risk_score large delivered)
      × (risk_score large delivered ≤ 85)
      × (risk_score large delivered
          ≡ 20 + (if large then 40 else 10) + (if delivered then 0 else 25))
unfolding risk_score
score_bounds large delivered = (ground arith, ground arith, ground arith)

-- A score that is calculated lies between 30 and 85, so that the cap of 100 changes none: it is 20, with
-- 40 for an amount of at least 500 and 10 otherwise, and 25 more for an order that is not delivered.
pub calculate_refund_risk_bounds :
    (decimals : Decimals) (input : RefundWorkflowInput) (order : Fields) (score : ℕ)
    → calculate_refund_risk decimals input order ≡ ok score
    → (30 ≤ score)
      × (score ≤ 85)
      × ((amount : decimals.Decimal) × (large : Bool) × (status : Json) × (decimals.parse
              input.amount
            ≡ some amount)
          × (decimals.at_least amount 500 ≡ some large)
          × (lookup "status" order ≡ some status)
          × (score ≡ 20 + (if large then 40 else 10) + (if is_delivered status then 0 else 25)))
unfolding calculate_refund_risk
calculate_refund_risk_bounds decimals input order score h =
    elim (Option-cases (decimals.parse input.amount)) [
      | inl e ↦ absurd (ground arith)
      | inr (amount, e) ↦ elim (Option-cases (decimals.at_least amount 500)) [
        | inl unordered ↦ absurd (ground arith)
        | inr (large, ordered) ↦ elim (Option-cases (lookup "status" order)) [
          | inl f ↦ absurd (ground arith)
          | inr (status, f) ↦
              let same : risk_score large (is_delivered status) ≡ score = ground arith in
              let (low, high, exact) = score_bounds large (is_delivered status) in
              (
                subst (λ n. 30 ≤ n) same low,
                subst (λ n. n ≤ 85) same high,
                (amount, large, status, e, ordered, f, sym same ∙ exact),
              )
        ]
      ]
    ]
