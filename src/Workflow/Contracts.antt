-- ===== src/Workflow/Contracts.antt =====
-- What the API, the activities and the workflows exchange (workflows/contracts.py).
use agents_should_survive_fa.Base.{
  ℕ, String, Bool, true, false, ◌&&◌, ◌==◌, str_eq, ◌≡◌, arith, eq_iff, eq_refl,
}
use agents_should_survive_fa.Base.Int.{ℤ, eqb_ℤ}

pub data ApprovalDecisionType : Type 0 where
  approved rejected : ApprovalDecisionType

pub record VendorOnboardingInput : Type 0 where
  pub run_id : ℕ
  pub vendor_id : ℕ

pub record RiskAssessment : Type 0 where
  pub score : ℕ
  pub summary : String

pub record ApprovalDecisionInput : Type 0 where
  pub approval_request_id : ℕ
  pub expected_version : ℤ
  pub decision : ApprovalDecisionType
  pub decided_by_id : ℕ
  pub rationale : String
  pub idempotency_key : String

abbrev pub same_type : ApprovalDecisionType → ApprovalDecisionType → Bool
same_type approved approved = true
same_type rejected rejected = true
same_type _ _ = false

-- The `==` of the frozen dataclass.
unfoldable pub same_decision : ApprovalDecisionInput → ApprovalDecisionInput → Bool
same_decision d e =
    d.approval_request_id == e.approval_request_id
    && eqb_ℤ d.expected_version e.expected_version
    && same_type d.decision e.decision
    && d.decided_by_id == e.decided_by_id
    && str_eq d.rationale e.rationale
    && str_eq d.idempotency_key e.idempotency_key

pub same_decision_sound : (d e : ApprovalDecisionInput) → same_decision d e ≡ true → d ≡ e
unfolding same_decision
same_decision_sound d e h =
    ground (arith, eq_iff d.rationale e.rationale, eq_iff d.idempotency_key e.idempotency_key)

pub same_decision_refl : (d : ApprovalDecisionInput) → same_decision d d ≡ true
unfolding same_decision
same_decision_refl d = ground (arith, eq_refl d.rationale, eq_refl d.idempotency_key)
