-- ===== src/Failures/Redaction.antt =====
-- What `temporal_failure` makes of an exception (failures.py): the text and the flag of the failure
-- for Temporal.
use agents_should_survive_fa.Base.{
  String, ◌≡◌, refl, ◌⊎◌, inl, inr, ◌↔◌, true, false, arith, eq_iff,
}
use agents_should_survive_fa.Failures.{
  PlatformFailure, Exception, platform, timeout_error, operational_error, provider_error,
  permission_error, value_error, other_error, is_transient, temporal_failure,
}

-- The exception with another raw text; a provider's category is not text of a payload.
abbrev pub with_text : String → Exception → Exception
with_text t (platform f) = platform (record f { message = t })
with_text t (timeout_error _) = timeout_error t
with_text t (operational_error _) = operational_error t
with_text t (provider_error c _) = provider_error c t
with_text t (permission_error _) = permission_error t
with_text t (value_error _) = value_error t
with_text t (other_error _) = other_error t

-- The Temporal failure of an exception is the same whatever raw text the exception carries.
pub temporal_failure_redacts :
    (t : String) (e : Exception) → temporal_failure (with_text t e) ≡ temporal_failure e
unfolding temporal_failure
temporal_failure_redacts t (platform f) = refl
temporal_failure_redacts t (timeout_error _) = refl
temporal_failure_redacts t (operational_error _) = refl
temporal_failure_redacts t (provider_error _ _) = refl
temporal_failure_redacts t (permission_error _) = refl
temporal_failure_redacts t (value_error _) = refl
temporal_failure_redacts t (other_error _) = refl

-- An exception of a kind that is declared retryable.
pub data IsRetryable : Exception → Type 0 where
  marked : (f : PlatformFailure) → f.retryable ≡ true → IsRetryable (platform f)
  timed_out : (t : String) → IsRetryable (timeout_error t)
  database_down : (t : String) → IsRetryable (operational_error t)
  connection_lost : (c t : String) → c ≡ "connection" → IsRetryable (provider_error c t)
  limited : (c t : String) → c ≡ "rate_limit" → IsRetryable (provider_error c t)
  provider_timed_out : (c t : String) → c ≡ "timeout" → IsRetryable (provider_error c t)

transient_cases :
    (c : String) → is_transient c ≡ true → (c ≡ "connection") ⊎ (c ≡ "rate_limit") ⊎ (c ≡ "timeout")
unfolding is_transient
transient_cases c h =
    ground (arith, eq_iff c "connection", eq_iff c "rate_limit", eq_iff c "timeout")

is_transient_of :
    (c : String) → (c ≡ "connection") ⊎ (c ≡ "rate_limit") ⊎ (c ≡ "timeout") → is_transient c ≡ true
unfolding is_transient
is_transient_of c h =
    ground (arith, eq_iff c "connection", eq_iff c "rate_limit", eq_iff c "timeout")

from_transient : (c t : String) → is_transient c ≡ true → IsRetryable (provider_error c t)
from_transient c t h = elim (transient_cases c h) [
  | inl e ↦ connection_lost c t e
  | inr (inl e) ↦ limited c t e
  | inr (inr e) ↦ provider_timed_out c t e
]

IsRetryable-sound : (e : Exception) → (temporal_failure e).non_retryable ≡ false → IsRetryable e
unfolding temporal_failure
IsRetryable-sound (platform f) h = marked f (ground arith)
IsRetryable-sound (timeout_error t) h = timed_out t
IsRetryable-sound (operational_error t) h = database_down t
IsRetryable-sound (provider_error c t) h = from_transient c t (ground arith)
IsRetryable-sound (permission_error t) h = cc
IsRetryable-sound (value_error t) h = cc
IsRetryable-sound (other_error t) h = cc

IsRetryable-complete : {e : Exception} → IsRetryable e → (temporal_failure e).non_retryable ≡ false
unfolding temporal_failure
IsRetryable-complete (marked f h) = rw h
IsRetryable-complete (timed_out t) = refl
IsRetryable-complete (database_down t) = refl
IsRetryable-complete (connection_lost c t e) = rw (is_transient_of c (inl e))
IsRetryable-complete (limited c t e) = rw (is_transient_of c (inr (inl e)))
IsRetryable-complete (provider_timed_out c t e) = rw (is_transient_of c (inr (inr e)))

-- The failure that `temporal_failure` makes of an exception is not marked non-retryable exactly when
-- the exception is a retryable platform failure, a timeout, a database outage, or a provider's
-- connection, rate-limit or timeout failure.
pub IsRetryable-exactly :
    (e : Exception) → ((temporal_failure e).non_retryable ≡ false) ↔ IsRetryable e
IsRetryable-exactly e = (IsRetryable-sound e, IsRetryable-complete)
