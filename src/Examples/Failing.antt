-- ===== src/Examples/Failing.antt =====
-- Examples for failures.py.
use agents_should_survive_fa.Base.{◌≡◌, ◌↔◌, refl, false, none}
use agents_should_survive_fa.Failures.{
  provider_error, value_error, temporal_failure, classify_failure, platform_failure, invalid_input,
}
use agents_should_survive_fa.Failures.Redaction.{
  temporal_failure_redacts, IsRetryable, IsRetryable-exactly,
}

value_error_category :
    classify_failure (value_error "secret") ≡ platform_failure invalid_input false none
unfolding classify_failure
value_error_category = refl

temporal_failure_redacts_example :
    temporal_failure (provider_error "timeout" "")
    ≡ temporal_failure (provider_error "timeout" "Bearer sk-123")
temporal_failure_redacts_example =
    temporal_failure_redacts "" (provider_error "timeout" "Bearer sk-123")

IsRetryable-exactly_example :
    ((temporal_failure (provider_error "rate_limit" "429")).non_retryable ≡ false)
    ↔ IsRetryable (provider_error "rate_limit" "429")
IsRetryable-exactly_example = IsRetryable-exactly (provider_error "rate_limit" "429")
