-- ===== src/Failures.antt =====
-- Typed, sanitized failures at the activity boundary
-- (src/agents_should_survive_failure/failures.py).
pub mod Redaction
use agents_should_survive_fa.Base.{
  String, Bool, true, false, not, ◌||◌, Option, none, some, str_eq, if◌then◌else◌,
}

pub data FailureCategory : Type 0 where
  authorization_denied invalid_input missing_grant tool_unsupported tool_version_mismatch :
      FailureCategory
  identity_mismatch stale_approval conflicting_approval idempotency_conflict : FailureCategory
  invalid_manifest budget_exhausted timeout database_unavailable mcp_unavailable : FailureCategory
  provider_unavailable tool_unavailable rate_limited worker_terminated : FailureCategory
  ambiguous_handoff unexpected : FailureCategory

-- `category.value`
pub category_value : FailureCategory → String
category_value authorization_denied = "authorization_denied"
category_value invalid_input = "invalid_input"
category_value missing_grant = "missing_immutable_grant"
category_value tool_unsupported = "tool_unsupported"
category_value tool_version_mismatch = "tool_version_mismatch"
category_value identity_mismatch = "vendor_identity_mismatch"
category_value stale_approval = "stale_approval_version"
category_value conflicting_approval = "conflicting_approval_decision"
category_value idempotency_conflict = "idempotency_key_conflict"
category_value invalid_manifest = "invalid_manifest"
category_value budget_exhausted = "budget_exhausted"
category_value timeout = "timeout"
category_value database_unavailable = "database_unavailable"
category_value mcp_unavailable = "mcp_transport_unavailable"
category_value provider_unavailable = "provider_unavailable"
category_value tool_unavailable = "tool_handler_unavailable"
category_value rate_limited = "rate_limited"
category_value worker_terminated = "worker_terminated"
category_value ambiguous_handoff = "ambiguous_handoff"
category_value unexpected = "unexpected_internal_error"

-- `message` is the exception's own text, `detail or category.value`.
pub record PlatformFailure : Type 0 where
  pub category : FailureCategory
  pub retryable : Bool
  pub message : String

-- `PlatformFailure(category, retryable=..., detail=...)`
unfoldable pub platform_failure : FailureCategory → Bool → Option String → PlatformFailure
unfolding category_value
platform_failure category retryable detail = record {
  category = category;
  retryable = retryable;
  message = elim detail [
    | none ↦ category_value category
    | some text ↦ if str_eq text "" then category_value category else text
  ];
}

unfoldable pub safe_message : PlatformFailure → String
unfolding category_value
safe_message failure = category_value failure.category

-- An exception by the class that `isinstance` sees, with its raw text. `ProviderError` also carries
-- the provider's category.
pub data Exception : Type 0 where
  platform : PlatformFailure → Exception
  timeout_error : String → Exception
  operational_error : String → Exception
  provider_error : String → String → Exception
  permission_error : String → Exception
  value_error : String → Exception
  other_error : String → Exception

-- `error.category in {"connection", "rate_limit", "timeout"}`
unfoldable pub is_transient : String → Bool
is_transient category =
    str_eq category "connection" || str_eq category "rate_limit" || str_eq category "timeout"

unfoldable pub classify_failure : Exception → PlatformFailure
unfolding platform_failure is_transient
classify_failure (platform failure) = failure
classify_failure (timeout_error _) = platform_failure timeout true none
classify_failure (operational_error _) = platform_failure database_unavailable true none
classify_failure (provider_error category _) =
    platform_failure provider_unavailable (is_transient category) none
classify_failure (permission_error _) = platform_failure authorization_denied false none
classify_failure (value_error _) = platform_failure invalid_input false none
classify_failure (other_error _) = platform_failure unexpected false none

-- Temporal's `ApplicationError`; the message is `prefix` followed by `reason`.
pub record ApplicationError : Type 0 where
  pub prefix : String
  pub reason : String
  pub error_type : String
  pub non_retryable : Bool

unfoldable pub temporal_failure : Exception → ApplicationError
unfolding classify_failure safe_message category_value
temporal_failure error =
    let failure = classify_failure error in
    record {
      prefix = "required governed tool failed: ";
      reason = safe_message failure;
      error_type = category_value failure.category;
      non_retryable = not failure.retryable;
    }
