-- ===== src/Normalization.antt =====
-- normalization.py: one adapter outcome becomes one terminal result.
pub mod Outcomes
use llm_endpoint.Prelude.{
  String, Bool, true, false, Option, none, some, [], map, value_or, not, if◌then◌else◌,
}
use Prim.Native.String.{◌++◌ as append}
use llm_endpoint.Prelude.Text.{or_else}
use llm_endpoint.Prelude.Dict.{Dict}
use llm_endpoint.Results.{
  FailureCode, FailureContext, TerminalResult, plain_text, failed, failure, failure_code_value,
  for_invocation, is_retryable,
}
use llm_endpoint.Adapters.{ProviderOutcome, Content, is_success}

-- `_FAILURE_MESSAGES`: of a key that the literal writes more than once, the last value stands.
unfoldable pub failure_message : FailureCode → Option String
failure_message FailureCode.invocation_rate_limited = some "provider rate limited the request"
failure_message FailureCode.invocation_quota_exhausted = some "provider quota is exhausted"
failure_message FailureCode.local_candidate_timeout = some "provider attempt timed out"
failure_message FailureCode.transient_network = some "provider returned a retryable transient error"
failure_message FailureCode.provider_failure = some "provider returned a non-retryable error"
failure_message FailureCode.structured_output_refusal = some "provider refused the request"
failure_message FailureCode.invalid_structured_output_payload =
    some "provider returned duplicate terminal outputs"
failure_message FailureCode.cancelled = some "provider attempt was cancelled"
failure_message _ = none

unfoldable pub provider_status_context : Dict String → Dict String
provider_status_context status =
    map (λ (entry : String × String). (append "provider_status." entry.0, entry.1)) status

-- the fields that every failure of this module carries
abbrev outcome_context : ProviderOutcome → String → Option String → FailureContext
outcome_context o id fingerprint = record (for_invocation id) {
  endpoint_uid = some o.endpoint_uid;
  policy_fingerprint = fingerprint;
  elapsed_ms = some o.elapsed_ms;
}

normalize_content : ProviderOutcome → Content → String → Option String → Bool → TerminalResult
unfolding failure provider_status_context
normalize_content o (Content.text s) id fingerprint plain_text_allowed =
    if not plain_text_allowed
    then failed (
        failure FailureCode.invalid_structured_output_payload
          "plain text provider output is not allowed for this operation"
          (outcome_context o id fingerprint) (provider_status_context o.safe_provider_status))
    else plain_text (record {
      text = s;
      operation_invocation_id = id;
      endpoint_uid = o.endpoint_uid;
      policy_fingerprint = or_else fingerprint "";
      elapsed_ms = o.elapsed_ms;
    })
normalize_content o (Content.object fs) id fingerprint plain_text_allowed = failed (
    failure FailureCode.invalid_structured_output_payload
      "structured provider output requires the structured-output pipeline"
      (outcome_context o id fingerprint) (provider_status_context o.safe_provider_status))

unfoldable pub normalize_success : ProviderOutcome → String → Option String → Bool → TerminalResult
unfolding normalize_content
normalize_success o id fingerprint plain_text_allowed = elim o.payload [
  | none ↦ failed (
      failure FailureCode.provider_failure "provider success outcome omitted payload"
        (outcome_context o id fingerprint) [])
  | some p ↦ normalize_content o p.content id fingerprint plain_text_allowed
]

-- The arguments `role`, `operation_ref` and `attempt_trace_id` go to failures of the provider only.
unfoldable pub normalize_provider_outcome :
    ProviderOutcome
    → String
    → Option String
    → Option String
    → Option String
    → Option String
    → Bool
    → TerminalResult
unfolding normalize_success failure_message failure_code_value
normalize_provider_outcome o id role operation_ref fingerprint trace_id plain_text_allowed =
    let context = record (outcome_context o id fingerprint) {
      role = role;
      operation_ref = operation_ref;
      attempt_trace = trace_id;
    } in
    if is_success o.kind
    then normalize_success o id fingerprint plain_text_allowed
    else elim o.failure_code [
      | none ↦ failed (
          failure FailureCode.provider_failure "provider failure outcome omitted a failure code"
            context [])
      | some code ↦ failed (
          failure code (value_or (failure_message code) (failure_code_value code)) context
            (provider_status_context o.safe_provider_status))
    ]

retryable_result : TerminalResult → Bool
unfolding is_retryable
retryable_result (failed f) = is_retryable f
retryable_result _ = false

unfoldable pub is_retryable_provider_outcome : ProviderOutcome → Bool
unfolding normalize_provider_outcome retryable_result
is_retryable_provider_outcome o =
    if is_success o.kind
    then false
    else retryable_result
        (normalize_provider_outcome o "retryability-classification" none none none none true)
