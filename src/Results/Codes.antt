-- ===== src/Results/Codes.antt =====
-- results.py, the enumerations and their two tables. A constructor is the member in lower case.
use llm_endpoint.Prelude.{String}

pub data Retryability : Type 0 where
  retryable non_retryable unknown : Retryability

-- `.value`
unfoldable pub retryability_value : Retryability → String
retryability_value Retryability.retryable = "retryable"
retryability_value Retryability.non_retryable = "non_retryable"
retryability_value Retryability.unknown = "unknown"

pub data FailureClass : Type 0 where
  validation configuration credential capability policy routing provider_availability
        provider_contract structured_output deadline cancellation internal :
      FailureClass

-- `.value`
unfoldable pub failure_class_value : FailureClass → String
failure_class_value FailureClass.validation = "validation"
failure_class_value FailureClass.configuration = "configuration"
failure_class_value FailureClass.credential = "credential"
failure_class_value FailureClass.capability = "capability"
failure_class_value FailureClass.policy = "policy"
failure_class_value FailureClass.routing = "routing"
failure_class_value FailureClass.provider_availability = "provider_availability"
failure_class_value FailureClass.provider_contract = "provider_contract"
failure_class_value FailureClass.structured_output = "structured_output"
failure_class_value FailureClass.deadline = "deadline"
failure_class_value FailureClass.cancellation = "cancellation"
failure_class_value FailureClass.internal = "internal"

pub data FailureCode : Type 0 where
  invalid_endpoint_config credential_unavailable unknown_role unknown_entrypoint
        unsupported_provider_format endpoint_suppressed unsupported_runtime_knob capability_mismatch
        unsupported_reasoning_mode output_budget_exceeds_hard_cap candidate_budget_unallocatable
        operation_ref_required invalid_messages cancelled missing_schema_contract
        unknown_schema_contract invalid_structured_output_payload structured_output_refusal
        invocation_rate_limited invocation_quota_exhausted transient_network provider_5xx
        provider_failure local_candidate_timeout late_response_discarded deadline_exceeded
        no_eligible_candidate pool_exhausted smoke_skipped smoke_failed budget_violation
        module_unsupported_version :
      FailureCode

-- `.value`
unfoldable pub failure_code_value : FailureCode → String
failure_code_value FailureCode.invalid_endpoint_config = "llm.config.invalid_endpoint_config"
failure_code_value FailureCode.credential_unavailable = "llm.config.credential_unavailable"
failure_code_value FailureCode.unknown_role = "llm.endpoint.unknown_role"
failure_code_value FailureCode.unknown_entrypoint = "llm.endpoint.unknown_entrypoint"
failure_code_value FailureCode.unsupported_provider_format =
    "llm.endpoint.unsupported_provider_format"
failure_code_value FailureCode.endpoint_suppressed = "llm.endpoint.suppressed"
failure_code_value FailureCode.unsupported_runtime_knob = "llm.endpoint.unsupported_runtime_knob"
failure_code_value FailureCode.capability_mismatch = "llm.policy.capability_mismatch"
failure_code_value FailureCode.unsupported_reasoning_mode = "llm.policy.unsupported_reasoning_mode"
failure_code_value FailureCode.output_budget_exceeds_hard_cap =
    "llm.policy.output_budget_exceeds_hard_cap"
failure_code_value FailureCode.candidate_budget_unallocatable =
    "llm.policy.candidate_budget_unallocatable"
failure_code_value FailureCode.operation_ref_required = "llm.policy.operation_ref_required"
failure_code_value FailureCode.invalid_messages = "llm.input.invalid_messages"
failure_code_value FailureCode.cancelled = "llm.input.cancelled"
failure_code_value FailureCode.missing_schema_contract = "llm.schema.missing_contract"
failure_code_value FailureCode.unknown_schema_contract = "llm.schema.unknown_contract"
failure_code_value FailureCode.invalid_structured_output_payload =
    "llm.structured_output.invalid_payload"
failure_code_value FailureCode.structured_output_refusal = "llm.structured_output.refusal"
failure_code_value FailureCode.invocation_rate_limited = "llm.invocation.rate_limited"
failure_code_value FailureCode.invocation_quota_exhausted = "llm.invocation.quota_exhausted"
failure_code_value FailureCode.transient_network = "llm.invocation.transient_network"
failure_code_value FailureCode.provider_5xx = "llm.invocation.provider_5xx"
failure_code_value FailureCode.provider_failure = "llm.invocation.provider_failure"
failure_code_value FailureCode.local_candidate_timeout = "llm.invocation.local_candidate_timeout"
failure_code_value FailureCode.late_response_discarded = "llm.invocation.late_response_discarded"
failure_code_value FailureCode.deadline_exceeded = "llm.deadline.exceeded"
failure_code_value FailureCode.no_eligible_candidate = "llm.pool.no_eligible_candidate"
failure_code_value FailureCode.pool_exhausted = "llm.pool.exhausted"
failure_code_value FailureCode.smoke_skipped = "llm.smoke.skipped"
failure_code_value FailureCode.smoke_failed = "llm.smoke.failed"
failure_code_value FailureCode.budget_violation = "llm.budget.violation"
failure_code_value FailureCode.module_unsupported_version = "llm.module.unsupported_version"

unfoldable pub retryability_by_code : FailureCode → Retryability
retryability_by_code FailureCode.invalid_endpoint_config = Retryability.non_retryable
retryability_by_code FailureCode.credential_unavailable = Retryability.non_retryable
retryability_by_code FailureCode.unknown_role = Retryability.non_retryable
retryability_by_code FailureCode.unknown_entrypoint = Retryability.non_retryable
retryability_by_code FailureCode.unsupported_provider_format = Retryability.non_retryable
retryability_by_code FailureCode.endpoint_suppressed = Retryability.retryable
retryability_by_code FailureCode.unsupported_runtime_knob = Retryability.non_retryable
retryability_by_code FailureCode.capability_mismatch = Retryability.non_retryable
retryability_by_code FailureCode.unsupported_reasoning_mode = Retryability.non_retryable
retryability_by_code FailureCode.output_budget_exceeds_hard_cap = Retryability.non_retryable
retryability_by_code FailureCode.candidate_budget_unallocatable = Retryability.non_retryable
retryability_by_code FailureCode.operation_ref_required = Retryability.non_retryable
retryability_by_code FailureCode.invalid_messages = Retryability.non_retryable
retryability_by_code FailureCode.cancelled = Retryability.non_retryable
retryability_by_code FailureCode.missing_schema_contract = Retryability.non_retryable
retryability_by_code FailureCode.unknown_schema_contract = Retryability.non_retryable
retryability_by_code FailureCode.invalid_structured_output_payload = Retryability.non_retryable
retryability_by_code FailureCode.structured_output_refusal = Retryability.non_retryable
retryability_by_code FailureCode.invocation_rate_limited = Retryability.retryable
retryability_by_code FailureCode.invocation_quota_exhausted = Retryability.retryable
retryability_by_code FailureCode.transient_network = Retryability.retryable
retryability_by_code FailureCode.provider_5xx = Retryability.retryable
retryability_by_code FailureCode.provider_failure = Retryability.non_retryable
retryability_by_code FailureCode.local_candidate_timeout = Retryability.retryable
retryability_by_code FailureCode.late_response_discarded = Retryability.non_retryable
retryability_by_code FailureCode.deadline_exceeded = Retryability.non_retryable
retryability_by_code FailureCode.no_eligible_candidate = Retryability.non_retryable
retryability_by_code FailureCode.pool_exhausted = Retryability.non_retryable
retryability_by_code FailureCode.smoke_skipped = Retryability.non_retryable
retryability_by_code FailureCode.smoke_failed = Retryability.non_retryable
retryability_by_code FailureCode.budget_violation = Retryability.non_retryable
retryability_by_code FailureCode.module_unsupported_version = Retryability.non_retryable

unfoldable pub failure_class_by_code : FailureCode → FailureClass
failure_class_by_code FailureCode.invalid_endpoint_config = FailureClass.configuration
failure_class_by_code FailureCode.credential_unavailable = FailureClass.credential
failure_class_by_code FailureCode.unknown_role = FailureClass.routing
failure_class_by_code FailureCode.unknown_entrypoint = FailureClass.routing
failure_class_by_code FailureCode.unsupported_provider_format = FailureClass.capability
failure_class_by_code FailureCode.endpoint_suppressed = FailureClass.routing
failure_class_by_code FailureCode.unsupported_runtime_knob = FailureClass.capability
failure_class_by_code FailureCode.capability_mismatch = FailureClass.capability
failure_class_by_code FailureCode.unsupported_reasoning_mode = FailureClass.capability
failure_class_by_code FailureCode.output_budget_exceeds_hard_cap = FailureClass.policy
failure_class_by_code FailureCode.candidate_budget_unallocatable = FailureClass.policy
failure_class_by_code FailureCode.operation_ref_required = FailureClass.policy
failure_class_by_code FailureCode.invalid_messages = FailureClass.validation
failure_class_by_code FailureCode.cancelled = FailureClass.cancellation
failure_class_by_code FailureCode.missing_schema_contract = FailureClass.structured_output
failure_class_by_code FailureCode.unknown_schema_contract = FailureClass.structured_output
failure_class_by_code FailureCode.invalid_structured_output_payload = FailureClass.structured_output
failure_class_by_code FailureCode.structured_output_refusal = FailureClass.structured_output
failure_class_by_code FailureCode.invocation_rate_limited = FailureClass.provider_availability
failure_class_by_code FailureCode.invocation_quota_exhausted = FailureClass.provider_availability
failure_class_by_code FailureCode.transient_network = FailureClass.provider_availability
failure_class_by_code FailureCode.provider_5xx = FailureClass.provider_availability
failure_class_by_code FailureCode.provider_failure = FailureClass.provider_contract
failure_class_by_code FailureCode.local_candidate_timeout = FailureClass.deadline
failure_class_by_code FailureCode.late_response_discarded = FailureClass.deadline
failure_class_by_code FailureCode.deadline_exceeded = FailureClass.deadline
failure_class_by_code FailureCode.no_eligible_candidate = FailureClass.routing
failure_class_by_code FailureCode.pool_exhausted = FailureClass.routing
failure_class_by_code FailureCode.smoke_skipped = FailureClass.routing
failure_class_by_code FailureCode.smoke_failed = FailureClass.provider_contract
failure_class_by_code FailureCode.budget_violation = FailureClass.policy
failure_class_by_code FailureCode.module_unsupported_version = FailureClass.internal
