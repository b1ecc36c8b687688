-- ===== src/Adapters.antt =====
-- adapters.py, the data of the adapter contract and the checks of its constructors.
pub mod Execution
pub mod Reported
pub mod Fake
use llm_endpoint.Prelude.{
  ℕ, String, Bool, true, false, Option, none, some, List, [], ◌∷◌, ◌&&◌, ◌||◌, not, is_none,
  is_some, any, contains, is_empty, if◌then◌else◌,
}
use llm_endpoint.Prelude.Int.{ℤ, pos, negsuc, leb_ℤ, ltb_ℤ}
use llm_endpoint.Prelude.Text.{truthy, lower}
use llm_endpoint.Prelude.Dict.{Dict, keys}
use llm_endpoint.Prelude.Outcome.{Result, ok, raise, Error, require, Call, ◌>>=◌, ◌>>◌}
use llm_endpoint.Values.{Value, Fields}
use llm_endpoint.Results.{FailureCode}
use llm_endpoint.Telemetry.{TokenUsage, forbidden_attribute_keys}
use llm_endpoint.Callbacks.{SecretValue}
use llm_endpoint.Config.{ProviderFormat, FormatValue, StructuredOutputMode}

pub data ProviderOutcomeKind : Type 0 where
  success refusal retryable_failure non_retryable_failure timeout cancelled : ProviderOutcomeKind

-- `.value`
unfoldable pub outcome_kind_value : ProviderOutcomeKind → String
outcome_kind_value ProviderOutcomeKind.success = "success"
outcome_kind_value ProviderOutcomeKind.refusal = "refusal"
outcome_kind_value ProviderOutcomeKind.retryable_failure = "retryable_failure"
outcome_kind_value ProviderOutcomeKind.non_retryable_failure = "non_retryable_failure"
outcome_kind_value ProviderOutcomeKind.timeout = "timeout"
outcome_kind_value ProviderOutcomeKind.cancelled = "llm.input.cancelled"

pub record AdapterInvocationPlan : Type 0 where
  pub endpoint_uid : String
  pub provider_format : FormatValue
  pub model_family : String
  pub model : String
  pub operation_invocation_id : String
  pub messages : List Value
  pub deadline_ms : ℤ
  pub candidate_budget_ms : ℤ
  pub schema_mode : StructuredOutputMode
  pub credential_ref : Option String
  pub credential : Option SecretValue
  pub schema_contract_ref : Option String
  pub policy_fingerprint : Option String
  pub request_metadata : Dict String

-- `AdapterInvocationPlan(…)`
unfoldable pub adapter_plan : AdapterInvocationPlan → Result AdapterInvocationPlan
adapter_plan p = do
  require (truthy p.endpoint_uid) (Error.value_error "endpoint_uid is required")
  require (truthy p.operation_invocation_id)
      (Error.value_error "operation_invocation_id is required")
  require (not (leb_ℤ p.deadline_ms (pos 0) || leb_ℤ p.candidate_budget_ms (pos 0)))
      (Error.value_error "deadline and candidate budgets must be positive")
  require (not (ltb_ℤ p.deadline_ms p.candidate_budget_ms))
      (Error.value_error "candidate_budget_ms cannot exceed deadline_ms")
  ok p

-- `str | Mapping[str, Any]`
pub data Content : Type 0 where
  text : String → Content
  object : Fields → Content

pub record ProviderSuccessPayload : Type 0 where
  pub content : Content
  pub finish_reason : Option String
  pub tool_name : Option String

pub record ProviderOutcome : Type 0 where
  pub kind : ProviderOutcomeKind
  pub endpoint_uid : String
  pub elapsed_ms : ℕ
  pub payload : Option ProviderSuccessPayload
  pub failure_code : Option FailureCode
  pub safe_provider_status : Dict String
  pub token_usage : Option TokenUsage

abbrev pub is_success : ProviderOutcomeKind → Bool
is_success ProviderOutcomeKind.success = true
is_success _ = false

abbrev pub forbidden_provider_status_fields : List String
forbidden_provider_status_fields =
    "api_key" ∷ "authorization" ∷ "body" ∷ "credential" ∷ "headers" ∷ "raw_request" ∷ "raw_response"
    ∷ []

unfoldable pub has_forbidden_status : Dict String → Bool
unfolding forbidden_attribute_keys lower
has_forbidden_status status =
    not (is_empty (forbidden_attribute_keys status))
    || any (λ key. contains (lower key) forbidden_provider_status_fields) (keys status)

natural : ℤ → Result ℕ
natural (pos n) = ok n
natural (negsuc n) = raise (Error.value_error "elapsed_ms must be non-negative")

check_kind :
    ProviderOutcomeKind → Option ProviderSuccessPayload → Option FailureCode → Result (Unit {0})
check_kind kind payload code =
    if is_success kind
    then require (not (is_none payload || is_some code))
        (Error.value_error "success outcomes require payload and no failure_code")
    else require (is_some code) (Error.value_error "failure-like outcomes require failure_code")

-- `ProviderOutcome(…)`; `elapsed_ms` is an integer of the adapter's.
unfoldable pub provider_outcome :
    ProviderOutcomeKind
    → String
    → ℤ
    → Option ProviderSuccessPayload
    → Option FailureCode
    → Dict String
    → Option TokenUsage
    → Result ProviderOutcome
unfolding natural check_kind has_forbidden_status
provider_outcome kind uid elapsed payload code status usage = do
  require (truthy uid) (Error.value_error "endpoint_uid is required")
  elapsed_ms ← natural elapsed
  check_kind kind payload code
  require (not (has_forbidden_status status))
      (Error.value_error "provider status contains forbidden fields")
  ok (record {
    kind = kind;
    endpoint_uid = uid;
    elapsed_ms = elapsed_ms;
    payload = payload;
    failure_code = code;
    safe_provider_status = status;
    token_usage = usage;
  })

unfoldable pub provider_success :
    String
    → ℤ
    → Content
    → Option String
    → Option String
    → Dict String
    → Option TokenUsage
    → Result ProviderOutcome
unfolding provider_outcome
provider_success uid elapsed content finish_reason tool_name status usage =
    provider_outcome ProviderOutcomeKind.success uid elapsed
      (some (record { content = content; finish_reason = finish_reason; tool_name = tool_name }))
      none status usage

unfoldable pub provider_failure :
    ProviderOutcomeKind
    → String
    → ℤ
    → FailureCode
    → Dict String
    → Option TokenUsage
    → Result ProviderOutcome
unfolding provider_outcome
provider_failure kind uid elapsed code status usage = do
  require (not (is_success kind))
      (Error.value_error "provider_failure cannot build success outcomes")
  provider_outcome kind uid elapsed none (some code) status usage

-- A provider adapter of a host; it may change the world `W`, and may raise.
pub record ProviderAdapter (W : Type 0) : Type 0 where
  pub provider_format : ProviderFormat
  pub invoke : AdapterInvocationPlan → W → Call ProviderOutcome × W
