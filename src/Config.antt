-- ===== src/Config.antt =====
-- config.py: the configuration's data. Its validation, the registry and its life cycle are in the modules below.
pub mod Errors
pub mod Names
pub mod Identity
pub mod Validation
pub mod Building
pub mod WellFormed
pub mod Lifecycle
use llm_endpoint.Prelude.{String, Bool, false, Option, List, ◌==◌}
use llm_endpoint.Prelude.Int.{ℤ}
use llm_endpoint.Prelude.Dict.{Dict}
use llm_endpoint.Values.{Value}

pub data ProviderFormat : Type 0 where
  openai_responses openai_chat_completions anthropic_messages fake : ProviderFormat

-- `.value`
unfoldable pub format_value : ProviderFormat → String
format_value ProviderFormat.openai_responses = "openai_responses"
format_value ProviderFormat.openai_chat_completions = "openai_chat_completions"
format_value ProviderFormat.anthropic_messages = "anthropic_messages"
format_value ProviderFormat.fake = "fake"

pub data ReasoningMode : Type 0 where
  disabled low medium high : ReasoningMode

-- `.value`
unfoldable pub reasoning_mode_value : ReasoningMode → String
reasoning_mode_value ReasoningMode.disabled = "disabled"
reasoning_mode_value ReasoningMode.low = "low"
reasoning_mode_value ReasoningMode.medium = "medium"
reasoning_mode_value ReasoningMode.high = "high"

pub data StructuredOutputMode : Type 0 where
  none tool_call json_schema prompt_json : StructuredOutputMode

-- `.value`
unfoldable pub output_mode_value : StructuredOutputMode → String
output_mode_value StructuredOutputMode.none = "none"
output_mode_value StructuredOutputMode.tool_call = "tool_call"
output_mode_value StructuredOutputMode.json_schema = "json_schema"
output_mode_value StructuredOutputMode.prompt_json = "prompt_json"

pub data RetryClass : Type 0 where
  never retryable_availability_only : RetryClass

-- `.value`
unfoldable pub retry_class_value : RetryClass → String
retry_class_value RetryClass.never = "never"
retry_class_value RetryClass.retryable_availability_only = "retryable_availability_only"

-- What the field `provider_format` of an endpoint can hold: a member, or text that a host put there.
pub data FormatValue : Type 0 where
  member : ProviderFormat → FormatValue
  raw : String → FormatValue

-- `a is b`, for a member `b`; text is no member, also where it has a member's value.
unfoldable pub is_format : FormatValue → ProviderFormat → Bool
unfolding format_value
is_format (member a) b = format_value a == format_value b
is_format (raw s) b = false

pub record EndpointConfig : Type 0 where
  pub uid : String
  pub provider_format : FormatValue
  pub model_family : String
  pub model : String
  pub credential_ref : String
  pub capability_refs : List String
  pub endpoint_url : Option String
  pub deployment : Option String
  pub metadata : Dict String

-- A pool is the list of its members.
pub record RoleConfig : Type 0 where
  pub name : String
  pub endpoint_uid : Option String
  pub pool : Option (List String)

pub record RetryPolicy : Type 0 where
  pub retry_class : RetryClass
  pub max_attempts : ℤ

-- The budgets of single endpoints are values that the source checks to be integers.
pub record OperationRuntimePolicy : Type 0 where
  pub ref : String
  pub deadline_ms : ℤ
  pub max_output_tokens : ℤ
  pub reasoning_mode : ReasoningMode
  pub candidate_budget_ms : Option ℤ
  pub candidate_budget_overrides_ms : Option (Dict Value)
  pub protect_last_eligible : Bool
  pub structured_output_mode : StructuredOutputMode
  pub allow_caller_overrides : Bool
  pub retry_policy : RetryPolicy

pub record OperationConfig : Type 0 where
  pub ref : String
  pub policy_ref : String
  pub schema_contract_ref : Option String

pub record LlmEndpointConfig : Type 0 where
  pub endpoints : List EndpointConfig
  pub roles : List RoleConfig
  pub operations : List OperationConfig
  pub policies : List OperationRuntimePolicy
  pub config_schema_version : String
  pub metadata : Dict String

pub record ResolvedRole : Type 0 where
  pub name : String
  pub endpoint_uids : List String
  pub config_identity : String

pub record Registry : Type 0 where
  pub config : LlmEndpointConfig
  pub config_identity : String
  pub endpoints_by_uid : Dict EndpointConfig
  pub roles_by_name : Dict RoleConfig
  pub operations_by_ref : Dict OperationConfig
  pub policies_by_ref : Dict OperationRuntimePolicy
