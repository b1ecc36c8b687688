-- ===== src/Policy.antt =====
-- policy.py: the data of a resolved runtime policy. Its resolution is in the modules below.
pub mod Effective
pub mod Limits
pub mod Resolution
use llm_endpoint.Prelude.{String, Bool, true, false, Option, List}
use llm_endpoint.Prelude.Outcome.{Result, ok, raise, Error}
use llm_endpoint.Prelude.Int.{ℤ, pos}
use llm_endpoint.Prelude.Dict.{Dict}
use llm_endpoint.Values.{Value, int, bool}
use llm_endpoint.Config.{ReasoningMode, StructuredOutputMode}
use llm_endpoint.Telemetry.{TelemetryEvent}

pub data PolicyField : Type 0 where
  deadline_ms max_output_tokens reasoning_mode candidate_budget_ms candidate_budget_overrides_ms
        protect_last_eligible structured_output_mode retry_class max_attempts :
      PolicyField

-- `.value`
unfoldable pub policy_field_value : PolicyField → String
policy_field_value PolicyField.deadline_ms = "deadline_ms"
policy_field_value PolicyField.max_output_tokens = "max_output_tokens"
policy_field_value PolicyField.reasoning_mode = "reasoning_mode"
policy_field_value PolicyField.candidate_budget_ms = "candidate_budget_ms"
policy_field_value PolicyField.candidate_budget_overrides_ms = "candidate_budget_overrides_ms"
policy_field_value PolicyField.protect_last_eligible = "protect_last_eligible"
policy_field_value PolicyField.structured_output_mode = "structured_output_mode"
policy_field_value PolicyField.retry_class = "retry_class"
policy_field_value PolicyField.max_attempts = "max_attempts"

pub data PolicySource : Type 0 where
  policy caller_override derived not_set : PolicySource

-- `.value`
unfoldable pub policy_source_value : PolicySource → String
policy_source_value PolicySource.policy = "policy"
policy_source_value PolicySource.caller_override = "caller_override"
policy_source_value PolicySource.derived = "derived"
policy_source_value PolicySource.not_set = "not_set"

pub record CallerPolicyOverrides : Type 0 where
  pub deadline_ms : Option ℤ
  pub max_output_tokens : Option ℤ
  pub reasoning_mode : Option ReasoningMode
  pub candidate_budget_ms : Option ℤ

pub record EffectiveRuntimeConfig : Type 0 where
  pub deadline_ms : ℤ
  pub max_output_tokens : ℤ
  pub reasoning_mode : ReasoningMode
  pub candidate_budget_ms : ℤ
  pub candidate_budget_overrides_ms : Option (Dict Value)
  pub protect_last_eligible : Bool
  pub structured_output_mode : StructuredOutputMode
  pub retry_class : String
  pub max_attempts : ℤ

pub record PolicyResolution : Type 0 where
  pub role : String
  pub operation_ref : String
  pub endpoint_uids : List String
  pub effective_config : EffectiveRuntimeConfig
  pub provenance : Dict PolicySource
  pub policy_fingerprint : String
  pub config_identity : String
  pub telemetry : TelemetryEvent

-- A budget as a number. `bool` is a subclass of `int`; a plan's budgets are integers, so no other value
-- comes this far.
unfoldable pub budget_number : Value → Result ℤ
budget_number (int n) = ok n
budget_number (bool true) = ok (pos 1)
budget_number (bool false) = ok (pos 0)
budget_number _ = raise (Error.type_error "budget is not an integer")
