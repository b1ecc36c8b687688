-- ===== src/Config/Errors.antt =====
-- config.py: the errors of a configuration's validation.
use Prim.Native.String.{◌++◌}
use llm_endpoint.Prelude.{ℕ, String, Bool, Option, List, [], ◌∷◌, if◌then◌else◌}
use llm_endpoint.Prelude.Text.{nat_str}

pub data ConfigErrorCode : Type 0 where
  unsupported_config_version empty_endpoints empty_uid duplicate_uid empty_role duplicate_role
        unknown_endpoint_ref empty_pool duplicate_pool_member unknown_policy_ref
        duplicate_policy_ref empty_operation_ref duplicate_operation_ref invalid_deadline
        invalid_output_budget invalid_candidate_budget invalid_schema_ref invalid_credential_ref
        invalid_capability_ref unsupported_provider_format unsupported_model_family
        invalid_structured_output config_identity_not_found :
      ConfigErrorCode

-- `.value`
unfoldable pub config_error_value : ConfigErrorCode → String
config_error_value ConfigErrorCode.unsupported_config_version = "unsupported_config_version"
config_error_value ConfigErrorCode.empty_endpoints = "empty_endpoints"
config_error_value ConfigErrorCode.empty_uid = "empty_uid"
config_error_value ConfigErrorCode.duplicate_uid = "duplicate_uid"
config_error_value ConfigErrorCode.empty_role = "empty_role"
config_error_value ConfigErrorCode.duplicate_role = "duplicate_role"
config_error_value ConfigErrorCode.unknown_endpoint_ref = "unknown_endpoint_ref"
config_error_value ConfigErrorCode.empty_pool = "empty_pool"
config_error_value ConfigErrorCode.duplicate_pool_member = "duplicate_pool_member"
config_error_value ConfigErrorCode.unknown_policy_ref = "unknown_policy_ref"
config_error_value ConfigErrorCode.duplicate_policy_ref = "duplicate_policy_ref"
config_error_value ConfigErrorCode.empty_operation_ref = "empty_operation_ref"
config_error_value ConfigErrorCode.duplicate_operation_ref = "duplicate_operation_ref"
config_error_value ConfigErrorCode.invalid_deadline = "invalid_deadline"
config_error_value ConfigErrorCode.invalid_output_budget = "invalid_output_budget"
config_error_value ConfigErrorCode.invalid_candidate_budget = "invalid_candidate_budget"
config_error_value ConfigErrorCode.invalid_schema_ref = "invalid_schema_ref"
config_error_value ConfigErrorCode.invalid_credential_ref = "invalid_credential_ref"
config_error_value ConfigErrorCode.invalid_capability_ref = "invalid_capability_ref"
config_error_value ConfigErrorCode.unsupported_provider_format = "unsupported_provider_format"
config_error_value ConfigErrorCode.unsupported_model_family = "unsupported_model_family"
config_error_value ConfigErrorCode.invalid_structured_output = "invalid_structured_output"
config_error_value ConfigErrorCode.config_identity_not_found = "config_identity_not_found"

pub record ConfigValidationError : Type 0 where
  pub code : ConfigErrorCode
  pub path : String
  pub message : String

pub record ConfigValidationReport : Type 0 where
  pub ok : Bool
  pub config_identity : Option String
  pub errors : List ConfigValidationError

-- `_error`
abbrev pub error : ConfigErrorCode → String → String → ConfigValidationError
error code path message = record { code = code; path = path; message = message }

-- `if b: errors.append(_error(…))`, as the errors that are added
unfoldable pub error_if : Bool → ConfigErrorCode → String → String → List ConfigValidationError
error_if b code path message = if b then error code path message ∷ [] else []

-- `f"{name}[{index}]"`
unfoldable pub indexed : String → ℕ → String
unfolding nat_str
indexed name index = name ++ ("[" ++ (nat_str index ++ "]"))
