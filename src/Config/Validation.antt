-- ===== src/Config/Validation.antt =====
-- config.py: `validate_config`.
pub mod Endpoints
pub mod Roles
pub mod Policies
pub mod Operations
pub mod Decides
use llm_endpoint.Prelude.{
  String, Bool, true, false, Option, none, some, List, [], ◌∷◌, ◌++◌, not, map, is_empty, value_or,
  ◌==◌, if◌then◌else◌,
}
use llm_endpoint.Platform.{Platform}
use llm_endpoint.Config.{
  LlmEndpointConfig, EndpointConfig, RoleConfig, OperationConfig, OperationRuntimePolicy,
}
use llm_endpoint.Capabilities.{CapabilityCatalog, default_catalog}
use llm_endpoint.Config.Errors.{
  ConfigErrorCode, ConfigValidationError, ConfigValidationReport, error_if,
}
use llm_endpoint.Config.Names.{add_names}
use llm_endpoint.Config.Identity.{config_identity}
use llm_endpoint.Config.Validation.Endpoints.{endpoints_errors}
use llm_endpoint.Config.Validation.Roles.{roles_errors}
use llm_endpoint.Config.Validation.Policies.{policies_errors}
use llm_endpoint.Config.Validation.Operations.{operations_errors}

-- the names that the loops have seen at their ends
abbrev pub endpoint_uids : LlmEndpointConfig → List String
endpoint_uids c = add_names (map (λ (e : EndpointConfig). e.uid) c.endpoints) []

abbrev pub policy_refs : LlmEndpointConfig → List String
policy_refs c = add_names (map (λ (p : OperationRuntimePolicy). p.ref) c.policies) []

-- the errors before the loops
pub shape_errors : LlmEndpointConfig → List ConfigValidationError
unfolding error_if
shape_errors c =
    error_if (not (c.config_schema_version == "v1")) ConfigErrorCode.unsupported_config_version
      "config_schema_version" "only config_schema_version 'v1' is supported under Zero BC policy"
    ++ error_if (is_empty c.endpoints) ConfigErrorCode.empty_endpoints "endpoints"
        "at least one endpoint is required"

module _ (platform : Platform) where
  -- the errors in their order
  pub config_errors : CapabilityCatalog → LlmEndpointConfig → List ConfigValidationError
  unfolding shape_errors endpoints_errors roles_errors policies_errors operations_errors add_names
  config_errors catalog c =
      shape_errors c
      ++ (endpoints_errors catalog 0 [] c.endpoints
          ++ (roles_errors (endpoint_uids c) 0 [] c.roles
              ++ (policies_errors platform 0 [] c.policies
                  ++ operations_errors (policy_refs c) 0 [] c.operations)))

  report_of : String → List ConfigValidationError → ConfigValidationReport
  report_of identity [] = record { ok = true; config_identity = some identity; errors = [] }
  report_of identity (e ∷ es) = record { ok = false; config_identity = none; errors = e ∷ es }

  -- `validate_config`
  unfoldable pub validate_config :
      LlmEndpointConfig → Option CapabilityCatalog → ConfigValidationReport
  unfolding config_errors config_identity report_of
  validate_config c catalog =
      report_of (config_identity platform c) (config_errors (value_or catalog default_catalog) c)
