-- ===== src/Config/Building.antt =====
-- config.py: `Registry`, `build_registry` and `resolve_role`.
pub mod Index
pub mod Built
use Prim.Native.String.{◌++◌ as ◌+++◌}
use llm_endpoint.Prelude.{
  String, Bool, true, false, Option, none, some, List, [], ◌∷◌, if◌then◌else◌,
}
use llm_endpoint.Prelude.Dict.{Dict, lookup, insert}
use llm_endpoint.Prelude.Outcome.{Result, ok, raise, Error, ◌>>=◌}
use llm_endpoint.Platform.{Platform}
use llm_endpoint.Config.{
  LlmEndpointConfig, EndpointConfig, RoleConfig, OperationConfig, OperationRuntimePolicy,
  ResolvedRole, Registry,
}
use llm_endpoint.Capabilities.{CapabilityCatalog}
use llm_endpoint.Config.Errors.{ConfigValidationError, ConfigValidationReport, config_error_value}
use llm_endpoint.Config.Validation.{validate_config}

-- the endpoints of a role that is in the registry
role_endpoints : RoleConfig → Option (List String)
role_endpoints role = elim role.endpoint_uid [ some uid ↦ some (uid ∷ []) | none ↦ role.pool ]

-- `Registry.resolve_role`
unfoldable pub resolve_role : Registry → String → Result ResolvedRole
unfolding lookup role_endpoints
resolve_role r role_name = elim (lookup role_name r.roles_by_name) [
  | none ↦ raise (Error.key_error ("unknown role: " +++ role_name))
  | some role ↦ elim (role_endpoints role) [
    | none ↦ raise (Error.value_error ("role has no endpoint resolution: " +++ role_name))
    | some uids ↦
        ok (record { name = role.name; endpoint_uids = uids; config_identity = r.config_identity })
  ]
]

-- `Registry.resolve_operation_policy`
unfoldable pub resolve_operation_policy : Registry → String → Result OperationRuntimePolicy
unfolding lookup
resolve_operation_policy r operation_ref = elim (lookup operation_ref r.operations_by_ref) [
  | none ↦ raise (Error.key_error ("unknown operation: " +++ operation_ref))
  | some operation ↦ elim (lookup operation.policy_ref r.policies_by_ref) [
    | none ↦ raise (Error.key_error operation.policy_ref)
    | some policy ↦ ok policy
  ]
]

-- `{key(item): item for item in items}`
unfoldable pub index_by : {A : Type 0} → (A → String) → List A → Dict A → Dict A
unfolding insert
index_by key [] d = d
index_by key (item ∷ items) d = index_by key items (insert (key item) item d)

-- `", ".join(error.code.value for error in errors)`
joined_codes : List ConfigValidationError → String
unfolding config_error_value
joined_codes [] = ""
joined_codes (e ∷ []) = config_error_value e.code
joined_codes (e ∷ f ∷ es) = config_error_value e.code +++ (", " +++ joined_codes (f ∷ es))

pub registry_of : LlmEndpointConfig → String → Registry
unfolding index_by
registry_of c identity = record {
  config = c;
  config_identity = identity;
  endpoints_by_uid = index_by (λ (e : EndpointConfig). e.uid) c.endpoints [];
  roles_by_name = index_by (λ (r : RoleConfig). r.name) c.roles [];
  operations_by_ref = index_by (λ (o : OperationConfig). o.ref) c.operations [];
  policies_by_ref = index_by (λ (p : OperationRuntimePolicy). p.ref) c.policies [];
}

invalid_config : ConfigValidationReport → Result Registry
unfolding joined_codes
invalid_config report =
    raise
      (Error.value_error ("invalid config cannot build registry: " +++ joined_codes report.errors))

from_report : LlmEndpointConfig → ConfigValidationReport → Result Registry
unfolding invalid_config registry_of
from_report c report = elim report.ok [
  | false ↦ invalid_config report
  | true ↦ elim report.config_identity [
    | none ↦ invalid_config report
    | some identity ↦ ok (registry_of c identity)
  ]
]

module _ (platform : Platform) where
  unfoldable pub build_registry : LlmEndpointConfig → Option CapabilityCatalog → Result Registry
  unfolding validate_config from_report
  build_registry c catalog = from_report c (validate_config platform c catalog)

  -- the function `resolve_role`
  unfoldable pub resolve_config_role : LlmEndpointConfig → String → Result ResolvedRole
  unfolding build_registry resolve_role
  resolve_config_role c role_name = build_registry c none >>= λ r. resolve_role r role_name
