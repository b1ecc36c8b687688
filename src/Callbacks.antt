-- ===== src/Callbacks.antt =====
-- callbacks.py: what a host's resolvers of secrets and of schemas answer.
use llm_endpoint.Prelude.{
  String, Bool, true, false, Option, none, some, [], ◌∷◌, ◌&&◌, not, is_empty, is_none, is_some,
  value_or, if◌then◌else◌,
}
use llm_endpoint.Prelude.Text.{truthy}
use llm_endpoint.Prelude.Dict.{update}
use llm_endpoint.Prelude.Outcome.{Result, ok, raise, Error, require, Call, ◌>>=◌, ◌>>◌}
use text.Mathlib.Text.{starts_with}
use llm_endpoint.Values.{Fields, fields}
use llm_endpoint.Results.{
  FailureCode, SafeDiagnostics, TypedFailure, failure_with_hint, for_invocation,
}

pub data SecretResolutionStatus : Type 0 where
  resolved missing failed : SecretResolutionStatus

-- `.value`
unfoldable pub secret_status_value : SecretResolutionStatus → String
secret_status_value SecretResolutionStatus.resolved = "resolved"
secret_status_value SecretResolutionStatus.missing = "missing"
secret_status_value SecretResolutionStatus.failed = "failed"

pub data SchemaResolutionStatus : Type 0 where
  resolved not_found failed : SchemaResolutionStatus

-- `.value`
unfoldable pub schema_status_value : SchemaResolutionStatus → String
schema_status_value SchemaResolutionStatus.resolved = "resolved"
schema_status_value SchemaResolutionStatus.not_found = "not_found"
schema_status_value SchemaResolutionStatus.failed = "failed"

pub record SecretValue : Type 0 where
  pub ref : String
  pub value : String

pub record SecretResolution : Type 0 where
  pub ref : String
  pub status : SecretResolutionStatus
  pub secret : Option SecretValue
  pub diagnostics : Option SafeDiagnostics

abbrev pub is_secret_resolved : SecretResolutionStatus → Bool
is_secret_resolved SecretResolutionStatus.resolved = true
is_secret_resolved _ = false

-- `SecretValue(…)`
unfoldable pub secret_value : String → String → Result SecretValue
secret_value ref value = do
  require (truthy ref) (Error.value_error "secret ref is required")
  require (truthy value) (Error.value_error "secret value is required")
  ok (record { ref = ref; value = value })

-- `SecretResolution(…)`
unfoldable pub secret_resolution : SecretResolution → Result SecretResolution
secret_resolution r = do
  require (truthy r.ref) (Error.value_error "secret ref is required")
  require (not (is_secret_resolved r.status && is_none r.secret))
      (Error.value_error "resolved secret status requires a SecretValue")
  require (not (not (is_secret_resolved r.status) && is_some r.secret))
      (Error.value_error "unresolved secret status cannot carry a SecretValue")
  ok r

abbrev plain_diagnostics : String → SafeDiagnostics
plain_diagnostics message = record { message = message; remediation_hint = none; safe_context = [] }

-- `SecretResolution.to_failure`; both branches of its choice of a code are the same.
unfoldable pub secret_failure : SecretResolution → String → Option String → Result TypedFailure
unfolding update
secret_failure r invocation_id endpoint_uid =
    let diagnostics = value_or r.diagnostics (plain_diagnostics "secret resolution failed") in
    if is_secret_resolved r.status
    then raise (Error.value_error "resolved secrets do not produce failures")
    else ok (
        failure_with_hint FailureCode.credential_unavailable diagnostics.message
          diagnostics.remediation_hint
          (record (for_invocation invocation_id) { endpoint_uid = endpoint_uid })
          (update (("secret_ref", r.ref) ∷ []) diagnostics.safe_context))

-- `validate` is the host's validator, a function of the payload.
pub record SchemaContract : Type 0 where
  pub ref : String
  pub name : String
  pub version : String
  pub fingerprint : String
  pub json_schema : Fields
  pub validate : Option (Fields → Call Bool)

is_no_field : Fields → Bool
is_no_field fs = is_empty (fields fs)

-- `SchemaContract(…)`
unfoldable pub schema_contract : SchemaContract → Result SchemaContract
unfolding is_no_field
schema_contract s = do
  require (truthy s.ref && (truthy s.name && truthy s.version))
      (Error.value_error "schema ref, name, and version are required")
  require (starts_with s.fingerprint "sha256:")
      (Error.value_error "schema fingerprint must use the sha256: prefix")
  require (not (is_no_field s.json_schema)) (Error.value_error "json_schema is required")
  ok s

pub record SchemaResolution : Type 0 where
  pub ref : String
  pub status : SchemaResolutionStatus
  pub schema : Option SchemaContract
  pub diagnostics : Option SafeDiagnostics

abbrev pub is_schema_resolved : SchemaResolutionStatus → Bool
is_schema_resolved SchemaResolutionStatus.resolved = true
is_schema_resolved _ = false

-- `SchemaResolution(…)`
unfoldable pub schema_resolution : SchemaResolution → Result SchemaResolution
schema_resolution r = do
  require (truthy r.ref) (Error.value_error "schema ref is required")
  require (not (is_schema_resolved r.status && is_none r.schema))
      (Error.value_error "resolved schema status requires a SchemaContract")
  require (not (not (is_schema_resolved r.status) && is_some r.schema))
      (Error.value_error "unresolved schema status cannot carry a SchemaContract")
  ok r

-- `SchemaResolution.to_failure`
unfoldable pub schema_failure : SchemaResolution → String → Option String → Result TypedFailure
unfolding update schema_status_value
schema_failure r invocation_id operation_ref =
    let diagnostics = value_or r.diagnostics (plain_diagnostics "schema resolution failed") in
    if is_schema_resolved r.status
    then raise (Error.value_error "resolved schemas do not produce failures")
    else ok (
        failure_with_hint FailureCode.unknown_schema_contract diagnostics.message
          diagnostics.remediation_hint
          (record (for_invocation invocation_id) {
            operation_ref = operation_ref;
            schema_contract_ref = some r.ref;
            schema_resolution_status = some (schema_status_value r.status);
          })
          (update (("schema_ref", r.ref) ∷ []) diagnostics.safe_context))

-- `resolved_secret`
unfoldable pub resolved_secret : String → String → Result SecretResolution
unfolding secret_value secret_resolution
resolved_secret ref value = do
  secret ← secret_value ref value
  secret_resolution (record {
    ref = ref;
    status = SecretResolutionStatus.resolved;
    secret = some secret;
    diagnostics = none;
  })

-- `missing_secret`
unfoldable pub missing_secret : String → String → Result SecretResolution
unfolding secret_resolution
missing_secret ref message = secret_resolution (record {
  ref = ref;
  status = SecretResolutionStatus.missing;
  secret = none;
  diagnostics = some (record {
    message = message;
    remediation_hint = none;
    safe_context = ("secret_ref", ref) ∷ [];
  });
})

-- `resolved_schema`, whose arguments are the fields of the contract
unfoldable pub resolved_schema : SchemaContract → Result SchemaResolution
unfolding schema_contract schema_resolution
resolved_schema s = do
  schema ← schema_contract s
  schema_resolution (record {
    ref = s.ref;
    status = SchemaResolutionStatus.resolved;
    schema = some schema;
    diagnostics = none;
  })

module _ (W : Type 0) where
  -- The host's callbacks may change the world `W`, and may raise.
  abbrev pub SecretResolver : Type 0
  SecretResolver = String → W → Call SecretResolution × W

  abbrev pub SchemaResolver : Type 0
  SchemaResolver = String → W → Call SchemaResolution × W
