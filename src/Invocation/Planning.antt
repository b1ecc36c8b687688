-- ===== src/Invocation/Planning.antt =====
-- invocation.py: `invoke_plan`. A run without an emitter is one with a new emitter, which is empty. The
-- random number of a new invocation is a function of the world.
pub mod Growth
pub mod Accepted
pub mod Sound
pub mod Total
use Prim.Native.String.{◌++◌ as ◌+++◌}
use llm_endpoint.Prelude.{
  String, Bool, true, false, Option, none, some, List, [], ◌∷◌, length, value_or, if◌then◌else◌,
}
use llm_endpoint.Prelude.Text.{truthy_opt, nat_str, bool_str}
use llm_endpoint.Prelude.Outcome.{Result, ok, raise, Error}
use llm_endpoint.Platform.{Platform}
use llm_endpoint.Results.{
  FailureCode, TypedFailure, failure, failure_code_value, Retryability, retryability_value,
}
use llm_endpoint.Telemetry.{
  TelemetryEvent, TelemetryEventFamily, RedactionStatus, telemetry_event, event_context,
}
use llm_endpoint.Telemetry.Emitting.{Run, emit_events}
use llm_endpoint.Config.{LlmEndpointConfig, Registry}
use llm_endpoint.Config.Errors.{ConfigValidationReport}
use llm_endpoint.Config.Validation.{validate_config}
use llm_endpoint.Config.Building.{build_registry}
use llm_endpoint.Capabilities.{CapabilityCatalog}
use llm_endpoint.Policy.{CallerPolicyOverrides, PolicyResolution}
use llm_endpoint.Policy.Resolution.{PolicyAnswer, resolved, unresolved, resolve_policy}
use llm_endpoint.Invocation.{InvocationRequest, InvocationPlan, invocation_plan}
use llm_endpoint.Invocation.Requests.{
  Answer, accepted, refused, request_context, validate_request, request_overrides, schema_ref,
}

-- the event of `_emit_failure`
unfoldable pub refusal_event : TypedFailure → Result TelemetryEvent
unfolding failure_code_value retryability_value
refusal_event f = elim f.retryability [
  | none ↦ raise (Error.value_error "typed failures must carry retryability after normalization")
  | some retryability ↦
      telemetry_event TelemetryEventFamily.failure
        (record (event_context f.context.operation_invocation_id) {
          role = f.context.role;
          operation_ref = f.context.operation_ref;
          endpoint_uid = f.context.endpoint_uid;
          policy_fingerprint = f.context.policy_fingerprint;
          elapsed_ms = f.context.elapsed_ms;
          failure_class = f.failure_class;
        })
        (("failure_code", failure_code_value f.code)
          ∷ ("retryability", retryability_value retryability)
          ∷ [])
        none RedactionStatus.redacted
]

-- a plan or a failure, and what the run has changed
abbrev pub Planned : Type 0 → Type 0
Planned W = Result (Answer (InvocationPlan W)) × Run W

module _ {W : Type 0} where
  -- an answer, once its events are out
  pub answered : Answer (InvocationPlan W) → Result (Unit {0}) × Run W → Planned W
  answered a (ok _, r) = (ok a, r)
  answered a (raise e, r) = (raise e, r)

  -- `_emit_failure`, and the return of the failure
  unfoldable pub refuse : TypedFailure → Run W → Planned W
  unfolding refusal_event emit_events answered
  refuse f r = answered (refused f) (emit_events (refusal_event f ∷ []) r)

  -- `request.operation_invocation_id or _new_invocation_id()`
  unfoldable pub invocation_id_of : (W → String × W) → InvocationRequest W → Run W → String × Run W
  invocation_id_of new_uuid request r =
      if truthy_opt request.operation_invocation_id
      then (value_or request.operation_invocation_id "", r)
      else let (hex, w) = new_uuid r.world in ("inv-" +++ hex, record r { world = w })

module _ {W : Type 0} (platform : Platform) (catalog : CapabilityCatalog)
    (request : InvocationRequest W) (invocation_id : String) where
  -- the plan that is built at the end
  pub planned_with : PolicyResolution → Option String → Run W → Result (InvocationPlan W)
  unfolding invocation_plan
  planned_with resolution ref r = invocation_plan (record {
    operation_invocation_id = invocation_id;
    role = resolution.role;
    operation_ref = resolution.operation_ref;
    endpoint_uids = resolution.endpoint_uids;
    messages = request.messages;
    deadline_ms = request.deadline_ms;
    effective_config = resolution.effective_config;
    config_identity = resolution.config_identity;
    policy_fingerprint = resolution.policy_fingerprint;
    schema_contract_ref = ref;
    request_metadata = request.request_metadata;
    cancellation_token = request.cancellation_token;
    telemetry = r.emitter.captured_events;
  })

  finished : Result (InvocationPlan W) → Run W → Planned W
  finished (ok plan) r = (ok (accepted plan), r)
  finished (raise e) r = (raise e, r)

  -- from the schema's reference on
  with_schema_ref : PolicyResolution → Result (Answer (Option String)) → Run W → Planned W
  unfolding refuse planned_with finished
  with_schema_ref resolution (raise e) r = (raise e, r)
  with_schema_ref resolution (ok (refused f)) r = refuse f r
  with_schema_ref resolution (ok (accepted ref)) r = finished (planned_with resolution ref r) r

  -- once the event of the resolution is out
  emitted_resolution : Registry → PolicyResolution → Result (Unit {0}) × Run W → Planned W
  unfolding schema_ref with_schema_ref
  emitted_resolution registry resolution (raise e, r) = (raise e, r)
  emitted_resolution registry resolution (ok _, r) =
      with_schema_ref resolution (schema_ref request invocation_id registry resolution) r

  -- from the policy's resolution on
  with_resolution : Registry → Result PolicyAnswer → Run W → Planned W
  unfolding refuse emit_events emitted_resolution
  with_resolution registry (raise e) r = (raise e, r)
  with_resolution registry (ok (unresolved f)) r = refuse f r
  with_resolution registry (ok (resolved resolution)) r =
      emitted_resolution registry resolution (emit_events (ok resolution.telemetry ∷ []) r)

  -- from the overrides on
  with_overrides : Registry → Result (Answer CallerPolicyOverrides) → Run W → Planned W
  unfolding refuse with_resolution resolve_policy
  with_overrides registry (raise e) r = (raise e, r)
  with_overrides registry (ok (refused f)) r = refuse f r
  with_overrides registry (ok (accepted overrides)) r =
      with_resolution registry
        (resolve_policy platform request.role request.operation_ref invocation_id catalog none
          (some registry) (some overrides))
        r

  -- from the registry on
  unfoldable pub plan_in : Result Registry → Run W → Planned W
  unfolding with_overrides request_overrides
  plan_in (raise e) r = (raise e, r)
  plan_in (ok registry) r =
      with_overrides registry (request_overrides request invocation_id platform registry) r

  validated_event : ConfigValidationReport → Result TelemetryEvent
  unfolding nat_str
  validated_event report =
      telemetry_event TelemetryEventFamily.registry_validated
        (record (event_context invocation_id) {
          role = some request.role;
          operation_ref = some request.operation_ref;
        })
        (("ok", bool_str report.ok)
          ∷ ("error_count", nat_str (length report.errors))
          ∷ ("config_identity", value_or report.config_identity "")
          ∷ [])
        none RedactionStatus.redacted

  invalid_configuration : ConfigValidationReport → TypedFailure
  unfolding failure nat_str
  invalid_configuration report =
      failure FailureCode.invalid_endpoint_config "config validation failed"
        (request_context request invocation_id)
        (("error_count", nat_str (length report.errors)) ∷ [])

  -- what follows a report that is ok, and another
  after_report : LlmEndpointConfig → ConfigValidationReport → Bool → Run W → Planned W
  unfolding invalid_configuration refuse plan_in build_registry
  after_report c report true r = plan_in (build_registry platform c (some catalog)) r
  after_report c report false r = refuse (invalid_configuration report) r

  -- once the event of the validation is out
  emitted_validation :
      LlmEndpointConfig → ConfigValidationReport → Result (Unit {0}) × Run W → Planned W
  unfolding after_report
  emitted_validation c report (raise e, r) = (raise e, r)
  emitted_validation c report (ok _, r) = after_report c report report.ok r

  plan_config : LlmEndpointConfig → Run W → Planned W
  unfolding validate_config validated_event emit_events emitted_validation
  plan_config c r =
      let report = validate_config platform c (some catalog) in
      emitted_validation c report (emit_events (validated_event report ∷ []) r)

  missing_registry : TypedFailure
  unfolding failure
  missing_registry =
      failure FailureCode.invalid_endpoint_config "config or registry is required"
        (request_context request invocation_id) []

  -- the choice of a registry
  unfoldable pub plan_for : Option LlmEndpointConfig → Option Registry → Run W → Planned W
  unfolding plan_in plan_config refuse missing_registry
  plan_for config (some registry) r = plan_in (ok registry) r
  plan_for (some c) none r = plan_config c r
  plan_for none none r = refuse missing_registry r

  checked_request :
      Option LlmEndpointConfig → Option Registry → Option TypedFailure → Run W → Planned W
  unfolding refuse plan_for
  checked_request config registry (some f) r = refuse f r
  checked_request config registry none r = plan_for config registry r

  -- `invoke_plan`, from the invocation's id on
  unfoldable pub plan_invocation : Option LlmEndpointConfig → Option Registry → Run W → Planned W
  unfolding validate_request checked_request
  plan_invocation config registry r =
      checked_request config registry (validate_request request invocation_id) r

module _ {W : Type 0} (platform : Platform) (new_uuid : W → String × W) where
  unfoldable pub invoke_plan :
      InvocationRequest W
      → Option LlmEndpointConfig
      → Option Registry
      → CapabilityCatalog
      → Run W
      → Planned W
  unfolding invocation_id_of plan_invocation
  invoke_plan request config registry catalog r =
      let (invocation_id, r') = invocation_id_of new_uuid request r in
      plan_invocation platform catalog request invocation_id config registry r'
