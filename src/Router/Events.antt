-- ===== src/Router/Events.antt =====
-- router.py: the telemetry events of routing.
pub mod Made
use llm_endpoint.Prelude.{String, Option, none, some, List, [], ◌∷◌, value_or}
use llm_endpoint.Prelude.Int.{pos}
use llm_endpoint.Prelude.Text.{nat_str, int_str, bool_str, or_else}
use llm_endpoint.Prelude.Dict.{Dict}
use llm_endpoint.Prelude.Outcome.{Result}
use llm_endpoint.Results.{
  TypedFailure, StructuredResult, PlainTextResult, failure_code_value, retryability_value,
}
use llm_endpoint.Callbacks.{SchemaResolutionStatus, schema_status_value}
use llm_endpoint.Telemetry.{
  TelemetryEvent, TelemetryEventFamily, TelemetryContext, TokenUsage, RedactionStatus,
  telemetry_event, event_context,
}
use llm_endpoint.Config.{output_mode_value}
use llm_endpoint.Adapters.Execution.{AttemptOutput, outcome, failed}
use llm_endpoint.Invocation.{InvocationPlan}
use llm_endpoint.Router.{AttemptTrace, attempt_status_value, attempt_count, skipped_count}

abbrev pub router_version : String × String
router_version = ("router_version", "v1")

-- an event of this module: redacted, like all
abbrev event :
    TelemetryEventFamily
    → TelemetryContext
    → Dict String
    → Option TokenUsage
    → Result TelemetryEvent
event family context attributes usage =
    telemetry_event family context attributes usage RedactionStatus.redacted

abbrev output_usage : AttemptOutput → Option TokenUsage
output_usage (outcome o) = o.token_usage
output_usage (failed f) = none

-- the context of the events that report a failure
abbrev failure_event_context : TypedFailure → TelemetryContext
failure_event_context f = record {
  operation_invocation_id = f.context.operation_invocation_id;
  role = f.context.role;
  operation_ref = f.context.operation_ref;
  endpoint_uid = f.context.endpoint_uid;
  attempt_trace_id = f.context.attempt_trace;
  schema_contract_ref = f.context.schema_contract_ref;
  schema_fingerprint = f.context.schema_fingerprint;
  schema_resolution_status = f.context.schema_resolution_status;
  policy_fingerprint = f.context.policy_fingerprint;
  elapsed_ms = f.context.elapsed_ms;
  failure_class = f.failure_class;
}

unfoldable pub cancellation_event : TypedFailure → Result TelemetryEvent
unfolding failure_code_value
cancellation_event f =
    event TelemetryEventFamily.cancellation (failure_event_context f)
      (("failure_code", failure_code_value f.code) ∷ router_version ∷ []) none

unfoldable pub deadline_event : TypedFailure → Result TelemetryEvent
unfolding failure_code_value
deadline_event f =
    event TelemetryEventFamily.deadline_exceeded (failure_event_context f)
      (("failure_code", failure_code_value f.code) ∷ router_version ∷ []) none

retryability_text : TypedFailure → String
unfolding retryability_value
retryability_text f = elim f.retryability [ none ↦ "unknown" | some r ↦ retryability_value r ]

unfoldable pub failure_event : TypedFailure → Result TelemetryEvent
unfolding failure_code_value retryability_text
failure_event f =
    event TelemetryEventFamily.failure (failure_event_context f)
      (("failure_code", failure_code_value f.code)
        ∷ ("retryability", retryability_text f)
        ∷ router_version
        ∷ [])
      none

abbrev budget_text : AttemptTrace → String
budget_text trace = int_str (value_or trace.candidate_budget_ms (pos 0))

module _ {W : Type 0} where
  abbrev plan_event_context : InvocationPlan W → TelemetryContext
  plan_event_context plan = record (event_context plan.operation_invocation_id) {
    role = some plan.role;
    operation_ref = some plan.operation_ref;
    policy_fingerprint = some plan.policy_fingerprint;
  }

  unfoldable pub attempt_event :
      InvocationPlan W → AttemptTrace → AttemptOutput → Result TelemetryEvent
  unfolding attempt_status_value int_str
  attempt_event plan trace output =
      event TelemetryEventFamily.pool_attempt
        (record (plan_event_context plan) {
          endpoint_uid = some trace.endpoint_uid;
          attempt_trace_id = some trace.trace_id;
          elapsed_ms = trace.elapsed_ms;
        })
        (("status", attempt_status_value trace.status)
          ∷ ("candidate_budget_ms", budget_text trace)
          ∷ ("suppression_protected", bool_str trace.suppression_protected)
          ∷ router_version
          ∷ [])
        (output_usage output)

  unfoldable pub suppression_event : InvocationPlan W → AttemptTrace → Result TelemetryEvent
  suppression_event plan trace =
      event TelemetryEventFamily.endpoint_suppressed
        (record (plan_event_context plan) {
          endpoint_uid = some trace.endpoint_uid;
          attempt_trace_id = some trace.trace_id;
        })
        (("skip_reason", or_else trace.skip_reason "suppressed") ∷ router_version ∷ []) none

  unfoldable pub late_response_event :
      InvocationPlan W → AttemptTrace → AttemptOutput → Result TelemetryEvent
  unfolding attempt_status_value int_str
  late_response_event plan trace output =
      event TelemetryEventFamily.late_response_discarded
        (record (plan_event_context plan) {
          endpoint_uid = some trace.endpoint_uid;
          attempt_trace_id = some trace.trace_id;
          schema_contract_ref = plan.schema_contract_ref;
          elapsed_ms = trace.elapsed_ms;
        })
        (("status", attempt_status_value trace.status)
          ∷ ("candidate_budget_ms", budget_text trace)
          ∷ router_version
          ∷ [])
        (output_usage output)

  -- `_success_event`, of plain text
  unfoldable pub text_success_event :
      InvocationPlan W → PlainTextResult → AttemptOutput → Result TelemetryEvent
  text_success_event plan r output =
      event TelemetryEventFamily.success
        (record (plan_event_context plan) {
          endpoint_uid = some r.endpoint_uid;
          elapsed_ms = some r.elapsed_ms;
        })
        (router_version ∷ []) (output_usage output)

  -- `_success_event`, of a structured result
  unfoldable pub structured_success_event :
      InvocationPlan W → StructuredResult → AttemptOutput → Result TelemetryEvent
  unfolding schema_status_value output_mode_value
  structured_success_event plan r output =
      event TelemetryEventFamily.success
        (record (plan_event_context plan) {
          endpoint_uid = some r.endpoint_uid;
          schema_contract_ref = plan.schema_contract_ref;
          schema_fingerprint = some r.schema_fingerprint;
          schema_resolution_status = some (schema_status_value SchemaResolutionStatus.resolved);
          elapsed_ms = some r.elapsed_ms;
        })
        (router_version
          ∷ ("schema_name", r.schema_name)
          ∷ ("schema_version", r.schema_version)
          ∷ ("schema_fingerprint", r.schema_fingerprint)
          ∷ ("structured_output_pipeline_version", "v1")
          ∷ (
            "structured_output_mode",
            output_mode_value plan.effective_config.structured_output_mode,
          )
          ∷ [])
        (output_usage output)

  -- the event that `route_invocation` builds in place, after the loop
  unfoldable pub pool_exhausted_event :
      InvocationPlan W → TypedFailure → List AttemptTrace → Result TelemetryEvent
  unfolding nat_str attempt_count skipped_count
  pool_exhausted_event plan f traces =
      event TelemetryEventFamily.pool_exhausted
        (record (plan_event_context plan) {
          schema_contract_ref = f.context.schema_contract_ref;
          schema_fingerprint = f.context.schema_fingerprint;
          schema_resolution_status = f.context.schema_resolution_status;
          failure_class = f.failure_class;
        })
        (("attempt_count", nat_str (attempt_count traces))
          ∷ ("skipped_count", nat_str (skipped_count traces))
          ∷ router_version
          ∷ [])
        none
