-- ===== src/Router/Events/Made.antt =====
-- When the telemetry events of a cancellation can be built.
use llm_endpoint.Prelude.{◌≡◌, refl, true}
use llm_endpoint.Prelude.Text.{truthy}
use llm_endpoint.Prelude.Outcome.{ok}
use llm_endpoint.Results.{TypedFailure}
use llm_endpoint.Telemetry.{TelemetryEvent, forbidden_attribute_keys}
use llm_endpoint.Telemetry.Made.{telemetry_event-made}
use llm_endpoint.Router.Events.{cancellation_event, failure_event}

pub cancellation_event-made :
    (f : TypedFailure)
    → truthy f.context.operation_invocation_id ≡ true
    → (e : TelemetryEvent) × (cancellation_event f ≡ ok e)
unfolding cancellation_event forbidden_attribute_keys
cancellation_event-made f h = telemetry_event-made _ _ _ _ _ h refl

pub failure_event-made :
    (f : TypedFailure)
    → truthy f.context.operation_invocation_id ≡ true
    → (e : TelemetryEvent) × (failure_event f ≡ ok e)
unfolding failure_event forbidden_attribute_keys
failure_event-made f h = telemetry_event-made _ _ _ _ _ h refl
