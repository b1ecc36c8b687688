-- ===== src/Telemetry/Made.antt =====
-- When a telemetry event can be built.
use llm_endpoint.Prelude.{String, ◌≡◌, refl, true, Option, is_empty}
use llm_endpoint.Prelude.Text.{truthy}
use llm_endpoint.Prelude.Dict.{Dict}
use llm_endpoint.Prelude.Outcome.{ok}
use llm_endpoint.Telemetry.{
  TelemetryEvent, TelemetryEventFamily, TelemetryContext, TokenUsage, RedactionStatus,
  telemetry_event, forbidden_attribute_keys,
}

-- An event is built where the invocation has an identifier and no attribute is forbidden.
pub telemetry_event-made :
    (family : TelemetryEventFamily) (context : TelemetryContext) (attributes : Dict String)
    (usage : Option TokenUsage) (status : RedactionStatus)
    → truthy context.operation_invocation_id ≡ true
    → is_empty (forbidden_attribute_keys attributes) ≡ true
    → (e : TelemetryEvent) × (telemetry_event family context attributes usage status ≡ ok e)
unfolding telemetry_event
telemetry_event-made family context attributes usage status h k = (
  record {
    family = family;
    context = context;
    attributes = attributes;
    token_usage = usage;
    redaction_status = status;
  },
  rw (h, k) refl,
)
