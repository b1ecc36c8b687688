-- ===== src/Telemetry.antt =====
-- telemetry.py: redacted events, and the emitter that records them and hands them to a host's sink.
-- `W` is the state of the world outside the package, which a sink may change.
pub mod Emission
pub mod Emitting
pub mod Growth
pub mod Made
use llm_endpoint.Prelude.{
  ℕ, String, Bool, false, Option, none, some, List, [], ◌∷◌, ◌++◌, ◌||◌, any, contains, is_empty,
  if◌then◌else◌,
}
use llm_endpoint.Prelude.Int.{ℤ, pos, ltb_ℤ}
use llm_endpoint.Prelude.Text.{truthy, lower, dashes_to_underscores, split_dots}
use llm_endpoint.Prelude.Dict.{Dict, keys}
use llm_endpoint.Prelude.Outcome.{Result, ok, raise, Error, require, Call, returned, raised, ◌>>◌}
use llm_endpoint.Results.{FailureClass}

pub data TelemetryEventFamily : Type 0 where
  registry_validated policy_resolved role_health pool_attempt success failure pool_exhausted
        deadline_exceeded cancellation late_response_discarded endpoint_suppressed budget_violation
        smoke_result fake_provider_result :
      TelemetryEventFamily

-- `.value`
unfoldable pub family_value : TelemetryEventFamily → String
family_value TelemetryEventFamily.registry_validated = "llm.registry.validated"
family_value TelemetryEventFamily.policy_resolved = "llm.policy.resolved"
family_value TelemetryEventFamily.role_health = "llm.role.health"
family_value TelemetryEventFamily.pool_attempt = "llm.pool.attempt"
family_value TelemetryEventFamily.success = "llm.success"
family_value TelemetryEventFamily.failure = "llm.failure"
family_value TelemetryEventFamily.pool_exhausted = "llm.pool.exhausted"
family_value TelemetryEventFamily.deadline_exceeded = "llm.deadline.exceeded"
family_value TelemetryEventFamily.cancellation = "llm.cancellation"
family_value TelemetryEventFamily.late_response_discarded = "llm.late_response.discarded"
family_value TelemetryEventFamily.endpoint_suppressed = "llm.endpoint.suppressed"
family_value TelemetryEventFamily.budget_violation = "llm.budget.violation"
family_value TelemetryEventFamily.smoke_result = "llm.smoke.result"
family_value TelemetryEventFamily.fake_provider_result = "llm.fake_provider.result"

pub data RedactionStatus : Type 0 where
  redacted not_applicable : RedactionStatus

abbrev pub forbidden_telemetry_fields : List String
forbidden_telemetry_fields =
    "api_key" ∷ "authorization" ∷ "body" ∷ "credential" ∷ "headers" ∷ "message" ∷ "messages"
    ∷ "prompt" ∷ "prompts" ∷ "raw_request" ∷ "raw_response" ∷ "response" ∷ "secret" ∷ []

pub record TokenUsage : Type 0 where
  pub input_tokens : Option ℤ
  pub output_tokens : Option ℤ
  pub total_tokens : Option ℤ

negative : Option ℤ → Bool
negative none = false
negative (some n) = ltb_ℤ n (pos 0)

-- `TokenUsage(…)`
unfoldable pub token_usage : Option ℤ → Option ℤ → Option ℤ → Result TokenUsage
unfolding negative
token_usage input output total =
    if negative input || (negative output || negative total)
    then raise (Error.value_error "token usage values must be omitted or non-negative")
    else ok (record { input_tokens = input; output_tokens = output; total_tokens = total })

pub record TelemetryContext : Type 0 where
  pub operation_invocation_id : String
  pub role : Option String
  pub operation_ref : Option String
  pub endpoint_uid : Option String
  pub attempt_trace_id : Option String
  pub schema_contract_ref : Option String
  pub schema_fingerprint : Option String
  pub schema_resolution_status : Option String
  pub policy_fingerprint : Option String
  pub elapsed_ms : Option ℕ
  pub failure_class : Option FailureClass

pub record TelemetryEvent : Type 0 where
  pub family : TelemetryEventFamily
  pub context : TelemetryContext
  pub attributes : Dict String
  pub token_usage : Option TokenUsage
  pub redaction_status : RedactionStatus

-- `FORBIDDEN_TELEMETRY_FIELDS` holds the key in lower case, or a segment of it.
unfoldable pub is_forbidden_key : String → Bool
unfolding lower dashes_to_underscores split_dots
is_forbidden_key key =
    contains (lower key) forbidden_telemetry_fields
    || any (λ segment. contains (lower segment) forbidden_telemetry_fields)
        (split_dots (dashes_to_underscores key))

unsafe_keys : List String → List String
unsafe_keys [] = []
unsafe_keys (key ∷ rest) = if is_forbidden_key key then key ∷ unsafe_keys rest else unsafe_keys rest

unfoldable pub forbidden_attribute_keys : Dict String → List String
unfolding unsafe_keys is_forbidden_key
forbidden_attribute_keys attributes = unsafe_keys (keys attributes)

-- `TelemetryEvent(…)`: the checks of `__post_init__` on the attributes
unfoldable pub checked_event : TelemetryEvent → Result TelemetryEvent
unfolding forbidden_attribute_keys
checked_event event =
    if is_empty (forbidden_attribute_keys event.attributes)
    then ok event
    else raise (Error.value_error "telemetry attributes contain forbidden fields")

-- The context is built, and checked, before the event.
unfoldable pub telemetry_event :
    TelemetryEventFamily
    → TelemetryContext
    → Dict String
    → Option TokenUsage
    → RedactionStatus
    → Result TelemetryEvent
unfolding checked_event
telemetry_event family context attributes token_usage redaction_status = do
  require (truthy context.operation_invocation_id)
      (Error.value_error "operation_invocation_id is required")
  checked_event (record {
    family = family;
    context = context;
    attributes = attributes;
    token_usage = token_usage;
    redaction_status = redaction_status;
  })

-- The context of a `telemetry_event` call that names the invocation alone; calls give the other fields anew.
abbrev pub event_context : String → TelemetryContext
event_context id = record {
  operation_invocation_id = id;
  role = none;
  operation_ref = none;
  endpoint_uid = none;
  attempt_trace_id = none;
  schema_contract_ref = none;
  schema_fingerprint = none;
  schema_resolution_status = none;
  policy_fingerprint = none;
  elapsed_ms = none;
  failure_class = none;
}

module _ (W : Type 0) where
  abbrev pub TelemetrySink : Type 0
  TelemetrySink = TelemetryEvent → W → Call (Unit {0}) × W

  pub record TelemetryEmitter : Type 0 where
    pub sink : Option TelemetrySink
    pub captured_events : List TelemetryEvent
    pub sink_failures : List String

module _ {W : Type 0} where
  note_failure : Call (Unit {0}) → TelemetryEmitter W → TelemetryEmitter W
  note_failure (returned _) emitter = emitter
  note_failure (raised name) emitter = record emitter {
    sink_failures = emitter.sink_failures ++ name ∷ [];
  }

  forward :
      Option (TelemetrySink W) → TelemetryEvent → TelemetryEmitter W → W → TelemetryEmitter W × W
  forward none event emitter w = (emitter, w)
  forward (some sink) event emitter w =
      let (answer, w') = sink event w in (note_failure answer emitter, w')

  -- The event is captured first; an exception of the sink is noted, and goes no further.
  unfoldable pub emit : TelemetryEvent → TelemetryEmitter W → W → TelemetryEmitter W × W
  unfolding forward note_failure
  emit event emitter w =
      forward emitter.sink event
        (record emitter { captured_events = emitter.captured_events ++ event ∷ [] }) w

  unfoldable pub emit_all : List TelemetryEvent → TelemetryEmitter W → W → TelemetryEmitter W × W
  unfolding emit
  emit_all [] emitter w = (emitter, w)
  emit_all (event ∷ events) emitter w =
      let (emitter', w') = emit event emitter w in emit_all events emitter' w'
