-- ===== src/Samples/Plans.antt =====
-- A policy's resolution and a plan on the sample registry.
use llm_endpoint.Prelude.{◌≡◌, refl, ℕ, suc, String, true, none, some, [], ◌∷◌}
use llm_endpoint.Prelude.Int.{pos}
use llm_endpoint.Prelude.Dict.{lookup}
use llm_endpoint.Prelude.Outcome.{ok}
use llm_endpoint.Values.{str, mapping, field, end}
use llm_endpoint.Capabilities.{default_catalog}
use llm_endpoint.Telemetry.{
  TelemetryEvent, TelemetryEventFamily, RedactionStatus, event_context, telemetry_event,
}
use llm_endpoint.Telemetry.Emitting.{Run}
use llm_endpoint.Telemetry.Growth.{Grows}
use llm_endpoint.Policy.{CallerPolicyOverrides, PolicyResolution, PolicySource}
use llm_endpoint.Policy.Effective.{no_overrides}
use llm_endpoint.Policy.Resolution.{resolved, resolve_in}
use llm_endpoint.Policy.Resolution.Resolved.{IsResolution, resolve_in-IsResolution}
use llm_endpoint.Invocation.{InvocationRequest, InvocationPlan}
use llm_endpoint.Invocation.Requests.{accepted}
use llm_endpoint.Invocation.Planning.{invoke_plan}
use llm_endpoint.Invocation.Planning.Growth.{invoke_plan-Grows}
use llm_endpoint.Invocation.Planning.Sound.{IsPlan, invoke_plan-IsPlan}
use llm_endpoint.Config.Building.Built.{build_registry-IsClosed}
use llm_endpoint.Invocation.Planning.Total.{Returns, invoke_plan-Returns}
use llm_endpoint.Samples.Configs.{built_first, platform, registry_at, config_of, standard}

-- half of the policy's deadline
abbrev half_time : CallerPolicyOverrides
half_time = record no_overrides { deadline_ms = some (pos 500) }

abbrev resolved_event : TelemetryEvent
resolved_event = record {
  family = TelemetryEventFamily.policy_resolved;
  context = record (event_context "op-1") {
    role = some "writer";
    operation_ref = some "summary";
    policy_fingerprint = some "sha256:policy";
  };
  attributes =
      ("config_identity", "sha256:1")
      ∷ ("candidate_budget_overrides_count", "0")
      ∷ ("endpoint_count", "2")
      ∷ ("policy_resolver_version", "v1")
      ∷ [];
  token_usage = none;
  redaction_status = RedactionStatus.redacted;
}

abbrev half_resolution : PolicyResolution
half_resolution = record {
  role = "writer";
  operation_ref = "summary";
  endpoint_uids = "a" ∷ "b" ∷ [];
  effective_config = record {
    deadline_ms = pos 500;
    max_output_tokens = pos 100;
    reasoning_mode = standard.reasoning_mode;
    candidate_budget_ms = pos 400;
    candidate_budget_overrides_ms = none;
    protect_last_eligible = true;
    structured_output_mode = standard.structured_output_mode;
    retry_class = "retryable_availability_only";
    max_attempts = pos 2;
  };
  provenance =
      ("deadline_ms", PolicySource.caller_override)
      ∷ ("max_output_tokens", PolicySource.policy)
      ∷ ("reasoning_mode", PolicySource.policy)
      ∷ ("candidate_budget_ms", PolicySource.policy)
      ∷ ("candidate_budget_overrides_ms", PolicySource.not_set)
      ∷ ("protect_last_eligible", PolicySource.policy)
      ∷ ("structured_output_mode", PolicySource.policy)
      ∷ ("retry_class", PolicySource.policy)
      ∷ ("max_attempts", PolicySource.policy)
      ∷ [];
  policy_fingerprint = "sha256:policy";
  config_identity = "sha256:1";
  telemetry = resolved_event;
}

resolves :
    resolve_in platform "writer" "summary" "op-1" default_catalog (registry_at "1") (some half_time)
    ≡ ok (resolved half_resolution)
unfolding resolve_in lookup telemetry_event
resolves = refl

resolve_in-IsResolution_example :
    IsResolution platform "writer" "summary" "op-1" default_catalog
      (registry_at "1")
      half_time
      half_resolution
resolve_in-IsResolution_example =
    resolve_in-IsResolution platform "writer" "summary" "op-1" default_catalog (registry_at "1")
      (some half_time) half_resolution resolves

abbrev request : InvocationRequest ℕ
request = record {
  role = "writer";
  operation_ref = "summary";
  messages = mapping (field "role" (str "user") (field "content" (str "hello") end)) ∷ [];
  deadline_ms = pos 500;
  schema_contract_ref = none;
  caller_overrides = none;
  request_metadata = [];
  operation_invocation_id = some "op-1";
  cancellation_token = none;
}

abbrev new_uuid : ℕ → String × ℕ
new_uuid n = ("0", suc n)

abbrev new_run : Run ℕ
new_run = record {
  emitter = record { sink = none; captured_events = []; sink_failures = [] };
  world = 0;
}

abbrev planned : InvocationPlan ℕ
planned = record {
  operation_invocation_id = "op-1";
  role = "writer";
  operation_ref = "summary";
  endpoint_uids = "a" ∷ "b" ∷ [];
  messages = request.messages;
  deadline_ms = pos 500;
  effective_config = half_resolution.effective_config;
  config_identity = "sha256:1";
  policy_fingerprint = "sha256:policy";
  schema_contract_ref = none;
  request_metadata = [];
  cancellation_token = none;
  telemetry = resolved_event ∷ [];
}

abbrev after_planning : Run ℕ
after_planning = record {
  emitter = record { sink = none; captured_events = resolved_event ∷ []; sink_failures = [] };
  world = 0;
}

plans :
    invoke_plan platform new_uuid request none (some (registry_at "1")) default_catalog new_run
    ≡ (ok (accepted planned), after_planning)
unfolding invoke_plan lookup telemetry_event
plans = refl

invoke_plan-IsPlan_example :
    IsPlan platform default_catalog request none (some (registry_at "1")) planned after_planning
invoke_plan-IsPlan_example =
    invoke_plan-IsPlan platform new_uuid request none (some (registry_at "1")) default_catalog
      new_run after_planning planned plans

invoke_plan-Grows_example :
    Grows new_run.emitter
      (invoke_plan platform new_uuid request
        (some (config_of "1"))
        none
        default_catalog
        new_run).1.emitter
invoke_plan-Grows_example =
    invoke_plan-Grows platform new_uuid request (some (config_of "1")) none default_catalog new_run

-- The registry that is built from the configuration, and a request without an identifier and without a role.
abbrev nameless : InvocationRequest ℕ
nameless = record request { role = ""; operation_invocation_id = none }

invoke_plan-Returns_example :
    Returns
      (invoke_plan platform new_uuid nameless none (some (registry_at "1")) default_catalog new_run)
invoke_plan-Returns_example =
    invoke_plan-Returns platform new_uuid nameless none (some (registry_at "1")) default_catalog
      new_run (build_registry-IsClosed platform (config_of "1") none (registry_at "1") built_first)
