-- ===== src/Samples.antt =====
-- A concrete plan, registry and provider. Their runs are in the modules below.
mod Attempts
mod Routes
mod Parts
mod Configs
mod Plans
mod Rollouts
mod Health
use llm_endpoint.Prelude.{ℕ, suc, String, true, none, some, List, [], ◌∷◌, nat_eq, if◌then◌else◌}
use llm_endpoint.Prelude.Int.{ℤ, pos}
use llm_endpoint.Prelude.Dict.{Dict}
use llm_endpoint.Prelude.Outcome.{returned, Call}
use llm_endpoint.Values.{Value, Fields, end, field, str, cons, nil, list, mapping}
use llm_endpoint.Results.{FailureCode}
use llm_endpoint.Callbacks.{
  SecretValue, SecretResolution, SecretResolutionStatus, SchemaContract, SecretResolver,
  SchemaResolver, SchemaResolution, SchemaResolutionStatus,
}
use llm_endpoint.Config.{
  ProviderFormat, FormatValue, member, ReasoningMode, StructuredOutputMode, EndpointConfig,
  LlmEndpointConfig, Registry,
}
use llm_endpoint.Adapters.{
  AdapterInvocationPlan, ProviderOutcome, ProviderOutcomeKind, ProviderAdapter, Content,
}
use llm_endpoint.Policy.{EffectiveRuntimeConfig}
use llm_endpoint.Invocation.{InvocationPlan}

abbrev pub endpoint : String → EndpointConfig
endpoint uid = record {
  uid = uid;
  provider_format = member ProviderFormat.fake;
  model_family = "fake";
  model = "fake-1";
  credential_ref = "secret/fake";
  capability_refs = [];
  endpoint_url = none;
  deployment = none;
  metadata = [];
}

abbrev pub registry : Registry
registry = record {
  config = record {
    endpoints = endpoint "a" ∷ endpoint "b" ∷ endpoint "c" ∷ [];
    roles = [];
    operations = [];
    policies = [];
    config_schema_version = "1";
    metadata = [];
  };
  config_identity = "sha256:config";
  endpoints_by_uid = ("a", endpoint "a") ∷ ("b", endpoint "b") ∷ ("c", endpoint "c") ∷ [];
  roles_by_name = [];
  operations_by_ref = [];
  policies_by_ref = [];
}

abbrev pub schema_fields : Fields
schema_fields = field "type" (str "object") (
    field "required" (list (cons (str "title") nil)) (
      field "properties" (mapping (field "title" (mapping (field "type" (str "string") end)) end))
        end))

abbrev pub title : Fields
title = field "title" (str "x") end

abbrev pub contract : SchemaContract
contract = record {
  ref = "schema/title";
  name = "title";
  version = "1";
  fingerprint = "sha256:schema";
  json_schema = schema_fields;
  validate = some (λ fs. returned true);
}

abbrev pub plan_of : StructuredOutputMode → InvocationPlan ℕ
plan_of mode = record {
  operation_invocation_id = "op-1";
  role = "writer";
  operation_ref = "summary";
  endpoint_uids = "a" ∷ "b" ∷ "c" ∷ [];
  messages = [];
  deadline_ms = pos 1000;
  effective_config = record {
    deadline_ms = pos 1000;
    max_output_tokens = pos 100;
    reasoning_mode = ReasoningMode.disabled;
    candidate_budget_ms = pos 400;
    candidate_budget_overrides_ms = none;
    protect_last_eligible = true;
    structured_output_mode = mode;
    retry_class = "retryable_availability_only";
    max_attempts = pos 2;
  };
  config_identity = "sha256:config";
  policy_fingerprint = "sha256:policy";
  schema_contract_ref = some "schema/title";
  request_metadata = [];
  cancellation_token = none;
  telemetry = [];
}

abbrev pub outcome_of : ProviderOutcomeKind → String → ProviderOutcome
outcome_of ProviderOutcomeKind.success uid = record {
  kind = ProviderOutcomeKind.success;
  endpoint_uid = uid;
  elapsed_ms = 30;
  payload =
      some (record { content = Content.text "hello"; finish_reason = none; tool_name = none });
  failure_code = none;
  safe_provider_status = [];
  token_usage = none;
}
outcome_of kind uid = record {
  kind = kind;
  endpoint_uid = uid;
  elapsed_ms = 20;
  payload = none;
  failure_code = some FailureCode.invocation_rate_limited;
  safe_provider_status = [];
  token_usage = none;
}

abbrev pub structured_outcome : ProviderOutcome
structured_outcome = record {
  kind = ProviderOutcomeKind.success;
  endpoint_uid = "a";
  elapsed_ms = 30;
  payload =
      some (record { content = Content.object title; finish_reason = none; tool_name = none });
  failure_code = none;
  safe_provider_status = [];
  token_usage = none;
}

-- The world counts the provider's calls. The first call is turned down for its rate, the others succeed.
abbrev pub provider : ProviderAdapter ℕ
provider = record {
  provider_format = ProviderFormat.fake;
  invoke = λ p calls. (
    returned (
        if nat_eq calls 0
        then outcome_of ProviderOutcomeKind.retryable_failure p.endpoint_uid
        else outcome_of ProviderOutcomeKind.success p.endpoint_uid),
    suc calls,
  );
}

abbrev pub secrets : SecretResolver ℕ
secrets ref calls = (
  returned (record {
    ref = ref;
    status = SecretResolutionStatus.resolved;
    secret = some (record { ref = ref; value = "key" });
    diagnostics = none;
  }),
  calls,
)

abbrev pub schemas : SchemaResolver ℕ
schemas ref calls = (
  returned (record {
    ref = ref;
    status = SchemaResolutionStatus.resolved;
    schema = some contract;
    diagnostics = none;
  }),
  calls,
)

abbrev pub adapters : Dict (ProviderAdapter ℕ)
adapters = ("fake", provider) ∷ []
