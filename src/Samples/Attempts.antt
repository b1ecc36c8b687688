-- ===== src/Samples/Attempts.antt =====
-- Single attempts on the sample endpoint, and what becomes of their outcomes.
use llm_endpoint.Prelude.{ℕ, suc, ◌≡◌, refl, true, none, some, []}
use llm_endpoint.Prelude.Int.{pos}
use llm_endpoint.Prelude.Outcome.{ok, raised}
use llm_endpoint.Results.{TerminalResult, structured}
use llm_endpoint.Config.{ProviderFormat, member, StructuredOutputMode}
use llm_endpoint.Adapters.{AdapterInvocationPlan, ProviderAdapter, ProviderOutcomeKind}
use llm_endpoint.Adapters.Execution.{outcome, execute_provider_attempt}
use llm_endpoint.Adapters.Execution.Contract.{IsAttempt, execute_provider_attempt-IsAttempt}
use llm_endpoint.Adapters.Execution.Judged.{outcome_of_exception}
use llm_endpoint.Normalization.{normalize_provider_outcome}
use llm_endpoint.Normalization.Outcomes.{IsNormalized, normalize-IsNormalized}
use llm_endpoint.Structured.{
  StructuredOutputContext, accepted_value, normalize_structured_provider_outcome,
}
use llm_endpoint.Samples.{contract, title, outcome_of, structured_outcome, secrets}

abbrev pub attempt_plan : AdapterInvocationPlan
attempt_plan = record {
  endpoint_uid = "a";
  provider_format = member ProviderFormat.fake;
  model_family = "fake";
  model = "fake-1";
  operation_invocation_id = "op-1";
  messages = [];
  deadline_ms = pos 1000;
  candidate_budget_ms = pos 400;
  schema_mode = StructuredOutputMode.none;
  credential_ref = some "secret/fake";
  credential = none;
  schema_contract_ref = none;
  policy_fingerprint = some "sha256:policy";
  request_metadata = [];
}

-- an adapter that raises
abbrev broken_provider : ProviderAdapter ℕ
broken_provider = record {
  provider_format = ProviderFormat.fake;
  invoke = λ p w. (raised "TimeoutError", suc w);
}

execute_provider_attempt-IsAttempt_example :
    IsAttempt attempt_plan broken_provider
      (some secrets)
      1
      (execute_provider_attempt attempt_plan broken_provider (some secrets) 1).0
execute_provider_attempt-IsAttempt_example =
    execute_provider_attempt-IsAttempt attempt_plan broken_provider (some secrets) 1

-- The exception becomes an outcome.
exception_caught :
    (execute_provider_attempt attempt_plan broken_provider (some secrets) 1).0
    ≡ ok (outcome (outcome_of_exception "a" "TimeoutError"))
unfolding execute_provider_attempt
exception_caught = refl

normalize-IsNormalized_example :
    IsNormalized (outcome_of ProviderOutcomeKind.timeout "a") "op-1" none true (
      normalize_provider_outcome
        (outcome_of ProviderOutcomeKind.timeout "a")
        "op-1"
        none
        none
        none
        none
        true)
normalize-IsNormalized_example =
    normalize-IsNormalized (outcome_of ProviderOutcomeKind.timeout "a") "op-1" none true none none
      none

abbrev structured_sample : StructuredOutputContext
structured_sample = record {
  operation_invocation_id = "op-1";
  endpoint_uid = "a";
  policy_fingerprint = "sha256:policy";
  elapsed_ms = 30;
  schema = contract;
  mode = StructuredOutputMode.json_schema;
  role = none;
  operation_ref = none;
  attempt_trace_id = none;
}

abbrev accepted : TerminalResult
accepted = structured (accepted_value structured_sample title)

structured_accepted :
    normalize_structured_provider_outcome structured_outcome structured_sample ≡ ok accepted
unfolding normalize_structured_provider_outcome
structured_accepted = refl
