-- ===== src/Adapters/Fake.antt =====
-- adapters.py: `FakeProviderAdapter`, which answers from a script and counts its calls.
pub mod Script
use llm_endpoint.Prelude.{ℕ, ◌+◌, String, none, some, List, [], ◌∷◌, not, get_elem?, if◌then◌else◌}
use llm_endpoint.Prelude.Int.{pos}
use llm_endpoint.Prelude.Dict.{Dict, lookup, lookup_or, insert}
use llm_endpoint.Prelude.Outcome.{Result, ok}
use llm_endpoint.Results.{FailureCode}
use llm_endpoint.Config.{ProviderFormat, is_format}
use llm_endpoint.Adapters.{
  AdapterInvocationPlan, ProviderOutcome, ProviderOutcomeKind, provider_failure,
}

pub record FakeProviderAdapter : Type 0 where
  pub outcomes_by_endpoint : Dict (List ProviderOutcome)
  pub calls_by_endpoint : Dict ℕ

-- a failure of the fake's own, with its reason as the status
fake_failure : String → FailureCode → String → Result ProviderOutcome
unfolding provider_failure
fake_failure uid code reason =
    provider_failure ProviderOutcomeKind.non_retryable_failure uid (pos 0) code
      (("adapter", reason) ∷ []) none

answer : String → List ProviderOutcome → ℕ → Result ProviderOutcome
unfolding fake_failure
answer uid outcomes call_index = elim (get_elem? outcomes call_index) [
  | none ↦ fake_failure uid FailureCode.provider_failure "fake_outcome_missing"
  | some o ↦ ok o
]

unfoldable pub invoke :
    FakeProviderAdapter → AdapterInvocationPlan → Result ProviderOutcome × FakeProviderAdapter
unfolding is_format fake_failure answer lookup insert
invoke fake p =
    let call_index = lookup_or p.endpoint_uid fake.calls_by_endpoint 0 in
    if not (is_format p.provider_format ProviderFormat.fake)
    then (
      fake_failure p.endpoint_uid FailureCode.unsupported_provider_format
          "fake_provider_format_mismatch",
      fake,
    )
    else (
      answer p.endpoint_uid (lookup_or p.endpoint_uid fake.outcomes_by_endpoint []) call_index,
      record fake {
        calls_by_endpoint = insert p.endpoint_uid (call_index + 1) fake.calls_by_endpoint;
      },
    )
