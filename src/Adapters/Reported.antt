-- ===== src/Adapters/Reported.antt =====
-- adapters.py: when `provider_failure` builds the outcome that it is asked for.
use llm_endpoint.Prelude.{◌≡◌, refl, String, true, false, none, some, ℕ}
use llm_endpoint.Prelude.Dict.{Dict}
use llm_endpoint.Prelude.Text.{truthy}
use llm_endpoint.Prelude.Int.{pos}
use llm_endpoint.Prelude.Outcome.{ok, raise, Error}
use llm_endpoint.Results.{FailureCode}
use llm_endpoint.Adapters.{
  ProviderOutcome, ProviderOutcomeKind, provider_failure, has_forbidden_status,
}

-- the outcome of a failure that is not retryable
abbrev pub reported : String → ℕ → FailureCode → Dict String → ProviderOutcome
reported uid elapsed code status = record {
  kind = ProviderOutcomeKind.non_retryable_failure;
  endpoint_uid = uid;
  elapsed_ms = elapsed;
  payload = none;
  failure_code = some code;
  safe_provider_status = status;
  token_usage = none;
}

-- It is built for an endpoint that has a name, with a status that has no forbidden key.
pub provider_failure-reported :
    (uid : String) (elapsed : ℕ) (code : FailureCode) (status : Dict String)
    → truthy uid ≡ true
    → has_forbidden_status status ≡ false
    → provider_failure ProviderOutcomeKind.non_retryable_failure uid (pos elapsed) code status none
      ≡ ok (reported uid elapsed code status)
unfolding provider_failure
provider_failure-reported uid elapsed code status named allowed = rw (named, allowed) refl

-- For an endpoint without a name it raises.
pub provider_failure-nameless :
    (uid : String) (elapsed : ℕ) (code : FailureCode) (status : Dict String)
    → truthy uid ≡ false
    → provider_failure ProviderOutcomeKind.non_retryable_failure uid (pos elapsed) code status none
      ≡ raise (Error.value_error "endpoint_uid is required")
unfolding provider_failure
provider_failure-nameless uid elapsed code status nameless = rw nameless refl
