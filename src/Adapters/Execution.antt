-- ===== src/Adapters/Execution.antt =====
-- adapters.py: `execute_provider_attempt` and `_resolve_credential`.
pub mod Judged
pub mod Secrets
pub mod Contract
use llm_endpoint.Prelude.{String, Option, none, some, List, [], ◌∷◌, ◌==◌, not, if◌then◌else◌}
use llm_endpoint.Prelude.Int.{pos}
use llm_endpoint.Prelude.Outcome.{Result, ok, raise, Call, returned, raised}
use llm_endpoint.Results.{FailureCode, FailureContext, TypedFailure, failure, for_invocation}
use llm_endpoint.Callbacks.{
  SecretValue, SecretResolution, SecretResolver, is_secret_resolved, secret_failure,
}
use llm_endpoint.Config.{is_format}
use llm_endpoint.Adapters.{
  AdapterInvocationPlan, ProviderOutcome, ProviderOutcomeKind, ProviderAdapter, provider_failure,
}

-- `ProviderOutcome | TypedFailure`
pub data AttemptOutput : Type 0 where
  outcome : ProviderOutcome → AttemptOutput
  failed : TypedFailure → AttemptOutput

-- `SecretValue | None | TypedFailure`
pub data Credential : Type 0 where
  no_credential : Credential
  secret : SecretValue → Credential
  unavailable : TypedFailure → Credential

-- the context that the failures of this module share
abbrev attempt_context : AdapterInvocationPlan → FailureContext
attempt_context p = record (for_invocation p.operation_invocation_id) {
  endpoint_uid = some p.endpoint_uid;
  policy_fingerprint = p.policy_fingerprint;
}

unavailable_because : AdapterInvocationPlan → String → List (String × String) → Result Credential
unfolding failure
unavailable_because p message context =
    ok
      (unavailable (failure FailureCode.credential_unavailable message (attempt_context p) context))

-- what follows a resolver that returned
judge_resolution : AdapterInvocationPlan → String → SecretResolution → Result Credential
unfolding unavailable_because secret_failure
judge_resolution p ref r =
    if not (r.ref == ref)
    then unavailable_because p "secret resolver returned a mismatched ref"
        (("expected_secret_ref", ref) ∷ ("actual_secret_ref", r.ref) ∷ [])
    else if not (is_secret_resolved r.status)
    then elim (secret_failure r p.operation_invocation_id (some p.endpoint_uid)) [
      | ok f ↦ ok (unavailable f)
      | raise e ↦ raise e
    ]
    else elim r.secret [
      | none ↦
          unavailable_because p "secret resolver returned resolved status without a secret"
            (("secret_ref", ref) ∷ [])
      | some s ↦ ok (secret s)
    ]

judge_call : AdapterInvocationPlan → String → Call SecretResolution → Result Credential
unfolding unavailable_because judge_resolution
judge_call p ref (returned r) = judge_resolution p ref r
judge_call p ref (raised name) =
    unavailable_because p "secret resolver raised during credential resolution"
      (("secret_ref", ref) ∷ ("resolver_exception", name) ∷ [])

-- `replace(plan, credential=…)` if there is one
abbrev pub with_credential : AdapterInvocationPlan → Credential → AdapterInvocationPlan
with_credential p (secret s) = record p { credential = some s }
with_credential p _ = p

-- the outcome that stands for an exception of the adapter
adapter_raised : String → String → Result ProviderOutcome
unfolding provider_failure
adapter_raised uid name =
    provider_failure ProviderOutcomeKind.non_retryable_failure uid (pos 0)
      FailureCode.provider_failure (("adapter_exception", name) ∷ []) none

-- what follows the adapter's call
judge_outcome : AdapterInvocationPlan → Call ProviderOutcome → Result AttemptOutput
unfolding failure adapter_raised
judge_outcome p (returned o) =
    if o.endpoint_uid == p.endpoint_uid
    then ok (outcome o)
    else ok (
        failed (
          failure FailureCode.provider_failure
            "adapter returned outcome for a different endpoint_uid" (attempt_context p) []))
judge_outcome p (raised name) = elim (adapter_raised p.endpoint_uid name) [
  | ok o ↦ ok (outcome o)
  | raise e ↦ raise e
]

module _ {W : Type 0} where
  -- by the reference, and by the resolver
  resolve_ref :
      AdapterInvocationPlan → Option String → Option (SecretResolver W) → W → Result Credential × W
  unfolding unavailable_because judge_call
  resolve_ref p none resolver w = (ok no_credential, w)
  resolve_ref p (some ref) none w = (
    unavailable_because p "secret resolver is required for endpoint credential_ref"
        (("secret_ref", ref) ∷ []),
    w,
  )
  resolve_ref p (some ref) (some resolve) w =
      let (answer, w') = resolve ref w in (judge_call p ref answer, w')

  -- `_resolve_credential`
  unfoldable pub resolve_credential :
      AdapterInvocationPlan → Option (SecretResolver W) → W → Result Credential × W
  unfolding resolve_ref
  resolve_credential p resolver w = resolve_ref p p.credential_ref resolver w

  -- the call of an adapter on the plan with its credential
  unfoldable pub call_adapter :
      AdapterInvocationPlan → ProviderAdapter W → W → Result AttemptOutput × W
  unfolding is_format failure judge_outcome
  call_adapter p adapter w =
      if not (is_format p.provider_format adapter.provider_format)
      then (
        ok (
            failed (
              failure FailureCode.unsupported_provider_format
                "adapter provider_format does not match endpoint provider_format"
                (attempt_context p) [])),
        w,
      )
      else let (answer, w') = adapter.invoke p w in (judge_outcome p answer, w')

  after_credential :
      AdapterInvocationPlan → ProviderAdapter W → Result Credential → W → Result AttemptOutput × W
  unfolding call_adapter
  after_credential p adapter (raise e) w = (raise e, w)
  after_credential p adapter (ok (unavailable f)) w = (ok (failed f), w)
  after_credential p adapter (ok c) w = call_adapter (with_credential p c) adapter w

  unfoldable pub execute_provider_attempt :
      AdapterInvocationPlan
      → ProviderAdapter W
      → Option (SecretResolver W)
      → W
      → Result AttemptOutput × W
  unfolding resolve_credential after_credential
  execute_provider_attempt p adapter resolver w =
      let (c, w') = resolve_credential p resolver w in after_credential p adapter c w'
