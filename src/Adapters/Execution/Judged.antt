-- ===== src/Adapters/Execution/Judged.antt =====
-- What `execute_provider_attempt` makes of an adapter's answer.
use llm_endpoint.Prelude.{
  String, true, false, ◌≡◌, refl, sym, subst, ap, ◌∙◌, none, some, [], ◌∷◌, ◌==◌, eq_iff,
  Bool-cases, inl, inr,
}
use llm_endpoint.Prelude.Text.{truthy}
use llm_endpoint.Prelude.Outcome.{Result, ok, raise, Call, returned, raised}
use llm_endpoint.Results.{TypedFailure, FailureCode, is_retryable}
use llm_endpoint.Results.Classified.{IsClassified}
use llm_endpoint.Config.{is_format}
use llm_endpoint.Adapters.{AdapterInvocationPlan, ProviderOutcome, ProviderAdapter}
use llm_endpoint.Adapters.Reported.{reported, provider_failure-reported, provider_failure-nameless}
use llm_endpoint.Adapters.Execution.{
  AttemptOutput, outcome, failed, adapter_raised, judge_outcome, call_adapter,
}

-- A failure that no provider made: classified, not to be retried, of this endpoint, and with no time of its own.
pub record IsLocal (uid : String) (f : TypedFailure) : Type 0 where
  pub classified : IsClassified f
  pub final : is_retryable f ≡ false
  pub endpoint : f.context.endpoint_uid ≡ some uid
  pub timeless : f.context.elapsed_ms ≡ none

-- the outcome that stands for an exception of the class that is named
abbrev pub outcome_of_exception : String → String → ProviderOutcome
outcome_of_exception uid name =
    reported uid 0 FailureCode.provider_failure (("adapter_exception", name) ∷ [])

-- What is made of an adapter's answer: its own outcome, if that is for the endpoint, the outcome that stands
-- for its exception, or a local failure. It raises for an endpoint without a name only.
abbrev pub IsJudged : String → Call ProviderOutcome → Result AttemptOutput → Type 0
IsJudged uid (returned o) (ok (outcome o')) = (o' ≡ o) × (o.endpoint_uid ≡ uid)
IsJudged uid (raised name) (ok (outcome o)) = o ≡ outcome_of_exception uid name
IsJudged uid (raised name) (raise e) = truthy uid ≡ false
IsJudged uid (returned o) (ok (failed f)) = (o.endpoint_uid == uid ≡ false) × IsLocal uid f
IsJudged uid _ _ = ⊥

module _ (p : AdapterInvocationPlan) where
  exception-IsJudged :
      {r : Result ProviderOutcome} (name : String)
      → adapter_raised p.endpoint_uid name ≡ r
      → IsJudged p.endpoint_uid (raised name) (elim r [ ok o ↦ ok (outcome o) | raise e ↦ raise e ])
      → IsJudged p.endpoint_uid (raised name) (judge_outcome p (raised name))
  unfolding judge_outcome
  exception-IsJudged name same h =
      subst
        (λ (r : Result ProviderOutcome).
          IsJudged p.endpoint_uid (raised name)
            (elim r [ ok o ↦ ok (outcome o) | raise e ↦ raise e ]))
        (sym same) h

  judge_outcome-IsJudged :
      (answer : Call ProviderOutcome) → IsJudged p.endpoint_uid answer (judge_outcome p answer)
  unfolding judge_outcome is_retryable adapter_raised
  judge_outcome-IsJudged (returned o) = elim (Bool-cases (o.endpoint_uid == p.endpoint_uid)) [
    | inl same ↦ rw same (refl, (eq_iff o.endpoint_uid p.endpoint_uid).0 same)
    | inr other ↦ rw other (
      other,
      record { classified = (refl, refl); final = refl; endpoint = refl; timeless = refl },
    )
  ]
  judge_outcome-IsJudged (raised name) = elim (Bool-cases (truthy p.endpoint_uid)) [
    | inl named ↦
        exception-IsJudged name
          (provider_failure-reported p.endpoint_uid 0 FailureCode.provider_failure
            (("adapter_exception", name) ∷ []) named refl)
          refl
    | inr nameless ↦
        exception-IsJudged name
          (provider_failure-nameless p.endpoint_uid 0 FailureCode.provider_failure
            (("adapter_exception", name) ∷ []) nameless)
          nameless
  ]

-- an output for an endpoint
abbrev pub IsOutput : String → AttemptOutput → Type 0
IsOutput uid (outcome o) = o.endpoint_uid ≡ uid
IsOutput uid (failed f) = IsLocal uid f

pub judged-IsOutput :
    (uid : String) (answer : Call ProviderOutcome) (output : AttemptOutput)
    → IsJudged uid answer (ok output)
    → IsOutput uid output
judged-IsOutput uid (returned o) (outcome o') (same, here) =
    ap (λ (o : ProviderOutcome). o.endpoint_uid) same ∙ here
judged-IsOutput uid (returned o) (failed f) (other, here) = here
judged-IsOutput uid (raised name) (outcome o) same =
    ap (λ (o : ProviderOutcome). o.endpoint_uid) same
judged-IsOutput uid (raised name) (failed f) h = elim h [ ]

abbrev pub IsFailed : String → Result AttemptOutput → Type 0
IsFailed uid (ok (failed f)) = IsLocal uid f
IsFailed uid _ = ⊥

module _ {W : Type 0} (q : AdapterInvocationPlan) (adapter : ProviderAdapter W) (w : W) where
  pub called_adapter :
      is_format q.provider_format adapter.provider_format ≡ true
      → IsJudged q.endpoint_uid (adapter.invoke q w).0 (call_adapter q adapter w).0
  unfolding call_adapter
  called_adapter good = rw good (judge_outcome-IsJudged q (adapter.invoke q w).0)

  pub mismatched_adapter :
      is_format q.provider_format adapter.provider_format ≡ false
      → IsFailed q.endpoint_uid (call_adapter q adapter w).0
  unfolding call_adapter is_retryable
  mismatched_adapter bad =
      rw bad (record { classified = (refl, refl); final = refl; endpoint = refl; timeless = refl })
