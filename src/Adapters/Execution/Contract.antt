-- ===== src/Adapters/Execution/Contract.antt =====
-- What `execute_provider_attempt` promises of its output.
use llm_endpoint.Prelude.{
  String, true, false, ◌≡◌, refl, sym, subst, ap, ◌∙◌, Option, none, some, Bool-cases, inl, inr,
}
use llm_endpoint.Prelude.Outcome.{Result, ok, raise, ok-injective}
use llm_endpoint.Results.{TypedFailure}
use llm_endpoint.Callbacks.{SecretValue, SecretResolver}
use llm_endpoint.Config.{is_format}
use llm_endpoint.Adapters.{AdapterInvocationPlan, ProviderAdapter}
use llm_endpoint.Adapters.Execution.{
  AttemptOutput, outcome, failed, Credential, no_credential, secret, unavailable,
  resolve_credential, call_adapter, after_credential, with_credential, execute_provider_attempt,
}
use llm_endpoint.Adapters.Execution.Judged.{
  IsLocal, IsJudged, IsOutput, IsFailed, judged-IsOutput, called_adapter, mismatched_adapter,
}
use llm_endpoint.Adapters.Execution.Secrets.{
  answer_of, IsGiven, IsObtained, resolve_credential-IsObtained,
}

-- The credential of an attempt: none for an endpoint without a reference, or the secret that the resolver gives.
abbrev pub IsCredential :
    {W : Type 0} → Option String → Option (SecretResolver W) → W → Credential → Type 0
IsCredential none resolver w no_credential = Unit
IsCredential (some ref) resolver w (secret v) = IsGiven ref (answer_of resolver ref w) v
IsCredential _ _ _ _ = ⊥

module _ {W : Type 0} (p : AdapterInvocationPlan) (adapter : ProviderAdapter W)
    (resolver : Option (SecretResolver W)) (w : W) where
  -- What an attempt gives: a local failure, if the resolver gives no secret for the endpoint's reference, or if the
  -- adapter has another format than the endpoint; otherwise what is made of the adapter's answer in some world, on
  -- the plan with the credential.
  pub data IsAttempt : Result AttemptOutput → Type 0 where
    unresolved :
        (ref : String) (f : TypedFailure)
        → p.credential_ref ≡ some ref
        → ((v : SecretValue) → IsGiven ref (answer_of resolver ref w) v → ⊥)
        → IsLocal p.endpoint_uid f
        → IsAttempt (ok (failed f))
    mismatched :
        (f : TypedFailure)
        → is_format p.provider_format adapter.provider_format ≡ false
        → IsLocal p.endpoint_uid f
        → IsAttempt (ok (failed f))
    called :
        (c : Credential) (w' : W) (out : Result AttemptOutput)
        → is_format p.provider_format adapter.provider_format ≡ true
        → IsCredential p.credential_ref resolver w c
        → IsJudged p.endpoint_uid (adapter.invoke (with_credential p c) w').0 out
        → IsAttempt out

  with_credential-endpoint : (c : Credential) → (with_credential p c).endpoint_uid ≡ p.endpoint_uid
  with_credential-endpoint no_credential = refl
  with_credential-endpoint (secret v) = refl
  with_credential-endpoint (unavailable f) = refl

  with_credential-format :
      (c : Credential) → (with_credential p c).provider_format ≡ p.provider_format
  with_credential-format no_credential = refl
  with_credential-format (secret v) = refl
  with_credential-format (unavailable f) = refl

  failed-IsAttempt :
      (out : Result AttemptOutput)
      → is_format p.provider_format adapter.provider_format ≡ false
      → IsFailed p.endpoint_uid out
      → IsAttempt out
  failed-IsAttempt (ok (failed f)) bad h = mismatched f bad h
  failed-IsAttempt (ok (outcome o)) bad h = elim h [ ]
  failed-IsAttempt (raise e) bad h = elim h [ ]

  call_adapter-IsAttempt :
      (c : Credential) (w' : W)
      → IsCredential p.credential_ref resolver w c
      → IsAttempt (call_adapter (with_credential p c) adapter w').0
  call_adapter-IsAttempt c w' given =
      let q = with_credential p c in
      let same = with_credential-endpoint c in
      let alike = ap (λ f. is_format f adapter.provider_format) (with_credential-format c) in
      elim (Bool-cases (is_format q.provider_format adapter.provider_format)) [
        | inl good ↦ called c w' (call_adapter q adapter w').0 (sym alike ∙ good) given (
            subst (λ uid. IsJudged uid (adapter.invoke q w').0 (call_adapter q adapter w').0) same
              (called_adapter q adapter w' good))
        | inr bad ↦ failed-IsAttempt (call_adapter q adapter w').0 (sym alike ∙ bad) (
            subst (λ uid. IsFailed uid (call_adapter q adapter w').0) same
              (mismatched_adapter q adapter w' bad))
      ]

  after_credential-IsAttempt :
      (ref : Option String) (c : Result Credential) (w' : W)
      → p.credential_ref ≡ ref
      → IsObtained p.endpoint_uid ref resolver w c
      → IsAttempt (after_credential p adapter c w').0
  unfolding after_credential
  after_credential-IsAttempt none c w' same h = rw h (
      call_adapter-IsAttempt no_credential w'
        (subst (λ ref. IsCredential ref resolver w no_credential) (sym same) tt))
  after_credential-IsAttempt (some ref) (raise e) w' same h = elim h [ ]
  after_credential-IsAttempt (some ref) (ok no_credential) w' same h = elim h [ ]
  after_credential-IsAttempt (some ref) (ok (unavailable f)) w' same (here, why) =
      unresolved ref f same why here
  after_credential-IsAttempt (some ref) (ok (secret v)) w' same h =
      call_adapter-IsAttempt (secret v) w'
        (subst (λ ref. IsCredential ref resolver w (secret v)) (sym same) h)

  -- An attempt gives a classified, not retryable failure of the plan's endpoint without an elapsed time, where the
  -- endpoint refers to a credential for which the resolver gives no secret, where the adapter's format is not the
  -- endpoint's, or where the adapter's outcome is for another endpoint. Otherwise it gives the outcome that the
  -- adapter returns for the endpoint on the plan with the secret, if any, or, where the adapter raises, the outcome
  -- of a provider's failure that names the exception. It raises only where the adapter does and the endpoint has
  -- no name.
  pub execute_provider_attempt-IsAttempt :
      IsAttempt (execute_provider_attempt p adapter resolver w).0
  unfolding execute_provider_attempt
  execute_provider_attempt-IsAttempt =
      let (c, w') = resolve_credential p resolver w in
      after_credential-IsAttempt p.credential_ref c w' refl
        (resolve_credential-IsObtained p resolver w)

  attempt-IsOutput :
      (out : Result AttemptOutput) (output : AttemptOutput)
      → IsAttempt out
      → out ≡ ok output
      → IsOutput p.endpoint_uid output
  attempt-IsOutput _ output (mismatched f other here) h =
      subst (IsOutput p.endpoint_uid) (ok-injective h) here
  attempt-IsOutput _ output (unresolved ref f same why here) h =
      subst (IsOutput p.endpoint_uid) (ok-injective h) here
  attempt-IsOutput _ output (called c w' out format given judged) h =
      judged-IsOutput p.endpoint_uid (adapter.invoke (with_credential p c) w').0 output
        (subst (IsJudged p.endpoint_uid (adapter.invoke (with_credential p c) w').0) h judged)

  -- What an attempt that does not raise gives is an output for the endpoint.
  pub execute_provider_attempt-IsOutput :
      (output : AttemptOutput)
      → (execute_provider_attempt p adapter resolver w).0 ≡ ok output
      → IsOutput p.endpoint_uid output
  execute_provider_attempt-IsOutput output h =
      attempt-IsOutput (execute_provider_attempt p adapter resolver w).0 output
        execute_provider_attempt-IsAttempt h
