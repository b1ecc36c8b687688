-- ===== src/Normalization/Outcomes.antt =====
-- What normalization makes of an outcome.
use llm_endpoint.Prelude.{
  String, Bool, true, false, ◌≡◌, refl, Option, none, some, Bool-cases, Option-cases, inl, inr,
}
use llm_endpoint.Prelude.Text.{or_else}
use llm_endpoint.Results.{
  FailureCode, PlainTextResult, TypedFailure, TerminalResult, structured, plain_text, failed,
  failure,
}
use llm_endpoint.Results.Classified.{IsClassified}
use llm_endpoint.Adapters.{ProviderOutcome, ProviderSuccessPayload, Content, is_success}
use llm_endpoint.Normalization.{normalize_content, normalize_success, normalize_provider_outcome}

-- Content that is no text result: a mapping, or text where text is not allowed.
abbrev pub IsUnfit : Bool → Content → Type 0
IsUnfit plain (Content.text s) = plain ≡ false
IsUnfit plain (Content.object fs) = Unit

module _ (o : ProviderOutcome) (id : String) (fingerprint : Option String) (plain : Bool) where
  -- Why an outcome is a failure, and the code of the failure: the code of a provider's failure is kept; a success
  -- fails where it has no payload, or a mapping, or text that the operation does not allow.
  pub data IsCause : FailureCode → Type 0 where
    told :
        (code : FailureCode) → is_success o.kind ≡ false → o.failure_code ≡ some code → IsCause code
    untold :
        (code : FailureCode)
        → is_success o.kind ≡ false
        → o.failure_code ≡ none
        → code ≡ FailureCode.provider_failure
        → IsCause code
    empty :
        (code : FailureCode)
        → is_success o.kind ≡ true
        → o.payload ≡ none
        → code ≡ FailureCode.provider_failure
        → IsCause code
    unfit :
        (code : FailureCode) (p : ProviderSuccessPayload)
        → is_success o.kind ≡ true
        → o.payload ≡ some p
        → IsUnfit plain p.content
        → code ≡ FailureCode.invalid_structured_output_payload
        → IsCause code

  -- a text result of a success, with the text of its payload
  pub record IsText (r : PlainTextResult) : Type 0 where
    pub allowed : plain ≡ true
    pub success : is_success o.kind ≡ true
    pub payload : ProviderSuccessPayload
    pub at_payload : o.payload ≡ some payload
    pub content : payload.content ≡ Content.text r.text
    pub endpoint : r.endpoint_uid ≡ o.endpoint_uid
    pub time : r.elapsed_ms ≡ o.elapsed_ms
    pub invocation : r.operation_invocation_id ≡ id
    pub policy : r.policy_fingerprint ≡ or_else fingerprint ""

  -- a failure, with its cause
  pub record IsFailure (f : TypedFailure) : Type 0 where
    pub cause : IsCause f.code
    pub classified : IsClassified f
    pub endpoint : f.context.endpoint_uid ≡ some o.endpoint_uid
    pub time : f.context.elapsed_ms ≡ some o.elapsed_ms
    pub invocation : f.context.operation_invocation_id ≡ id
    pub policy : f.context.policy_fingerprint ≡ fingerprint

  abbrev pub IsNormalized : TerminalResult → Type 0
  IsNormalized (plain_text r) = IsText r
  IsNormalized (structured r) = ⊥
  IsNormalized (failed f) = IsFailure f

  normalize_content-IsNormalized :
      (p : ProviderSuccessPayload) (c : Content) (allowed : Bool)
      → is_success o.kind ≡ true
      → o.payload ≡ some p
      → p.content ≡ c
      → plain ≡ allowed
      → IsNormalized (normalize_content o c id fingerprint allowed)
  unfolding normalize_content
  normalize_content-IsNormalized p (Content.text s) true good here same may = record {
    allowed = may;
    success = good;
    payload = p;
    at_payload = here;
    content = same;
    endpoint = refl;
    time = refl;
    invocation = refl;
    policy = refl;
  }
  normalize_content-IsNormalized p (Content.text s) false good here same may = record {
    cause = unfit _ p good here (rw same may) refl;
    classified = (refl, refl);
    endpoint = refl;
    time = refl;
    invocation = refl;
    policy = refl;
  }
  normalize_content-IsNormalized p (Content.object fs) allowed good here same may = record {
    cause = unfit _ p good here (rw same tt) refl;
    classified = (refl, refl);
    endpoint = refl;
    time = refl;
    invocation = refl;
    policy = refl;
  }

  normalize_success-IsNormalized :
      is_success o.kind ≡ true → IsNormalized (normalize_success o id fingerprint plain)
  unfolding normalize_success
  normalize_success-IsNormalized good = elim (Option-cases o.payload) [
    | inl absent ↦
        simp (absent, normalize_success)
          (record {
            cause = empty _ good absent refl;
            classified = (refl, refl);
            endpoint = refl;
            time = refl;
            invocation = refl;
            policy = refl;
          })
    | inr (p, present) ↦
        simp (present, normalize_success)
          (normalize_content-IsNormalized p p.content plain good present refl refl)
  ]

  -- The result of an outcome is the text of a success's payload, where text is allowed, or else a failure, with
  -- the outcome's endpoint and elapsed time and the invocation's identifier and policy. The failure is classified
  -- by the tables, and has the provider's code if it tells one; the code of a provider's failure if a failure
  -- tells none or a success has no payload; and the code of an invalid payload if a success has a mapping, or text
  -- that is not allowed. No result is a structured one.
  pub normalize-IsNormalized :
      (role operation_ref trace_id : Option String)
      → IsNormalized (normalize_provider_outcome o id role operation_ref fingerprint trace_id plain)
  unfolding normalize_provider_outcome failure
  normalize-IsNormalized role operation_ref trace_id = elim (Bool-cases (is_success o.kind)) [
    | inl good ↦ rw good (normalize_success-IsNormalized good)
    | inr bad ↦ rw bad (elim (Option-cases o.failure_code) [
      | inl absent ↦ simp absent (record {
        cause = untold _ bad absent refl;
        classified = (refl, refl);
        endpoint = refl;
        time = refl;
        invocation = refl;
        policy = refl;
      })
      | inr (code, present) ↦ simp present (record {
        cause = told code bad present;
        classified = (refl, refl);
        endpoint = refl;
        time = refl;
        invocation = refl;
        policy = refl;
      })
    ])
  ]
