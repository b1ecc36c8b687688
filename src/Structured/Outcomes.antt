-- ===== src/Structured/Outcomes.antt =====
-- What the structured-output pipeline makes of an outcome.
use llm_endpoint.Prelude.{
  String, Bool, true, false, ◌≡◌, refl, sym, subst, ◌∙◌, none, some, List, [], ◌∷◌, ◌&&◌,
  Bool-cases, Option-cases, inl, inr, arith,
}
use llm_endpoint.Prelude.Text.{truthy}
use llm_endpoint.Prelude.Outcome.{Result, ok, raise, Error, Call, returned, raised}
use llm_endpoint.Values.{Fields}
use llm_endpoint.Results.{
  TypedFailure, TerminalResult, structured, plain_text, failed, structured_result, StructuredResult,
}
use llm_endpoint.Adapters.{ProviderOutcome, ProviderSuccessPayload}
use llm_endpoint.Structured.JsonSchema.{matches_json_schema}
use llm_endpoint.Structured.{
  StructuredOutputContext, Extracted, payload, rejected, schema_validation_failure, extract_payload,
  accepted_value, accept, host_answer, host_validation, validate_payload,
  normalize_structured_provider_outcome,
}
use llm_endpoint.Structured.Delivered.{
  IsDelivered, IsInvalid, IsExtracted, invalid_payload-IsInvalid, delivered_once,
  extract_payload-IsExtracted,
}

-- A mapping is valid if it fits the schema, and the host's validator accepts it if there is one.
pub record IsValid (c : StructuredOutputContext) (fs : Fields) : Type 0 where
  pub fits : matches_json_schema fs c.schema.json_schema ≡ ok true
  pub validated :
      (validate : Fields → Call Bool)
      → c.schema.validate ≡ some validate
      → validate fs ≡ returned true

-- An accepted value is the mapping that is delivered, and is valid.
pub record IsAccepted (o : ProviderOutcome) (c : StructuredOutputContext) (r : StructuredResult)
    : Type 0 where
  pub delivered : IsDelivered o c r.value
  pub valid : IsValid c r.value
  pub endpoint : r.endpoint_uid ≡ c.endpoint_uid
  pub time : r.elapsed_ms ≡ c.elapsed_ms
  pub invocation : r.operation_invocation_id ≡ c.operation_invocation_id
  pub policy : r.policy_fingerprint ≡ c.policy_fingerprint
  pub schema :
      (r.schema_name ≡ c.schema.name)
      × ((r.schema_version ≡ c.schema.version) × (r.schema_fingerprint ≡ c.schema.fingerprint))

-- A refused outcome is a failure, and delivers no valid mapping.
pub record IsRefused (o : ProviderOutcome) (c : StructuredOutputContext) (f : TypedFailure)
    : Type 0 where
  pub invalid : IsInvalid c f
  pub justified : (fs : Fields) → IsDelivered o c fs → IsValid c fs → ⊥

abbrev pub IsStructuredTerminal :
    ProviderOutcome → StructuredOutputContext → TerminalResult → Type 0
IsStructuredTerminal o c (plain_text r) = ⊥
IsStructuredTerminal o c (structured r) = IsAccepted o c r
IsStructuredTerminal o c (failed f) = IsRefused o c f

-- whether a contract has the texts that its constructor demands
abbrev pub is_identified : StructuredOutputContext → Bool
is_identified c = truthy c.schema.name && (truthy c.schema.version && truthy c.schema.fingerprint)

-- What is raised is what the check of the schema raises, or comes of a contract without identity.
pub data IsRaised (o : ProviderOutcome) (c : StructuredOutputContext) (e : Error) : Type 0 where
  unreadable :
      (fs : Fields)
      → IsDelivered o c fs
      → matches_json_schema fs c.schema.json_schema ≡ raise e
      → IsRaised o c e
  anonymous : is_identified c ≡ false → IsRaised o c e

abbrev pub IsAnswered : ProviderOutcome → StructuredOutputContext → Result TerminalResult → Type 0
IsAnswered o c (ok t) = IsStructuredTerminal o c t
IsAnswered o c (raise e) = IsRaised o c e

some_eq {ℓ} : {A : Type ℓ} {a b : A} → some a ≡ some b → a ≡ b
some_eq h = cc

none-not-some : {p : ProviderSuccessPayload} → none ≡ some p → ⊥
none-not-some h = cc

raised-not-returned : {name : String} {b : Bool} → raised name ≡ returned b → ⊥
raised-not-returned h = cc

false-not-returned : returned false ≡ returned true → ⊥
false-not-returned h = cc

misfit : ok false ≡ ok true → ⊥
misfit h = cc

module _ (o : ProviderOutcome) (c : StructuredOutputContext) where
  schema_validation_failure-IsAnswered :
      (stage message : String) (extra : List (String × String))
      → ((fs : Fields) → IsDelivered o c fs → IsValid c fs → ⊥)
      → IsAnswered o c (ok (schema_validation_failure c stage message extra))
  unfolding schema_validation_failure
  schema_validation_failure-IsAnswered stage message extra why = record {
    invalid = invalid_payload-IsInvalid c _ _;
    justified = why;
  }

  structured_result-made :
      (fs : Fields)
      → is_identified c ≡ true
      → structured_result (accepted_value c fs) ≡ ok (accepted_value c fs)
  unfolding structured_result accepted_value
  structured_result-made fs h = ground arith

  structured_result-anonymous :
      (fs : Fields)
      → is_identified c ≡ false
      → structured_result (accepted_value c fs)
        ≡ raise (Error.value_error "structured results require schema identity")
  unfolding structured_result accepted_value
  structured_result-anonymous fs h = ground arith

  module _ (fs : Fields) (d : IsDelivered o c fs) where
    -- Another mapping that is delivered is this one.
    not_valid : (IsValid c fs → ⊥) → (gs : Fields) → IsDelivered o c gs → IsValid c gs → ⊥
    not_valid why gs e v = why (subst (IsValid c) (delivered_once o c gs fs e d) v)

    accept-IsAnswered : IsValid c fs → IsAnswered o c (accept c fs)
    unfolding accept
    accept-IsAnswered v = elim (Bool-cases (is_identified c)) [
      | inl named ↦ rw (structured_result-made fs named) (record {
        delivered = d;
        valid = v;
        endpoint = refl;
        time = refl;
        invocation = refl;
        policy = refl;
        schema = (refl, (refl, refl));
      })
      | inr nameless ↦ rw (structured_result-anonymous fs nameless) (anonymous nameless)
    ]

    host_answer-IsAnswered :
        (validate : Fields → Call Bool) (answer : Call Bool)
        → matches_json_schema fs c.schema.json_schema ≡ ok true
        → c.schema.validate ≡ some validate
        → validate fs ≡ answer
        → IsAnswered o c (host_answer c fs answer)
    unfolding host_answer
    host_answer-IsAnswered validate (raised name) fits host said =
        schema_validation_failure-IsAnswered "host_validator"
          "structured provider output validator raised" (("validator_exception", name) ∷ [])
          (not_valid (λ v. raised-not-returned (sym said ∙ v.validated validate host)))
    host_answer-IsAnswered validate (returned false) fits host said =
        schema_validation_failure-IsAnswered "host_validator"
          "structured provider output failed host validation" []
          (not_valid (λ v. false-not-returned (sym said ∙ v.validated validate host)))
    host_answer-IsAnswered validate (returned true) fits host said = accept-IsAnswered (record {
      fits = fits;
      validated = λ other same. subst (λ v. v fs ≡ returned true) (some_eq (sym host ∙ same)) said;
    })

    host_validation-IsAnswered :
        matches_json_schema fs c.schema.json_schema ≡ ok true
        → IsAnswered o c (host_validation c fs)
    unfolding host_validation
    host_validation-IsAnswered fits = elim (Option-cases c.schema.validate) [
      | inl absent ↦
          simp (absent, host_validation)
            (accept-IsAnswered (record { fits = fits; validated = λ v e. cc (absent, e) }))
      | inr (validate, host) ↦
          simp (host, host_validation)
            (host_answer-IsAnswered validate (validate fs) fits host refl)
    ]

    judged-IsAnswered :
        (matched : Result Bool)
        → matches_json_schema fs c.schema.json_schema ≡ matched
        → IsAnswered o c (validate_payload c (payload fs))
    unfolding validate_payload
    judged-IsAnswered (raise e) h = rw h (unreadable fs d h)
    judged-IsAnswered (ok true) h = rw h (host_validation-IsAnswered h)
    judged-IsAnswered (ok false) h = rw h (
        schema_validation_failure-IsAnswered "json_schema"
          "structured provider output failed json schema validation" []
          (not_valid (λ v. misfit (sym h ∙ v.fits))))

  validate_payload-IsAnswered :
      (e : Extracted) → IsExtracted o c e → IsAnswered o c (validate_payload c e)
  unfolding validate_payload
  validate_payload-IsAnswered (rejected f) i = record {
    invalid = i.0;
    justified = λ fs d v. i.1 fs d;
  }
  validate_payload-IsAnswered (payload fs) d =
      judged-IsAnswered fs d (matches_json_schema fs c.schema.json_schema) refl

  pub normalize_structured-IsAnswered : IsAnswered o c (normalize_structured_provider_outcome o c)
  unfolding normalize_structured_provider_outcome
  normalize_structured-IsAnswered = elim (Option-cases o.payload) [
    | inl absent ↦
        simp (absent, normalize_structured_provider_outcome)
          (record {
            invalid =
                invalid_payload-IsInvalid c "provider success outcome omitted structured payload"
                  [];
            justified = λ fs d v. none-not-some (sym absent ∙ d.at_payload);
          })
    | inr (p, present) ↦
        simp (present, normalize_structured_provider_outcome)
          (validate_payload-IsAnswered (extract_payload o c) (extract_payload-IsExtracted o c))
  ]

  -- what an answer is that is no exception
  pub normalize_structured-IsStructuredTerminal :
      (t : TerminalResult)
      → normalize_structured_provider_outcome o c ≡ ok t
      → IsStructuredTerminal o c t
  normalize_structured-IsStructuredTerminal t h =
      subst (IsAnswered o c) h normalize_structured-IsAnswered
