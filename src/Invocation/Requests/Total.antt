-- ===== src/Invocation/Requests/Total.antt =====
-- The checks of a request return.
use llm_endpoint.Prelude.{
  ◌≡◌, refl, sym, ◌∙◌, inl, inr, ℕ, suc, String, Bool, true, false, Option, some, List, [], ◌∷◌,
  not, ◌&&◌, is_empty, value_or, if◌then◌else◌, Option-cases, Bool-cases,
}
use llm_endpoint.Prelude.Int.{pos, leb_ℤ}
use llm_endpoint.Prelude.Text.{truthy, truthy_opt, or_none}
use llm_endpoint.Prelude.Dict.{lookup, has_key}
use llm_endpoint.Prelude.Outcome.{Result, ok, raise, Error}
use llm_endpoint.Values.{Value, null, bool, int, float, str, list, tuple, mapping, fields}
use llm_endpoint.Platform.{Platform}
use llm_endpoint.Results.{FailureCode, TypedFailure, failure, for_invocation}
use llm_endpoint.Results.About.{
  IsAbout, MayFail, failure-IsAbout, if-MayFail, no_failure, one_failure,
}
use llm_endpoint.Config.{Registry, OperationRuntimePolicy, StructuredOutputMode}
use llm_endpoint.Config.Building.{resolve_operation_policy}
use llm_endpoint.Config.Building.Built.{IsClosed, resolve_operation_policy-missing}
use llm_endpoint.Policy.{PolicyResolution}
use llm_endpoint.Policy.Effective.{no_overrides}
use llm_endpoint.Invocation.{InvocationRequest}
use llm_endpoint.Invocation.Requests.{
  Answer, accepted, refused, differs, request_context, invalid_message, messages_failure,
  validate_request, overrides_under, overrides_from, request_overrides, schema_answer, schema_ref,
}

-- an answer, whose failure is the invocation's
abbrev pub IsAnswer {ℓ} : {A : Type ℓ} → String → Answer A → Type 0
IsAnswer id (accepted a) = Unit
IsAnswer id (refused f) = IsAbout id f

abbrev pub Gives {ℓ} : {A : Type ℓ} → String → Result (Answer A) → Type ℓ
Gives {A = A} id x = (a : Answer A) × ((x ≡ ok a) × IsAnswer id a)

if-IsAnswer :
    {A : Type 0} (id : String) (b : Bool) (f : TypedFailure) (a : A)
    → IsAbout id f
    → IsAnswer id (if b then refused f else accepted a)
if-IsAnswer id true f a h = h
if-IsAnswer id false f a h = tt

unless-IsAnswer :
    {A : Type 0} (id : String) (b : Bool) (f : TypedFailure) (a : A)
    → IsAbout id f
    → IsAnswer id (if b then accepted a else refused f)
unless-IsAnswer id true f a h = tt
unless-IsAnswer id false f a h = h

ok-not-raise : {e : Error} {p : OperationRuntimePolicy} → raise e ≡ ok p → ⊥
ok-not-raise h = cc

module _ {W : Type 0} (request : InvocationRequest W) (invocation_id : String) where
  request_failure :
      (code : FailureCode) (message : String)
      → IsAbout invocation_id (failure code message (request_context request invocation_id) [])
  request_failure code message =
      failure-IsAbout code message (request_context request invocation_id) []

  invalid_message-IsAbout :
      (index : ℕ) (message : String)
      → IsAbout invocation_id (invalid_message request invocation_id index message)
  unfolding invalid_message
  invalid_message-IsAbout index message =
      failure-IsAbout FailureCode.invalid_messages message (request_context request invocation_id) _

  messages_failure-MayFail :
      (index : ℕ) (messages : List Value)
      → MayFail invocation_id (messages_failure request invocation_id index messages)
  unfolding messages_failure
  messages_failure-MayFail index [] = no_failure invocation_id
  messages_failure-MayFail index (mapping m ∷ messages) =
      elim (Bool-cases (has_key "role" (fields m) && has_key "content" (fields m))) [
        | inl keys ↦ rw (keys, messages_failure) (messages_failure-MayFail (suc index) messages)
        | inr missing ↦
            rw (missing, messages_failure) (one_failure _ (invalid_message-IsAbout index _))
      ]
  messages_failure-MayFail index (null ∷ messages) = one_failure _ (invalid_message-IsAbout index _)
  messages_failure-MayFail index (bool b ∷ messages) =
      one_failure _ (invalid_message-IsAbout index _)
  messages_failure-MayFail index (int n ∷ messages) =
      one_failure _ (invalid_message-IsAbout index _)
  messages_failure-MayFail index (float m s ∷ messages) =
      one_failure _ (invalid_message-IsAbout index _)
  messages_failure-MayFail index (str s ∷ messages) =
      one_failure _ (invalid_message-IsAbout index _)
  messages_failure-MayFail index (list vs ∷ messages) =
      one_failure _ (invalid_message-IsAbout index _)
  messages_failure-MayFail index (tuple vs ∷ messages) =
      one_failure _ (invalid_message-IsAbout index _)

  pub validate_request-MayFail : MayFail invocation_id (validate_request request invocation_id)
  unfolding validate_request
  validate_request-MayFail =
      if-MayFail (not (truthy request.role)) _ _
        (one_failure _ (
          failure-IsAbout _ _
            (record (for_invocation invocation_id) {
              operation_ref = or_none request.operation_ref;
            })
            []))
        (if-MayFail (not (truthy request.operation_ref)) _ _
          (one_failure _ (
            failure-IsAbout _ _ (record (for_invocation invocation_id) { role = some request.role })
              []))
          (if-MayFail (leb_ℤ request.deadline_ms (pos 0)) _ _ (one_failure _ (request_failure _ _))
            (if-MayFail (is_empty request.messages) _ _ (one_failure _ (request_failure _ _))
              (messages_failure-MayFail 0 request.messages))))

  overrides_under-IsAnswer :
      (policy : OperationRuntimePolicy)
      → IsAnswer invocation_id (overrides_under request invocation_id policy)
  unfolding overrides_under
  overrides_under-IsAnswer policy =
      if-IsAnswer invocation_id
        (differs (value_or request.caller_overrides no_overrides).deadline_ms request.deadline_ms) _
        _ (request_failure _ _)

  -- In a closed registry the overrides are found, or a failure.
  pub request_overrides-Gives :
      (platform : Platform) (registry : Registry)
      → IsClosed registry
      → Gives invocation_id (request_overrides request invocation_id platform registry)
  unfolding request_overrides overrides_from
  request_overrides-Gives platform registry closed =
      elim (Option-cases (lookup request.operation_ref registry.operations_by_ref)) [
        | inl missing ↦
            rw
              (
                resolve_operation_policy-missing registry request.operation_ref missing,
                request_overrides,
                overrides_from,
              )
              (_, (refl, request_failure FailureCode.unknown_entrypoint _))
        | inr (op, found) ↦
            let (policy, (same, _)) = closed.operations request.operation_ref op found in
            rw (same, request_overrides, overrides_from)
              (_, (refl, overrides_under-IsAnswer policy))
      ]

  missing_schema :
      (p : PolicyResolution)
      → IsAbout invocation_id (
          failure FailureCode.missing_schema_contract
            "structured-output operation requires a schema_contract_ref"
            (record (request_context request invocation_id) {
              policy_fingerprint = some p.policy_fingerprint;
            })
            [])
  missing_schema p = failure-IsAbout _ _ _ []

  schema_answer-IsAnswer :
      (mode : StructuredOutputMode) (p : PolicyResolution) (given : Option String)
      → IsAnswer invocation_id (schema_answer request invocation_id mode p given)
  unfolding schema_answer
  schema_answer-IsAnswer StructuredOutputMode.none p given = tt
  schema_answer-IsAnswer StructuredOutputMode.tool_call p given =
      unless-IsAnswer invocation_id (truthy_opt given) _ _ (missing_schema p)
  schema_answer-IsAnswer StructuredOutputMode.json_schema p given =
      unless-IsAnswer invocation_id (truthy_opt given) _ _ (missing_schema p)
  schema_answer-IsAnswer StructuredOutputMode.prompt_json p given =
      unless-IsAnswer invocation_id (truthy_opt given) _ _ (missing_schema p)

  pub schema_ref-Gives :
      (registry : Registry) (p : PolicyResolution) (policy : OperationRuntimePolicy)
      → resolve_operation_policy registry request.operation_ref ≡ ok policy
      → Gives invocation_id (schema_ref request invocation_id registry p)
  unfolding schema_ref
  schema_ref-Gives registry p policy at_policy =
      elim (Option-cases (lookup request.operation_ref registry.operations_by_ref)) [
        | inl missing ↦
            elim (ok-not-raise (
              sym (resolve_operation_policy-missing registry request.operation_ref missing)
              ∙ at_policy)) [ ]
        | inr (op, found) ↦
            rw (found, schema_ref)
              (_, (refl, schema_answer-IsAnswer p.effective_config.structured_output_mode p _))
      ]
