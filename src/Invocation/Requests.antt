-- ===== src/Invocation/Requests.antt =====
-- invocation.py: the checks of a request, before and after its policy is resolved.
pub mod Checked
pub mod Total
use Prim.Native.String.{◌++◌ as ◌+++◌}
use llm_endpoint.Prelude.{
  ℕ, suc, String, Bool, true, false, Option, none, some, List, [], ◌∷◌, not, is_empty, is_some,
  value_or, if◌then◌else◌, ◌&&◌,
}
use llm_endpoint.Prelude.Int.{ℤ, pos, leb_ℤ}
use llm_endpoint.Prelude.Text.{truthy, truthy_opt, or_none, nat_str}
use llm_endpoint.Prelude.Dict.{Dict, lookup, has_key}
use llm_endpoint.Prelude.Outcome.{Result, ok, raise, Error}
use llm_endpoint.Values.{Value, mapping, fields, int_eq}
use llm_endpoint.Platform.{Platform}
use llm_endpoint.Results.{FailureCode, FailureContext, TypedFailure, failure, for_invocation}
use llm_endpoint.Config.{Registry, OperationRuntimePolicy, StructuredOutputMode}
use llm_endpoint.Config.Building.{resolve_operation_policy}
use llm_endpoint.Policy.{CallerPolicyOverrides, PolicyResolution}
use llm_endpoint.Policy.Effective.{no_overrides}
use llm_endpoint.Policy.Limits.{operation_context}
use llm_endpoint.Invocation.{InvocationRequest}

-- `A | TypedFailure`
pub data Answer {ℓ} (A : Type ℓ) : Type ℓ where
  accepted : A → Answer A
  refused : TypedFailure → Answer A

-- `o is not None and o != n`
abbrev pub differs : Option ℤ → ℤ → Bool
differs none n = false
differs (some m) n = not (int_eq m n)

-- `o if o is not None else p`, where both may be None
abbrev pub first_of : Option ℤ → Option ℤ → Option ℤ
first_of none p = p
first_of (some n) p = some n

-- `s or t`, where both may be None
abbrev pub ref_or : Option String → Option String → Option String
ref_or s t = if truthy_opt s then s else t

module _ {W : Type 0} (request : InvocationRequest W) (invocation_id : String) where
  -- what most failures say of the request
  abbrev pub request_context : FailureContext
  request_context = operation_context request.role request.operation_ref invocation_id

  -- `_invalid_message`
  unfoldable pub invalid_message : ℕ → String → TypedFailure
  unfolding failure nat_str
  invalid_message index message =
      failure FailureCode.invalid_messages message request_context
        (("message_index", nat_str index) ∷ [])

  -- the loop over the messages
  pub messages_failure : ℕ → List Value → Option TypedFailure
  unfolding invalid_message lookup
  messages_failure index [] = none
  messages_failure index (mapping m ∷ messages) =
      let later = messages_failure (suc index) messages in
      if has_key "role" (fields m) && has_key "content" (fields m)
      then later
      else some (invalid_message index "message requires role and content keys")
  messages_failure index (_ ∷ messages) = some (invalid_message index "message must be a mapping")

  -- `_validate_request`
  unfoldable pub validate_request : Option TypedFailure
  unfolding failure messages_failure
  validate_request =
      if not (truthy request.role)
      then some (
          failure FailureCode.unknown_role "role is required"
            (record (for_invocation invocation_id) {
              operation_ref = or_none request.operation_ref;
            })
            [])
      else if not (truthy request.operation_ref)
      then some (
          failure FailureCode.operation_ref_required "operation_ref is required"
            (record (for_invocation invocation_id) { role = some request.role }) [])
      else if leb_ℤ request.deadline_ms (pos 0)
      then some
          (failure FailureCode.budget_violation "deadline_ms must be positive" request_context [])
      else if is_empty request.messages
      then some (
          failure FailureCode.invalid_messages "messages must contain at least one entry"
            request_context [])
      else messages_failure 0 request.messages

  -- the overrides of a request, whose deadline is one where it differs from the policy's
  merged_overrides : CallerPolicyOverrides → OperationRuntimePolicy → CallerPolicyOverrides
  merged_overrides base policy =
      let deadline =
        if int_eq request.deadline_ms policy.deadline_ms then none else some request.deadline_ms in
      record base { deadline_ms = first_of base.deadline_ms deadline }

  overrides_under : OperationRuntimePolicy → Answer CallerPolicyOverrides
  unfolding failure merged_overrides
  overrides_under policy =
      let base = value_or request.caller_overrides no_overrides in
      if differs base.deadline_ms request.deadline_ms
      then refused (
          failure FailureCode.unsupported_runtime_knob
            "deadline_ms must match caller_overrides.deadline_ms when both are supplied"
            request_context [])
      else accepted (merged_overrides base policy)

  -- `except KeyError`
  overrides_from : Platform → Result OperationRuntimePolicy → Result (Answer CallerPolicyOverrides)
  unfolding overrides_under failure
  overrides_from platform (ok policy) = ok (overrides_under policy)
  overrides_from platform (raise (Error.key_error message)) = ok (
      refused
        (failure FailureCode.unknown_entrypoint (platform.text_repr message) request_context []))
  overrides_from platform (raise e) = raise e

  -- `_request_overrides`
  unfoldable pub request_overrides : Platform → Registry → Result (Answer CallerPolicyOverrides)
  unfolding overrides_from resolve_operation_policy
  request_overrides platform registry =
      overrides_from platform (resolve_operation_policy registry request.operation_ref)

  schema_answer : StructuredOutputMode → PolicyResolution → Option String → Answer (Option String)
  unfolding failure
  schema_answer StructuredOutputMode.none resolution ref = accepted ref
  schema_answer _ resolution ref =
      if truthy_opt ref
      then accepted ref
      else refused (
          failure FailureCode.missing_schema_contract
            "structured-output operation requires a schema_contract_ref"
            (record request_context { policy_fingerprint = some resolution.policy_fingerprint }) [])

  -- `_schema_ref`
  unfoldable pub schema_ref : Registry → PolicyResolution → Result (Answer (Option String))
  unfolding lookup schema_answer
  schema_ref registry resolution = elim (lookup request.operation_ref registry.operations_by_ref) [
    | none ↦ raise (Error.key_error request.operation_ref)
    | some operation ↦ ok (
        schema_answer resolution.effective_config.structured_output_mode resolution
          (ref_or request.schema_contract_ref operation.schema_contract_ref))
  ]
