-- ===== src/Invocation/Requests/Checked.antt =====
-- What a request is that passes its checks, and the deadline that its overrides ask for.
use llm_endpoint.Prelude.{
  ◌≡◌, refl, sym, ap, subst, ◌⊎◌, inl, inr, ℕ, suc, String, Bool, true, false, Option, none, some,
  List, [], ◌∷◌, not, ◌&&◌, is_empty, value_or, if-none, if◌then◌else◌, All, Bool-cases,
  Option-cases, arith,
}
use llm_endpoint.Prelude.Int.{ℤ, pos, negsuc, leb_ℤ, ◌≤ℤ◌}
use llm_endpoint.Prelude.Text.{truthy, truthy_opt}
use llm_endpoint.Prelude.Dict.{lookup, has_key}
use llm_endpoint.Prelude.Outcome.{Result, ok, raise, Error, ok-injective}
use llm_endpoint.Values.{Value, null, bool, int, float, str, list, tuple, mapping, fields, int_eq}
use llm_endpoint.Platform.{Platform}
use llm_endpoint.Results.{TypedFailure}
use llm_endpoint.Config.{Registry, OperationRuntimePolicy, StructuredOutputMode}
use llm_endpoint.Config.Building.{resolve_operation_policy}
use llm_endpoint.Policy.{CallerPolicyOverrides, PolicyResolution}
use llm_endpoint.Policy.Effective.{no_overrides}
use llm_endpoint.Invocation.{InvocationRequest}
use llm_endpoint.Invocation.Requests.{
  accepted, refused, differs, first_of, ref_or, messages_failure, validate_request,
  merged_overrides, overrides_under, overrides_from, request_overrides, schema_answer, schema_ref,
}

-- a mapping with a role and a content
abbrev pub IsMessage : Value → Type 0
IsMessage (mapping m) = (has_key "role" (fields m) ≡ true) × (has_key "content" (fields m) ≡ true)
IsMessage _ = ⊥

and_true : (a b : Bool) → (a && b) ≡ true → (a ≡ true) × (b ≡ true)
and_true true b h = (refl, h)
and_true false b h = cc

not-false : (b : Bool) → not b ≡ false → b ≡ true
not-false true h = refl
not-false false h = cc

positive : (n : ℤ) → leb_ℤ n (pos 0) ≡ false → pos 1 ≤ℤ n
positive (pos n) h = ground arith
positive (negsuc n) h = ground arith

int_eq-eq : (m n : ℤ) → int_eq m n ≡ true → m ≡ n
int_eq-eq (pos m) (pos n) h = ap pos (ground arith)
int_eq-eq (negsuc m) (negsuc n) h = ap negsuc (ground arith)
int_eq-eq (pos m) (negsuc n) h = cc
int_eq-eq (negsuc m) (pos n) h = cc

some-not-none : {f : TypedFailure} → some f ≡ none → ⊥
some-not-none h = cc

module _ {A : Type 0} where
  refused-not-accepted : {f : TypedFailure} {a : A} → refused f ≡ accepted a → ⊥
  refused-not-accepted h = cc

  accepted-injective : {a b : A} → accepted a ≡ accepted b → a ≡ b
  accepted-injective h = cc

  raise-not-ok : {e : Error} {a : A} → raise e ≡ ok a → ⊥
  raise-not-ok h = cc

module _ {W : Type 0} (request : InvocationRequest W) (invocation_id : String) where
  messages_failure-none :
      (index : ℕ) (messages : List Value)
      → messages_failure request invocation_id index messages ≡ none
      → All IsMessage messages
  unfolding messages_failure
  messages_failure-none index [] h = tt
  messages_failure-none index (mapping m ∷ messages) h =
      elim (Bool-cases (has_key "role" (fields m) && has_key "content" (fields m))) [
        | inl keys ↦ (
          and_true (has_key "role" (fields m)) (has_key "content" (fields m)) keys,
          messages_failure-none (suc index) messages (rw (keys, messages_failure) at h),
        )
        | inr missing ↦ elim (some-not-none (rw (missing, messages_failure) at h)) [ ]
      ]
  messages_failure-none index (null ∷ messages) h = cc
  messages_failure-none index (bool b ∷ messages) h = cc
  messages_failure-none index (int n ∷ messages) h = cc
  messages_failure-none index (float m s ∷ messages) h = cc
  messages_failure-none index (str s ∷ messages) h = cc
  messages_failure-none index (list vs ∷ messages) h = cc
  messages_failure-none index (tuple vs ∷ messages) h = cc

  -- A request that passes: it names a role and an operation, has time, and its messages, of which there is one at
  -- least, have a role and a content.
  pub record IsRequest : Type 0 where
    pub role : truthy request.role ≡ true
    pub operation : truthy request.operation_ref ≡ true
    pub deadline : pos 1 ≤ℤ request.deadline_ms
    pub any_message : is_empty request.messages ≡ false
    pub messages : All IsMessage request.messages

  pub validate_request-IsRequest : validate_request request invocation_id ≡ none → IsRequest
  unfolding validate_request
  validate_request-IsRequest h =
      let (role, h₁) = if-none (not (truthy request.role)) _ _ h in
      let (operation, h₂) = if-none (not (truthy request.operation_ref)) _ _ h₁ in
      let (deadline, h₃) = if-none (leb_ℤ request.deadline_ms (pos 0)) _ _ h₂ in
      let (any, h₄) = if-none (is_empty request.messages) _ _ h₃ in
      record {
        role = not-false (truthy request.role) role;
        operation = not-false (truthy request.operation_ref) operation;
        deadline = positive request.deadline_ms deadline;
        any_message = any;
        messages = messages_failure-none 0 request.messages h₄;
      }

  merged-deadline :
      (base : CallerPolicyOverrides) (policy : OperationRuntimePolicy)
      → differs base.deadline_ms request.deadline_ms ≡ false
      → value_or (merged_overrides request invocation_id base policy).deadline_ms policy.deadline_ms
        ≡ request.deadline_ms
  unfolding merged_overrides
  merged-deadline base policy h = merged base.deadline_ms h
    where
      merged :
          (o : Option ℤ)
          → differs o request.deadline_ms ≡ false
          → value_or
              (first_of o (
                if int_eq request.deadline_ms policy.deadline_ms
                then none
                else some request.deadline_ms))
              policy.deadline_ms
            ≡ request.deadline_ms
      merged (some d) k =
          int_eq-eq d request.deadline_ms (not-false (int_eq d request.deadline_ms) k)
      merged none k = elim (Bool-cases (int_eq request.deadline_ms policy.deadline_ms)) [
        | inl e ↦ rw e (sym (int_eq-eq request.deadline_ms policy.deadline_ms e))
        | inr e ↦ rw e refl
      ]

  overrides_under-accepted :
      (policy : OperationRuntimePolicy) (o : CallerPolicyOverrides)
      → overrides_under request invocation_id policy ≡ accepted o
      → value_or o.deadline_ms policy.deadline_ms ≡ request.deadline_ms
  unfolding overrides_under
  overrides_under-accepted policy o h =
      let base = value_or request.caller_overrides no_overrides in
      elim (Bool-cases (differs base.deadline_ms request.deadline_ms)) [
        | inl apart ↦ elim (refused-not-accepted (rw (apart, overrides_under) at h)) [ ]
        | inr agreed ↦
            subst
              (λ (p : CallerPolicyOverrides).
                value_or p.deadline_ms policy.deadline_ms ≡ request.deadline_ms)
              (accepted-injective (rw (agreed, overrides_under) at h))
              (merged-deadline base policy agreed)
      ]

  overrides_from-accepted :
      (platform : Platform) (step : Result OperationRuntimePolicy) (o : CallerPolicyOverrides)
      → overrides_from request invocation_id platform step ≡ ok (accepted o)
      → (policy : OperationRuntimePolicy) × ((step ≡ ok policy)
          × (value_or o.deadline_ms policy.deadline_ms ≡ request.deadline_ms))
  unfolding overrides_from
  overrides_from-accepted platform (ok policy) o h =
      (policy, (refl, overrides_under-accepted policy o (ok-injective h)))
  overrides_from-accepted platform (raise (Error.key_error m)) o h = cc
  overrides_from-accepted platform (raise (Error.value_error m)) o h = cc
  overrides_from-accepted platform (raise (Error.index_error m)) o h = cc
  overrides_from-accepted platform (raise (Error.type_error m)) o h = cc
  overrides_from-accepted platform (raise (Error.attribute_error m)) o h = cc
  overrides_from-accepted platform (raise (Error.callback_error m)) o h = cc

  -- Overrides that are accepted ask for the request's deadline, under the operation's policy.
  pub request_overrides-deadline :
      (platform : Platform) (registry : Registry) (o : CallerPolicyOverrides)
      → request_overrides request invocation_id platform registry ≡ ok (accepted o)
      → (policy : OperationRuntimePolicy) × ((resolve_operation_policy registry
              request.operation_ref
            ≡ ok policy)
          × (value_or o.deadline_ms policy.deadline_ms ≡ request.deadline_ms))
  unfolding request_overrides
  request_overrides-deadline platform registry o h =
      overrides_from-accepted platform (resolve_operation_policy registry request.operation_ref) o h

  -- A reference is not needed, or is there.
  abbrev pub IsReferenced : StructuredOutputMode → Option String → Type 0
  IsReferenced mode ref = (mode ≡ StructuredOutputMode.none) ⊎ (truthy_opt ref ≡ true)

  required_ref :
      (mode : StructuredOutputMode) (f : TypedFailure) (ref given : Option String)
      → (if truthy_opt given then accepted given else refused f) ≡ accepted ref
      → IsReferenced mode ref
  required_ref mode f ref given h = elim (Bool-cases (truthy_opt given)) [
    | inl there ↦ inr (subst (λ o. truthy_opt o ≡ true) (accepted-injective (rw there at h)) there)
    | inr missing ↦ elim (refused-not-accepted (rw missing at h)) [ ]
  ]

  schema_answer-accepted :
      (mode : StructuredOutputMode) (p : PolicyResolution) (given ref : Option String)
      → schema_answer request invocation_id mode p given ≡ accepted ref
      → IsReferenced mode ref
  unfolding schema_answer
  schema_answer-accepted StructuredOutputMode.none p given ref h = inl refl
  schema_answer-accepted StructuredOutputMode.tool_call p given ref h = required_ref _ _ ref given h
  schema_answer-accepted StructuredOutputMode.json_schema p given ref h =
      required_ref _ _ ref given h
  schema_answer-accepted StructuredOutputMode.prompt_json p given ref h =
      required_ref _ _ ref given h

  pub schema_ref-IsReferenced :
      (registry : Registry) (p : PolicyResolution) (ref : Option String)
      → schema_ref request invocation_id registry p ≡ ok (accepted ref)
      → IsReferenced p.effective_config.structured_output_mode ref
  unfolding schema_ref
  schema_ref-IsReferenced registry p ref h =
      elim (Option-cases (lookup request.operation_ref registry.operations_by_ref)) [
        | inl missing ↦ elim (raise-not-ok (rw (missing, schema_ref) at h)) [ ]
        | inr (op, found) ↦
            schema_answer-accepted p.effective_config.structured_output_mode p
              (ref_or request.schema_contract_ref op.schema_contract_ref) ref
              (ok-injective (rw (found, schema_ref) at h))
      ]
