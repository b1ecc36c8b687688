-- ===== src/Policy/Resolution/Resolved.antt =====
-- What a resolution is that a resolver accepts.
use llm_endpoint.Prelude.{
  ◌≡◌, refl, ap, subst, ◌∙◌, inl, inr, String, Bool, true, false, Option, none, some, List, not,
  ◌&&◌, ◌||◌, is_some, value_or, Bool-cases,
}
use llm_endpoint.Prelude.Outcome.{Result, ok, raise, Error, ok-injective, >>=-eq-ok}
use llm_endpoint.Platform.{Platform}
use llm_endpoint.Results.{FailureCode, TypedFailure}
use llm_endpoint.Config.{OperationRuntimePolicy, ResolvedRole, Registry}
use llm_endpoint.Config.Building.{resolve_role, resolve_operation_policy}
use llm_endpoint.Capabilities.{CapabilityCatalog}
use llm_endpoint.Policy.{CallerPolicyOverrides, EffectiveRuntimeConfig, PolicyResolution}
use llm_endpoint.Policy.Effective.{no_overrides, effective_config, provenance, policy_fingerprint}
use llm_endpoint.Policy.Limits.{validate_effective_config}
use llm_endpoint.Policy.Limits.Within.{IsWithin, validate_effective_config-IsWithin}
use llm_endpoint.Policy.Resolution.{
  PolicyAnswer, resolved, unresolved, is_overriding, refused, on_key_error, resolution_event,
  accept_effective, judge_effective, with_policy, resolve_in,
}

resolved-injective : {p q : PolicyResolution} → resolved p ≡ resolved q → p ≡ q
resolved-injective h = cc

not_resolved : (f : TypedFailure) (p : PolicyResolution) → unresolved f ≡ resolved p → ⊥
not_resolved f p h = cc

and_not : (a b : Bool) → (a && not b) ≡ false → b ≡ false → a ≡ false
and_not a true h k = cc
and_not true false h k = cc
and_not false false h k = refl

is_none-of : {A : Type 0} (o : Option A) → is_some o ≡ false → o ≡ none
is_none-of none h = refl
is_none-of (some a) h = cc

or_false : (a b : Bool) → (a || b) ≡ false → (a ≡ false) × (b ≡ false)
or_false true b h = cc
or_false false b h = (refl, h)

-- Overrides that override nothing are the empty ones.
not_overriding : (o : CallerPolicyOverrides) → is_overriding o ≡ false → o ≡ no_overrides
not_overriding o h =
    let (d, h₁) = or_false (is_some o.deadline_ms) _ h in
    let (t, h₂) = or_false (is_some o.max_output_tokens) _ h₁ in
    let (r, b) = or_false (is_some o.reasoning_mode) _ h₂ in
    rw
      (
        is_none-of o.deadline_ms d,
        is_none-of o.max_output_tokens t,
        is_none-of o.reasoning_mode r,
        is_none-of o.candidate_budget_ms b,
      )
      refl

module _ (platform : Platform) (role operation_ref invocation_id : String)
    (catalog : CapabilityCatalog) where
  -- A resolution of a role and an operation by a registry, with what a caller overrides: the role's endpoints, and
  -- the operation's policy with the overrides, within every limit. Where the policy does not allow overrides,
  -- there are none.
  pub record IsResolution (registry : Registry) (overrides : CallerPolicyOverrides)
      (p : PolicyResolution) : Type 0 where
    pub resolved_role : ResolvedRole
    pub policy : OperationRuntimePolicy
    pub at_role : resolve_role registry role ≡ ok resolved_role
    pub at_policy : resolve_operation_policy registry operation_ref ≡ ok policy
    pub of_role : p.role ≡ role
    pub of_operation : p.operation_ref ≡ operation_ref
    pub endpoints : p.endpoint_uids ≡ resolved_role.endpoint_uids
    pub effective : p.effective_config ≡ effective_config policy overrides
    pub kept :
        policy.allow_caller_overrides ≡ false
        → p.effective_config ≡ effective_config policy no_overrides
    pub within : IsWithin registry catalog p.effective_config p.endpoint_uids
    pub sources : p.provenance ≡ provenance policy overrides
    pub identity : p.config_identity ≡ registry.config_identity
    pub fingerprint :
        p.policy_fingerprint
        ≡ policy_fingerprint platform p.effective_config p.provenance registry.config_identity role
            operation_ref p.endpoint_uids

  on_key_error-resolved :
      {A : Type 0} (code : FailureCode) (step : Result A) (next : A → Result PolicyAnswer)
      (p : PolicyResolution)
      → on_key_error platform role operation_ref invocation_id catalog code step next
        ≡ ok (resolved p)
      → (a : A) × ((step ≡ ok a) × (next a ≡ ok (resolved p)))
  unfolding on_key_error refused
  on_key_error-resolved code (ok a) next p h = (a, (refl, h))
  on_key_error-resolved code (raise (Error.key_error message)) next p h = cc
  on_key_error-resolved code (raise (Error.value_error m)) next p h = cc
  on_key_error-resolved code (raise (Error.index_error m)) next p h = cc
  on_key_error-resolved code (raise (Error.type_error m)) next p h = cc
  on_key_error-resolved code (raise (Error.attribute_error m)) next p h = cc
  on_key_error-resolved code (raise (Error.callback_error m)) next p h = cc

  judge_effective-resolved :
      (registry : Registry) (uids : List String) (policy : OperationRuntimePolicy)
      (overrides : CallerPolicyOverrides) (effective : EffectiveRuntimeConfig)
      (failed : Option TypedFailure) (p : PolicyResolution)
      → judge_effective platform role operation_ref invocation_id catalog registry uids policy
          overrides effective failed
        ≡ ok (resolved p)
      → (failed ≡ none)
        × (accept_effective platform role operation_ref invocation_id catalog registry uids policy
              overrides effective
            ≡ ok (resolved p))
  unfolding judge_effective
  judge_effective-resolved registry uids policy overrides effective none p h = (refl, h)
  judge_effective-resolved registry uids policy overrides effective (some f) p h = cc

  with_policy-IsResolution :
      (registry : Registry) (r : ResolvedRole) (overrides : CallerPolicyOverrides)
      (policy : OperationRuntimePolicy) (p : PolicyResolution)
      → resolve_role registry role ≡ ok r
      → resolve_operation_policy registry operation_ref ≡ ok policy
      → with_policy platform role operation_ref invocation_id catalog registry r.endpoint_uids
          overrides policy
        ≡ ok (resolved p)
      → IsResolution registry overrides p
  unfolding with_policy refused accept_effective
  with_policy-IsResolution registry r overrides policy p at_role at_policy h =
      let effective = effective_config policy overrides in
      elim (Bool-cases (is_overriding overrides && not policy.allow_caller_overrides)) [
        | inl refusal ↦
            elim (not_resolved _ p (ok-injective (rw (refusal, with_policy, refused) at h))) [ ]
        | inr allowed ↦
            let (failed, checked, h₁) =
              >>=-eq-ok
                (validate_effective_config role operation_ref invocation_id platform catalog
                  registry r.endpoint_uids effective)
                _ (rw (allowed, with_policy) at h) in
            let (fine, h₂) =
              judge_effective-resolved registry r.endpoint_uids policy overrides effective failed p
                h₁ in
            let (event, made, h₃) =
              >>=-eq-ok
                (resolution_event platform role operation_ref invocation_id catalog registry
                  r.endpoint_uids effective _)
                _ h₂ in
            subst (IsResolution registry overrides) (resolved-injective (ok-injective h₃)) (record {
              resolved_role = r;
              policy = policy;
              at_role = at_role;
              at_policy = at_policy;
              of_role = refl;
              of_operation = refl;
              endpoints = refl;
              effective = refl;
              kept = λ closed. ap (effective_config policy) (
                  not_overriding overrides (
                    and_not (is_overriding overrides) policy.allow_caller_overrides allowed
                      closed));
              within =
                  validate_effective_config-IsWithin role operation_ref invocation_id platform
                    registry catalog r.endpoint_uids effective (checked ∙ ap ok fine);
              sources = refl;
              identity = refl;
              fingerprint = refl;
            })
      ]

  -- A resolution that a resolver accepts is that of the role's endpoints and of the operation's policy with the
  -- caller's overrides, which are empty where the policy does not allow them; its deadline, tokens and budget are
  -- positive, its single budgets are those of its endpoints, positive and within the deadline; the catalog has a
  -- profile for each endpoint, whose limits are kept and which supports the modes.
  pub resolve_in-IsResolution :
      (registry : Registry) (overrides : Option CallerPolicyOverrides) (p : PolicyResolution)
      → resolve_in platform role operation_ref invocation_id catalog registry overrides
        ≡ ok (resolved p)
      → IsResolution registry (value_or overrides no_overrides) p
  unfolding resolve_in
  resolve_in-IsResolution registry overrides p h =
      let (r, (at_role, h₁)) =
        on_key_error-resolved FailureCode.unknown_role (resolve_role registry role) _ p h in
      let (policy, (at_policy, h₂)) =
        on_key_error-resolved FailureCode.unknown_entrypoint
          (resolve_operation_policy registry operation_ref) _ p h₁ in
      with_policy-IsResolution registry r (value_or overrides no_overrides) policy p at_role
        at_policy h₂
