-- ===== src/Policy/Resolution/Total.antt =====
-- A closed registry resolves every policy, or gives a failure; it raises nothing.
use llm_endpoint.Prelude.{
  ◌≡◌, refl, inl, inr, String, true, Option, none, some, List, not, ◌&&◌, value_or, All,
  Option-cases, Bool-cases,
}
use llm_endpoint.Prelude.Text.{truthy}
use llm_endpoint.Prelude.Dict.{lookup}
use llm_endpoint.Prelude.Outcome.{Result, ok}
use llm_endpoint.Platform.{Platform}
use llm_endpoint.Results.{FailureCode, TypedFailure}
use llm_endpoint.Results.About.{IsAbout, MayFail, failure-IsAbout}
use llm_endpoint.Telemetry.{TelemetryEvent, forbidden_attribute_keys}
use llm_endpoint.Telemetry.Made.{telemetry_event-made}
use llm_endpoint.Config.{OperationRuntimePolicy, Registry}
use llm_endpoint.Config.Building.Built.{
  IsClosed, IsListed, resolve_role-missing, resolve_operation_policy-missing,
}
use llm_endpoint.Capabilities.{CapabilityCatalog}
use llm_endpoint.Policy.{CallerPolicyOverrides, EffectiveRuntimeConfig}
use llm_endpoint.Policy.Effective.{no_overrides, effective_config, provenance, policy_fingerprint}
use llm_endpoint.Policy.Limits.{operation_context}
use llm_endpoint.Policy.Limits.Total.{validate_effective_config-Checks}
use llm_endpoint.Policy.Resolution.{
  PolicyAnswer, resolved, unresolved, is_overriding, refused, on_key_error, resolution_event,
  accept_effective, judge_effective, with_policy, resolve_in,
}

-- a resolution, or a failure of the invocation
abbrev pub Answers : String → PolicyAnswer → Type 0
Answers id (resolved p) = Unit
Answers id (unresolved f) = IsAbout id f

abbrev pub Resolves : String → Result PolicyAnswer → Type 0
Resolves id x = (a : PolicyAnswer) × ((x ≡ ok a) × Answers id a)

module _ (platform : Platform) (role operation_ref invocation_id : String)
    (catalog : CapabilityCatalog) (named : truthy invocation_id ≡ true) where
  refused-Resolves :
      (code : FailureCode) (message : String)
      → Resolves invocation_id
          (ok (refused platform role operation_ref invocation_id catalog code message))
  unfolding refused
  refused-Resolves code message = (
    _,
    (refl, failure-IsAbout code message (operation_context role operation_ref invocation_id) _),
  )

  resolution_event-made :
      (registry : Registry) (uids : List String) (effective : EffectiveRuntimeConfig)
      (fingerprint : String)
      → (e : TelemetryEvent) × (resolution_event platform role operation_ref invocation_id catalog
            registry uids effective fingerprint
          ≡ ok e)
  unfolding resolution_event forbidden_attribute_keys
  resolution_event-made registry uids effective fingerprint =
      telemetry_event-made _ _ _ _ _ named refl

  accept_effective-Resolves :
      (registry : Registry) (uids : List String) (policy : OperationRuntimePolicy)
      (overrides : CallerPolicyOverrides) (effective : EffectiveRuntimeConfig)
      → Resolves invocation_id (
          accept_effective platform role operation_ref invocation_id catalog registry uids policy
            overrides effective)
  unfolding accept_effective
  accept_effective-Resolves registry uids policy overrides effective =
      let (e, made) = resolution_event-made registry uids effective (
        policy_fingerprint platform effective (provenance policy overrides) registry.config_identity
          role operation_ref uids) in
      rw (made, accept_effective) (_, (refl, tt))

  judge_effective-Resolves :
      (registry : Registry) (uids : List String) (policy : OperationRuntimePolicy)
      (overrides : CallerPolicyOverrides) (effective : EffectiveRuntimeConfig)
      (failed : Option TypedFailure)
      → MayFail invocation_id failed
      → Resolves invocation_id (
          judge_effective platform role operation_ref invocation_id catalog registry uids policy
            overrides effective failed)
  unfolding judge_effective
  judge_effective-Resolves registry uids policy overrides effective none h =
      accept_effective-Resolves registry uids policy overrides effective
  judge_effective-Resolves registry uids policy overrides effective (some f) h =
      (unresolved f, (refl, h.about f refl))

  with_policy-Resolves :
      (registry : Registry) (uids : List String) (overrides : CallerPolicyOverrides)
      (policy : OperationRuntimePolicy)
      → All (IsListed registry) uids
      → Resolves invocation_id (
          with_policy platform role operation_ref invocation_id catalog registry uids overrides
            policy)
  unfolding with_policy
  with_policy-Resolves registry uids overrides policy listed =
      let (failed, (checked, about)) =
        validate_effective_config-Checks role operation_ref invocation_id platform catalog registry
          uids (effective_config policy overrides) listed in
      elim (Bool-cases (is_overriding overrides && not policy.allow_caller_overrides)) [
        | inl refusal ↦ rw (refusal, with_policy) (refused-Resolves _ _)
        | inr allowed ↦
            rw (allowed, with_policy, checked)
              (judge_effective-Resolves registry uids policy overrides
                (effective_config policy overrides) failed about)
      ]

  pub resolve_in-Resolves :
      (registry : Registry) (overrides : Option CallerPolicyOverrides)
      → IsClosed registry
      → Resolves invocation_id
          (resolve_in platform role operation_ref invocation_id catalog registry overrides)
  unfolding resolve_in on_key_error
  resolve_in-Resolves registry overrides closed =
      elim (Option-cases (lookup role registry.roles_by_name)) [
        | inl missing ↦
            rw (resolve_role-missing registry role missing, resolve_in, on_key_error)
              (refused-Resolves FailureCode.unknown_role _)
        | inr (r, found) ↦
            let (at_role, (same, (_, (_, listed)))) = closed.roles role r found in
            elim (Option-cases (lookup operation_ref registry.operations_by_ref)) [
              | inl missing ↦
                  rw
                    (
                      same,
                      resolve_operation_policy-missing registry operation_ref missing,
                      resolve_in,
                      on_key_error,
                    )
                    (refused-Resolves FailureCode.unknown_entrypoint _)
              | inr (op, known) ↦
                  let (policy, (at_policy, _)) = closed.operations operation_ref op known in
                  rw (same, at_policy, resolve_in, on_key_error)
                    (with_policy-Resolves registry at_role.endpoint_uids
                      (value_or overrides no_overrides) policy listed)
            ]
      ]
