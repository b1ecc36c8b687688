-- ===== src/Policy/Resolution.antt =====
-- policy.py: `resolve_policy`.
pub mod Resolved
pub mod Total
use llm_endpoint.Prelude.{
  String, Bool, true, false, Option, none, some, List, [], ◌∷◌, ◌&&◌, ◌||◌, not, length, value_or,
  is_some, if◌then◌else◌,
}
use llm_endpoint.Prelude.Text.{nat_str}
use llm_endpoint.Prelude.Outcome.{Result, ok, raise, Error, ◌>>=◌}
use llm_endpoint.Platform.{Platform}
use llm_endpoint.Results.{FailureCode, TypedFailure, failure}
use llm_endpoint.Telemetry.{
  TelemetryEvent, TelemetryEventFamily, RedactionStatus, telemetry_event, event_context,
}
use llm_endpoint.Config.{LlmEndpointConfig, OperationRuntimePolicy, ResolvedRole, Registry}
use llm_endpoint.Config.Building.{build_registry, resolve_role, resolve_operation_policy}
use llm_endpoint.Capabilities.{CapabilityCatalog}
use llm_endpoint.Policy.{CallerPolicyOverrides, EffectiveRuntimeConfig, PolicyResolution}
use llm_endpoint.Policy.Effective.{no_overrides, effective_config, provenance, policy_fingerprint}
use llm_endpoint.Policy.Limits.{operation_context, validate_effective_config}

-- `PolicyResolution | TypedFailure`
pub data PolicyAnswer : Type 0 where
  resolved : PolicyResolution → PolicyAnswer
  unresolved : TypedFailure → PolicyAnswer

-- `overrides != CallerPolicyOverrides()`
abbrev pub is_overriding : CallerPolicyOverrides → Bool
is_overriding o =
    is_some o.deadline_ms
    || (is_some o.max_output_tokens || (is_some o.reasoning_mode || is_some o.candidate_budget_ms))

module _ (platform : Platform) (role operation_ref invocation_id : String)
    (catalog : CapabilityCatalog) where
  pub refused : FailureCode → String → PolicyAnswer
  unfolding failure
  refused code message =
      unresolved (failure code message (operation_context role operation_ref invocation_id) [])

  -- `except KeyError`; the text of a KeyError is the `repr` of its message
  on_key_error :
      {A : Type 0} → FailureCode → Result A → (A → Result PolicyAnswer) → Result PolicyAnswer
  unfolding refused
  on_key_error code (ok a) next = next a
  on_key_error code (raise (Error.key_error message)) next =
      ok (refused code (platform.text_repr message))
  on_key_error code (raise e) next = raise e

  resolution_event :
      Registry → List String → EffectiveRuntimeConfig → String → Result TelemetryEvent
  unfolding nat_str
  resolution_event registry uids effective fingerprint =
      telemetry_event TelemetryEventFamily.policy_resolved
        (record (event_context invocation_id) {
          role = some role;
          operation_ref = some operation_ref;
          policy_fingerprint = some fingerprint;
        })
        (("config_identity", registry.config_identity)
          ∷ (
            "candidate_budget_overrides_count",
            nat_str (length (value_or effective.candidate_budget_overrides_ms [])),
          )
          ∷ ("endpoint_count", nat_str (length uids))
          ∷ ("policy_resolver_version", "v1")
          ∷ [])
        none RedactionStatus.redacted

  -- from an effective configuration without failure on
  accept_effective :
      Registry
      → List String
      → OperationRuntimePolicy
      → CallerPolicyOverrides
      → EffectiveRuntimeConfig
      → Result PolicyAnswer
  unfolding provenance policy_fingerprint resolution_event
  accept_effective registry uids policy overrides effective =
      let sources = provenance policy overrides in
      let fingerprint =
        policy_fingerprint platform effective sources registry.config_identity role operation_ref
          uids in
      resolution_event registry uids effective fingerprint >>= λ event. ok (
        resolved (record {
          role = role;
          operation_ref = operation_ref;
          endpoint_uids = uids;
          effective_config = effective;
          provenance = sources;
          policy_fingerprint = fingerprint;
          config_identity = registry.config_identity;
          telemetry = event;
        }))

  judge_effective :
      Registry
      → List String
      → OperationRuntimePolicy
      → CallerPolicyOverrides
      → EffectiveRuntimeConfig
      → Option TypedFailure
      → Result PolicyAnswer
  unfolding accept_effective
  judge_effective registry uids policy overrides effective (some f) = ok (unresolved f)
  judge_effective registry uids policy overrides effective none =
      accept_effective registry uids policy overrides effective

  -- from the operation's policy on
  with_policy :
      Registry → List String → CallerPolicyOverrides → OperationRuntimePolicy → Result PolicyAnswer
  unfolding effective_config validate_effective_config judge_effective refused
  with_policy registry uids overrides policy =
      let effective = effective_config policy overrides in
      if is_overriding overrides && not policy.allow_caller_overrides
      then ok (
          refused FailureCode.unsupported_runtime_knob
            "caller overrides are not allowed for this operation policy")
      else validate_effective_config role operation_ref invocation_id platform catalog registry uids
          effective
        >>= λ failed. judge_effective registry uids policy overrides effective failed

  -- `resolve_policy`, with a registry
  unfoldable pub resolve_in : Registry → Option CallerPolicyOverrides → Result PolicyAnswer
  unfolding resolve_role resolve_operation_policy on_key_error with_policy
  resolve_in registry overrides =
      on_key_error FailureCode.unknown_role (resolve_role registry role) (λ (r : ResolvedRole).
        on_key_error FailureCode.unknown_entrypoint
          (resolve_operation_policy registry operation_ref)
          (λ (policy : OperationRuntimePolicy).
            with_policy registry r.endpoint_uids (value_or overrides no_overrides) policy))

  unfoldable pub resolve_policy :
      Option LlmEndpointConfig
      → Option Registry
      → Option CallerPolicyOverrides
      → Result PolicyAnswer
  unfolding resolve_in build_registry
  resolve_policy config (some registry) overrides = resolve_in registry overrides
  resolve_policy none none overrides = raise (Error.value_error "config or registry is required")
  resolve_policy (some c) none overrides =
      build_registry platform c (some catalog) >>= λ registry. resolve_in registry overrides
