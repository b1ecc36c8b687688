-- ===== src/Invocation/Planning/Total.antt =====
-- `invoke_plan` returns a plan or a failure; it raises nothing.
use Prim.Native.String.{◌++◌ as ◌+++◌, count}
use Prim.Native.Nat.{◌+◌}
use text.Mathlib.TextLemmas.{length-append}
use llm_endpoint.Prelude.{
  ◌≡◌, refl, sym, ap, subst, ◌∙◌, inl, inr, String, Bool, true, false, Option, none, some, [], ◌∷◌,
  value_or, Option-cases, Bool-cases, ◌==◌, eq_iff, arith,
}
use llm_endpoint.Prelude.Int.{ℤ, pos, leb_ℤ, ◌≤ℤ◌}
use llm_endpoint.Prelude.Text.{truthy, truthy_opt}
use llm_endpoint.Prelude.Outcome.{Result, ok, raise}
use llm_endpoint.Platform.{Platform}
use llm_endpoint.Results.{FailureCode, TypedFailure, failure}
use llm_endpoint.Results.About.{IsAbout, failure-IsAbout}
use llm_endpoint.Telemetry.{TelemetryEvent, forbidden_attribute_keys}
use llm_endpoint.Telemetry.Made.{telemetry_event-made}
use llm_endpoint.Telemetry.Emitting.{Run, emit_events}
use llm_endpoint.Config.{LlmEndpointConfig, Registry}
use llm_endpoint.Config.Errors.{ConfigValidationReport}
use llm_endpoint.Config.Validation.{validate_config}
use llm_endpoint.Config.Validation.Decides.{validate_config-IsWellFormed}
use llm_endpoint.Config.Building.{registry_of}
use llm_endpoint.Config.Building.Built.{IsClosed, build_registry-ok, build_registry-IsClosed}
use llm_endpoint.Config.Identity.{config_identity}
use llm_endpoint.Capabilities.{CapabilityCatalog}
use llm_endpoint.Policy.{CallerPolicyOverrides, PolicyResolution}
use llm_endpoint.Policy.Resolution.{PolicyAnswer, resolved, unresolved, resolve_in, resolve_policy}
use llm_endpoint.Policy.Resolution.Resolved.{resolve_in-IsResolution}
use llm_endpoint.Policy.Resolution.Total.{Resolves, resolve_in-Resolves}
use llm_endpoint.Invocation.{InvocationRequest, InvocationPlan, invocation_plan}
use llm_endpoint.Invocation.Requests.{
  Answer, accepted, refused, request_context, validate_request, request_overrides, schema_ref,
}
use llm_endpoint.Invocation.Requests.Checked.{validate_request-IsRequest}
use llm_endpoint.Invocation.Requests.Total.{
  Gives, validate_request-MayFail, request_overrides-Gives, schema_ref-Gives,
}
use llm_endpoint.Invocation.Planning.{
  Planned, refusal_event, answered, refuse, planned_with, finished, with_schema_ref,
  emitted_resolution, with_resolution, with_overrides, plan_in, invalid_configuration, after_report,
  missing_registry, validated_event, emitted_validation, plan_config, plan_for, checked_request,
  plan_invocation, invocation_id_of, invoke_plan,
}

refusal_event-made :
    (id : String) (f : TypedFailure)
    → truthy id ≡ true
    → IsAbout id f
    → (e : TelemetryEvent) × (refusal_event f ≡ ok e)
unfolding refusal_event forbidden_attribute_keys
refusal_event-made id f named about =
    let (retryability, classified) = about.classified in
    rw (classified, refusal_event)
      (telemetry_event-made _ _ _ _ _ (subst (λ s. truthy s ≡ true) (sym about.of_invocation) named)
        refl)

-- The registry, if it is given, is closed.
abbrev pub IsClosedIfGiven : Option Registry → Type 0
IsClosedIfGiven none = Unit
IsClosedIfGiven (some registry) = IsClosed registry

timed : (n : ℤ) → pos 1 ≤ℤ n → leb_ℤ n (pos 0) ≡ false
timed n h = ground arith

-- A new identifier is not empty.
inv_not_empty : (hex : String) → "inv-" +++ hex ≡ "" → ⊥
inv_not_empty hex h = too_long (sym (length-append "inv-" hex) ∙ ap count h)
  where
    too_long : 4 + count hex ≡ 0 → ⊥
    too_long k = omega arith

new_id_named : (hex : String) → truthy ("inv-" +++ hex) ≡ true
new_id_named hex = elim (Bool-cases ("inv-" +++ hex == "")) [
  | inl empty ↦ elim (inv_not_empty hex ((eq_iff ("inv-" +++ hex) "").0 empty)) [ ]
  | inr text ↦ rw text refl
]

truthy_value : (o : Option String) → truthy_opt o ≡ true → truthy (value_or o "") ≡ true
truthy_value none h = cc
truthy_value (some s) h = h

module _ {W : Type 0} where
  -- a plan or a failure, and no exception
  abbrev pub Returns : Planned W → Type 0
  Returns x = (a : Answer (InvocationPlan W)) × (x.0 ≡ ok a)

  -- an event that is built is emitted
  emit_one :
      (x : Result TelemetryEvent) (e : TelemetryEvent) (r : Run W)
      → x ≡ ok e
      → (emit_events (x ∷ []) r).0 ≡ ok tt
  unfolding emit_events
  emit_one x e r made = rw (made, emit_events) refl

  answered-Returns :
      (a : Answer (InvocationPlan W)) (out : Result (Unit {0}) × Run W)
      → out.0 ≡ ok tt
      → Returns (answered a out)
  unfolding answered
  answered-Returns a (ok _, r) h = (a, refl)
  answered-Returns a (raise e, r) h = cc

  refuse-Returns :
      (id : String) (f : TypedFailure) (r : Run W)
      → truthy id ≡ true
      → IsAbout id f
      → Returns (refuse f r)
  unfolding refuse
  refuse-Returns id f r named about =
      let (e, made) = refusal_event-made id f named about in
      answered-Returns (refused f) (emit_events (refusal_event f ∷ []) r)
        (emit_one (refusal_event f) e r made)

module _ {W : Type 0} (platform : Platform) (catalog : CapabilityCatalog)
    (request : InvocationRequest W) (invocation_id : String)
    (named : truthy invocation_id ≡ true) where
  planned_with-ok :
      (p : PolicyResolution) (ref : Option String) (r : Run W)
      → leb_ℤ request.deadline_ms (pos 0) ≡ false
      → (plan : InvocationPlan W) × (planned_with platform catalog request invocation_id p ref r
          ≡ ok plan)
  unfolding planned_with invocation_plan
  planned_with-ok p ref r timed = rw (named, timed, planned_with, invocation_plan) (_, refl)

  with_schema_ref-Returns :
      (p : PolicyResolution) (x : Result (Answer (Option String))) (r : Run W)
      → leb_ℤ request.deadline_ms (pos 0) ≡ false
      → Gives invocation_id x
      → Returns (with_schema_ref platform catalog request invocation_id p x r)
  unfolding with_schema_ref finished
  with_schema_ref-Returns p x r timed (accepted ref, (same, _)) =
      let (plan, built) = planned_with-ok p ref r timed in
      rw (same, with_schema_ref, built, finished) (accepted plan, refl)
  with_schema_ref-Returns p x r timed (refused f, (same, about)) =
      rw (same, with_schema_ref) (refuse-Returns invocation_id f r named about)

  module _ (registry : Registry) (closed : IsClosed registry)
      (timed : leb_ℤ request.deadline_ms (pos 0) ≡ false) where
    emitted_resolution-Returns :
        (p : PolicyResolution) (out : Result (Unit {0}) × Run W)
        → Gives invocation_id (schema_ref request invocation_id registry p)
        → out.0 ≡ ok tt
        → Returns (emitted_resolution platform catalog request invocation_id registry p out)
    unfolding emitted_resolution
    emitted_resolution-Returns p (ok _, r) gives h =
        with_schema_ref-Returns p (schema_ref request invocation_id registry p) r timed gives
    emitted_resolution-Returns p (raise e, r) gives h = cc

    with_resolution-Returns :
        (o : CallerPolicyOverrides) (x : Result PolicyAnswer) (r : Run W)
        → resolve_in platform request.role request.operation_ref invocation_id catalog registry
            (some o)
          ≡ x
        → Resolves invocation_id x
        → Returns (with_resolution platform catalog request invocation_id registry x r)
    unfolding with_resolution
    with_resolution-Returns o x r at_x (resolved p, (same, _)) =
        let sound =
          resolve_in-IsResolution platform request.role request.operation_ref invocation_id catalog
            registry (some o) p (at_x ∙ same) in
        rw (same, with_resolution)
          (emitted_resolution-Returns p (emit_events (ok p.telemetry ∷ []) r)
            (schema_ref-Gives request invocation_id registry p sound.policy sound.at_policy)
            (emit_one (ok p.telemetry) p.telemetry r refl))
    with_resolution-Returns o x r at_x (unresolved f, (same, about)) =
        rw (same, with_resolution) (refuse-Returns invocation_id f r named about)

    with_overrides-Returns :
        (x : Result (Answer CallerPolicyOverrides)) (r : Run W)
        → Gives invocation_id x
        → Returns (with_overrides platform catalog request invocation_id registry x r)
    unfolding with_overrides resolve_policy
    with_overrides-Returns x r (accepted o, (same, _)) =
        rw (same, with_overrides)
          (with_resolution-Returns o
            (resolve_in platform request.role request.operation_ref invocation_id catalog registry
              (some o))
            r refl
            (resolve_in-Resolves platform request.role request.operation_ref invocation_id catalog
              named registry (some o) closed))
    with_overrides-Returns x r (refused f, (same, about)) =
        rw (same, with_overrides) (refuse-Returns invocation_id f r named about)

    plan_in-Returns :
        (r : Run W) → Returns (plan_in platform catalog request invocation_id (ok registry) r)
    unfolding plan_in
    plan_in-Returns r =
        with_overrides-Returns (request_overrides request invocation_id platform registry) r
          (request_overrides-Gives request invocation_id platform registry closed)

  validated_event-made :
      (report : ConfigValidationReport)
      → (e : TelemetryEvent) × (validated_event platform catalog request invocation_id report
          ≡ ok e)
  unfolding validated_event forbidden_attribute_keys
  validated_event-made report = telemetry_event-made _ _ _ _ _ named refl

  request_failure-IsAbout :
      (code : FailureCode) (message : String)
      → IsAbout invocation_id (failure code message (request_context request invocation_id) [])
  request_failure-IsAbout code message =
      failure-IsAbout code message (request_context request invocation_id) []

  after_report-Returns :
      (c : LlmEndpointConfig) (r : Run W)
      → leb_ℤ request.deadline_ms (pos 0) ≡ false
      → (valid : Bool) → (validate_config platform c (some catalog)).ok ≡ valid
      → Returns (
          after_report platform catalog request invocation_id c
            (validate_config platform c (some catalog))
            valid
            r)
  unfolding after_report invalid_configuration
  after_report-Returns c r timed true valid =
      let built =
        build_registry-ok platform c (some catalog)
          ((validate_config-IsWellFormed platform c (some catalog)).0 valid) in
      rw (built, after_report)
        (plan_in-Returns (registry_of c (config_identity platform c))
          (build_registry-IsClosed platform c (some catalog)
            (registry_of c (config_identity platform c)) built)
          timed r)
  after_report-Returns c r timed false valid = refuse-Returns invocation_id _ r named (
      failure-IsAbout FailureCode.invalid_endpoint_config "config validation failed"
        (request_context request invocation_id) _)

  emitted_validation-Returns :
      (c : LlmEndpointConfig) (out : Result (Unit {0}) × Run W)
      → leb_ℤ request.deadline_ms (pos 0) ≡ false
      → out.0 ≡ ok tt
      → Returns (
          emitted_validation platform catalog request invocation_id c
            (validate_config platform c (some catalog))
            out)
  unfolding emitted_validation
  emitted_validation-Returns c (ok _, r) timed h =
      after_report-Returns c r timed (validate_config platform c (some catalog)).ok refl
  emitted_validation-Returns c (raise e, r) timed h = cc

  plan_for-Returns :
      (config : Option LlmEndpointConfig) (given : Option Registry) (r : Run W)
      → leb_ℤ request.deadline_ms (pos 0) ≡ false
      → IsClosedIfGiven given
      → Returns (plan_for platform catalog request invocation_id config given r)
  unfolding plan_for plan_config missing_registry
  plan_for-Returns config (some registry) r timed closed = plan_in-Returns registry closed timed r
  plan_for-Returns none none r timed closed =
      refuse-Returns invocation_id _ r named (
        request_failure-IsAbout FailureCode.invalid_endpoint_config
          "config or registry is required")
  plan_for-Returns (some c) none r timed closed =
      let event =
        validated_event platform catalog request invocation_id
          (validate_config platform c (some catalog)) in
      let (e, made) = validated_event-made (validate_config platform c (some catalog)) in
      emitted_validation-Returns c (emit_events (event ∷ []) r) timed (emit_one event e r made)

  pub plan_invocation-Returns :
      (config : Option LlmEndpointConfig) (given : Option Registry) (r : Run W)
      → IsClosedIfGiven given
      → Returns (plan_invocation platform catalog request invocation_id config given r)
  unfolding plan_invocation checked_request
  plan_invocation-Returns config given r closed =
      elim (Option-cases (validate_request request invocation_id)) [
        | inl fine ↦
            rw (fine, plan_invocation, checked_request)
              (plan_for-Returns config given r
                (timed request.deadline_ms
                  (validate_request-IsRequest request invocation_id fine).deadline)
                closed)
        | inr (f, wrong) ↦
            rw (wrong, plan_invocation, checked_request)
              (refuse-Returns invocation_id f r named
                ((validate_request-MayFail request invocation_id).about f wrong))
      ]

module _ {W : Type 0} (platform : Platform) (new_uuid : W → String × W) where
  id_named :
      (request : InvocationRequest W) (r : Run W)
      → truthy (invocation_id_of new_uuid request r).0 ≡ true
  unfolding invocation_id_of
  id_named request r = elim (Bool-cases (truthy_opt request.operation_invocation_id)) [
    | inl given ↦ rw (given, invocation_id_of) (truthy_value request.operation_invocation_id given)
    | inr missing ↦ rw (missing, invocation_id_of) (new_id_named (new_uuid r.world).0)
  ]

  -- For every request and configuration, and for every registry that is closed, as a registry that is built is,
  -- `invoke_plan` returns a plan or a typed failure; it raises no exception.
  pub invoke_plan-Returns :
      (request : InvocationRequest W) (config : Option LlmEndpointConfig) (given : Option Registry)
      (catalog : CapabilityCatalog) (r : Run W)
      → IsClosedIfGiven given
      → Returns (invoke_plan platform new_uuid request config given catalog r)
  unfolding invoke_plan
  invoke_plan-Returns request config given catalog r closed =
      let (id, r') = invocation_id_of new_uuid request r in
      plan_invocation-Returns platform catalog request id (id_named request r) config given r'
        closed
