-- ===== src/Invocation/Planning/Accepted.antt =====
-- The plans that `invoke_plan` accepts.
use llm_endpoint.Prelude.{
  ◌≡◌, refl, ap, subst, String, Bool, true, false, Option, none, some, [], ◌∷◌,
}
use llm_endpoint.Prelude.Outcome.{Result, ok, raise, Error, ok-injective}
use llm_endpoint.Platform.{Platform}
use llm_endpoint.Results.{TypedFailure}
use llm_endpoint.Telemetry.Emitting.{Run, emit_events}
use llm_endpoint.Config.{LlmEndpointConfig, Registry}
use llm_endpoint.Config.Errors.{ConfigValidationReport}
use llm_endpoint.Config.Validation.{validate_config}
use llm_endpoint.Config.Building.{build_registry}
use llm_endpoint.Capabilities.{CapabilityCatalog}
use llm_endpoint.Policy.{CallerPolicyOverrides, PolicyResolution}
use llm_endpoint.Policy.Resolution.{PolicyAnswer, resolved, unresolved, resolve_in, resolve_policy}
use llm_endpoint.Invocation.{InvocationRequest, InvocationPlan}
use llm_endpoint.Invocation.Requests.{
  Answer, accepted, refused, validate_request, request_overrides, schema_ref,
}
use llm_endpoint.Invocation.Planning.{
  Planned, refusal_event, answered, refuse, planned_with, finished, with_schema_ref,
  emitted_resolution, with_resolution, with_overrides, plan_in, invalid_configuration, after_report,
  missing_registry, validated_event, emitted_validation, plan_config, plan_for, checked_request,
  plan_invocation,
}

module _ {A : Type 0} where
  ok-refused : {f : TypedFailure} {a : A} → ok (refused f) ≡ ok (accepted a) → ⊥
  ok-refused h = cc

  raise-ok : {e : Error} {a : Answer A} → raise e ≡ ok a → ⊥
  raise-ok h = cc

  accepted-injective : {a b : A} → accepted a ≡ accepted b → a ≡ b
  accepted-injective h = cc

module _ {W : Type 0} where
  not_accepted :
      {f : TypedFailure} {plan : InvocationPlan W} {r r' : Run W}
      → ◌≡◌ {A = Planned W} (ok (refused f), r) (ok (accepted plan), r')
      → ⊥
  not_accepted h = ok-refused (ap (λ x. x.0) h)

  not_returned :
      {e : Error} {plan : InvocationPlan W} {r r' : Run W}
      → ◌≡◌ {A = Planned W} (raise e, r) (ok (accepted plan), r')
      → ⊥
  not_returned h = raise-ok (ap (λ x. x.0) h)

  refuse-not-accepted :
      (f : TypedFailure) (r r' : Run W) (plan : InvocationPlan W)
      → refuse f r ≡ (ok (accepted plan), r')
      → ⊥
  unfolding refuse answered
  refuse-not-accepted f r r' plan h = answered_refused (emit_events (refusal_event f ∷ []) r) h
    where
      answered_refused :
          (out : Result (Unit {0}) × Run W)
          → answered (refused f) out ≡ (ok (accepted plan), r')
          → ⊥
      answered_refused (ok _, s) k = not_accepted k
      answered_refused (raise e, s) k = not_returned k

module _ {W : Type 0} (platform : Platform) (catalog : CapabilityCatalog)
    (request : InvocationRequest W) (invocation_id : String) where
  -- The steps to a plan in a registry: the overrides, the resolution of the policy, and the schema's reference.
  pub record IsMade (registry : Registry) (plan : InvocationPlan W) (after : Run W) : Type 0 where
    pub overrides : CallerPolicyOverrides
    pub resolution : PolicyResolution
    pub ref : Option String
    pub at_overrides :
        request_overrides request invocation_id platform registry ≡ ok (accepted overrides)
    pub at_resolution :
        resolve_in platform request.role request.operation_ref invocation_id catalog registry
          (some overrides)
        ≡ ok (resolved resolution)
    pub at_ref : schema_ref request invocation_id registry resolution ≡ ok (accepted ref)
    pub at_plan : planned_with platform catalog request invocation_id resolution ref after ≡ ok plan

  finished-IsMade :
      (x : Result (InvocationPlan W)) (r r' : Run W) (plan : InvocationPlan W)
      → finished platform catalog request invocation_id x r ≡ (ok (accepted plan), r')
      → (x ≡ ok plan) × (r ≡ r')
  unfolding finished
  finished-IsMade (ok p) r r' plan h =
      (ap ok (accepted-injective (ok-injective (ap (λ x. x.0) h))), ap (λ x. x.1) h)
  finished-IsMade (raise e) r r' plan h = elim (not_returned h) [ ]

  with_schema_ref-made :
      (p : PolicyResolution) (x : Result (Answer (Option String))) (r r' : Run W)
      (plan : InvocationPlan W)
      → with_schema_ref platform catalog request invocation_id p x r ≡ (ok (accepted plan), r')
      → (ref : Option String) × ((x ≡ ok (accepted ref))
          × (planned_with platform catalog request invocation_id p ref r' ≡ ok plan))
  unfolding with_schema_ref
  with_schema_ref-made p (raise e) r r' plan h = elim (not_returned h) [ ]
  with_schema_ref-made p (ok (refused f)) r r' plan h = elim (refuse-not-accepted f r r' plan h) [ ]
  with_schema_ref-made p (ok (accepted ref)) r r' plan h =
      let (made, same) =
        finished-IsMade (planned_with platform catalog request invocation_id p ref r) r r' plan h in
      (
        ref,
        (
          refl,
          subst (λ s. planned_with platform catalog request invocation_id p ref s ≡ ok plan) same
              made,
        ),
      )

  emitted_resolution-made :
      (registry : Registry) (p : PolicyResolution) (out : Result (Unit {0}) × Run W) (r' : Run W)
      (plan : InvocationPlan W)
      → emitted_resolution platform catalog request invocation_id registry p out
        ≡ (ok (accepted plan), r')
      → (ref : Option String) × ((schema_ref request invocation_id registry p ≡ ok (accepted ref))
          × (planned_with platform catalog request invocation_id p ref r' ≡ ok plan))
  unfolding emitted_resolution
  emitted_resolution-made registry p (raise e, r) r' plan h = elim (not_returned h) [ ]
  emitted_resolution-made registry p (ok _, r) r' plan h =
      with_schema_ref-made p (schema_ref request invocation_id registry p) r r' plan h

  with_resolution-IsMade :
      (registry : Registry) (o : CallerPolicyOverrides) (x : Result PolicyAnswer) (r r' : Run W)
      (plan : InvocationPlan W)
      → request_overrides request invocation_id platform registry ≡ ok (accepted o)
      → resolve_in platform request.role request.operation_ref invocation_id catalog registry
          (some o)
        ≡ x
      → with_resolution platform catalog request invocation_id registry x r
        ≡ (ok (accepted plan), r')
      → IsMade registry plan r'
  unfolding with_resolution
  with_resolution-IsMade registry o (raise e) r r' plan at_o at_x h = elim (not_returned h) [ ]
  with_resolution-IsMade registry o (ok (unresolved f)) r r' plan at_o at_x h =
      elim (refuse-not-accepted f r r' plan h) [ ]
  with_resolution-IsMade registry o (ok (resolved p)) r r' plan at_o at_x h =
      let (ref, (at_ref, made)) =
        emitted_resolution-made registry p (emit_events (ok p.telemetry ∷ []) r) r' plan h in
      record {
        overrides = o;
        resolution = p;
        ref = ref;
        at_overrides = at_o;
        at_resolution = at_x;
        at_ref = at_ref;
        at_plan = made;
      }

  with_overrides-IsMade :
      (registry : Registry) (x : Result (Answer CallerPolicyOverrides)) (r r' : Run W)
      (plan : InvocationPlan W)
      → request_overrides request invocation_id platform registry ≡ x
      → with_overrides platform catalog request invocation_id registry x r
        ≡ (ok (accepted plan), r')
      → IsMade registry plan r'
  unfolding with_overrides resolve_policy
  with_overrides-IsMade registry (raise e) r r' plan at_x h = elim (not_returned h) [ ]
  with_overrides-IsMade registry (ok (refused f)) r r' plan at_x h =
      elim (refuse-not-accepted f r r' plan h) [ ]
  with_overrides-IsMade registry (ok (accepted o)) r r' plan at_x h =
      with_resolution-IsMade registry o
        (resolve_in platform request.role request.operation_ref invocation_id catalog registry
          (some o))
        r r' plan at_x refl h

  plan_in-IsMade :
      (x : Result Registry) (r r' : Run W) (plan : InvocationPlan W)
      → plan_in platform catalog request invocation_id x r ≡ (ok (accepted plan), r')
      → (registry : Registry) × ((x ≡ ok registry) × IsMade registry plan r')
  unfolding plan_in
  plan_in-IsMade (raise e) r r' plan h = elim (not_returned h) [ ]
  plan_in-IsMade (ok registry) r r' plan h = (
    registry,
    (
      refl,
      with_overrides-IsMade registry (request_overrides request invocation_id platform registry) r
          r' plan refl h,
    ),
  )

  -- The registry of a plan is the one that is given, or that of the configuration.
  abbrev pub IsChosen : Option LlmEndpointConfig → Option Registry → Registry → Type 0
  IsChosen config (some given) registry = given ≡ registry
  IsChosen none none registry = ⊥
  IsChosen (some c) none registry = build_registry platform c (some catalog) ≡ ok registry

  after_report-IsMade :
      (c : LlmEndpointConfig) (report : ConfigValidationReport) (valid : Bool) (r r' : Run W)
      (plan : InvocationPlan W)
      → after_report platform catalog request invocation_id c report valid r
        ≡ (ok (accepted plan), r')
      → (registry : Registry) × ((build_registry platform c (some catalog) ≡ ok registry)
          × IsMade registry plan r')
  unfolding after_report
  after_report-IsMade c report true r r' plan h =
      plan_in-IsMade (build_registry platform c (some catalog)) r r' plan h
  after_report-IsMade c report false r r' plan h =
      elim (refuse-not-accepted
        (invalid_configuration platform catalog request invocation_id report) r r' plan h) [ ]

  emitted_validation-IsMade :
      (c : LlmEndpointConfig) (report : ConfigValidationReport) (out : Result (Unit {0}) × Run W)
      (r' : Run W) (plan : InvocationPlan W)
      → emitted_validation platform catalog request invocation_id c report out
        ≡ (ok (accepted plan), r')
      → (registry : Registry) × ((build_registry platform c (some catalog) ≡ ok registry)
          × IsMade registry plan r')
  unfolding emitted_validation
  emitted_validation-IsMade c report (raise e, r) r' plan h = elim (not_returned h) [ ]
  emitted_validation-IsMade c report (ok _, r) r' plan h =
      after_report-IsMade c report report.ok r r' plan h

  plan_for-IsMade :
      (config : Option LlmEndpointConfig) (given : Option Registry) (r r' : Run W)
      (plan : InvocationPlan W)
      → plan_for platform catalog request invocation_id config given r ≡ (ok (accepted plan), r')
      → (registry : Registry) × (IsChosen config given registry × IsMade registry plan r')
  unfolding plan_for plan_config
  plan_for-IsMade config (some given) r r' plan h =
      let (registry, (same, made)) = plan_in-IsMade (ok given) r r' plan h in
      (registry, (ok-injective same, made))
  plan_for-IsMade none none r r' plan h =
      elim (refuse-not-accepted (missing_registry platform catalog request invocation_id) r r' plan
        h) [ ]
  plan_for-IsMade (some c) none r r' plan h =
      let report = validate_config platform c (some catalog) in
      emitted_validation-IsMade c report
        (emit_events (validated_event platform catalog request invocation_id report ∷ []) r) r' plan
        h

  pub plan_invocation-IsMade :
      (config : Option LlmEndpointConfig) (given : Option Registry) (r r' : Run W)
      (plan : InvocationPlan W)
      → plan_invocation platform catalog request invocation_id config given r
        ≡ (ok (accepted plan), r')
      → (validate_request request invocation_id ≡ none)
        × ((registry : Registry) × (IsChosen config given registry × IsMade registry plan r'))
  unfolding plan_invocation checked_request
  plan_invocation-IsMade config given r r' plan h =
      checked (validate_request request invocation_id) refl h
    where
      checked :
          (failed : Option TypedFailure)
          → validate_request request invocation_id ≡ failed
          → checked_request platform catalog request invocation_id config given failed r
            ≡ (ok (accepted plan), r')
          → (validate_request request invocation_id ≡ none)
            × ((registry : Registry) × (IsChosen config given registry × IsMade registry plan r'))
      checked (some f) same k = elim (refuse-not-accepted f r r' plan k) [ ]
      checked none same k = (same, plan_for-IsMade config given r r' plan k)
