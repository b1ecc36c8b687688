-- ===== src/Invocation/Planning/Growth.antt =====
-- What a run of `invoke_plan` keeps of the events of its emitter.
use llm_endpoint.Prelude.{
  ◌≡◌, refl, subst, inl, inr, String, Bool, true, false, Option, none, some, [], ◌∷◌, Bool-cases,
}
use llm_endpoint.Prelude.Text.{truthy_opt}
use llm_endpoint.Prelude.Outcome.{Result, ok, raise}
use llm_endpoint.Platform.{Platform}
use llm_endpoint.Results.{TypedFailure}
use llm_endpoint.Telemetry.Emitting.{Run, emit_events}
use llm_endpoint.Telemetry.Growth.{Grows, Grows-refl, Grows-trans, emit_events-Grows}
use llm_endpoint.Config.{LlmEndpointConfig, Registry}
use llm_endpoint.Config.Errors.{ConfigValidationReport}
use llm_endpoint.Config.Validation.{validate_config}
use llm_endpoint.Config.Building.{build_registry}
use llm_endpoint.Capabilities.{CapabilityCatalog}
use llm_endpoint.Policy.{CallerPolicyOverrides, PolicyResolution}
use llm_endpoint.Policy.Resolution.{PolicyAnswer, resolved, unresolved, resolve_policy}
use llm_endpoint.Invocation.{InvocationRequest, InvocationPlan}
use llm_endpoint.Invocation.Requests.{
  Answer, accepted, refused, validate_request, request_overrides, schema_ref,
}
use llm_endpoint.Invocation.Planning.{
  Planned, refusal_event, answered, refuse, planned_with, finished, with_schema_ref,
  emitted_resolution, with_resolution, with_overrides, plan_in, invalid_configuration, after_report,
  missing_registry, validated_event, emitted_validation, plan_config, plan_for, checked_request,
  plan_invocation, invocation_id_of, invoke_plan,
}

module _ {W : Type 0} where
  -- The run that an answer leaves has the events of an earlier one, and more.
  abbrev pub Keeps : Run W → Planned W → Type 0
  Keeps r x = Grows r.emitter x.1.emitter

  answered-Keeps :
      (r : Run W) (a : Answer (InvocationPlan W)) (out : Result (Unit {0}) × Run W)
      → Grows r.emitter out.1.emitter
      → Keeps r (answered a out)
  unfolding answered
  answered-Keeps r a (ok _, r') h = h
  answered-Keeps r a (raise e, r') h = h

  refuse-Keeps : (f : TypedFailure) (r : Run W) → Keeps r (refuse f r)
  unfolding refuse
  refuse-Keeps f r =
      answered-Keeps r (refused f) (emit_events (refusal_event f ∷ []) r)
        (emit_events-Grows (refusal_event f ∷ []) r)

module _ {W : Type 0} (platform : Platform) (catalog : CapabilityCatalog)
    (request : InvocationRequest W) (invocation_id : String) where
  finished-Keeps :
      (x : Result (InvocationPlan W)) (r : Run W)
      → Keeps r (finished platform catalog request invocation_id x r)
  unfolding finished
  finished-Keeps (ok plan) r = Grows-refl r.emitter
  finished-Keeps (raise e) r = Grows-refl r.emitter

  with_schema_ref-Keeps :
      (p : PolicyResolution) (x : Result (Answer (Option String))) (r : Run W)
      → Keeps r (with_schema_ref platform catalog request invocation_id p x r)
  unfolding with_schema_ref
  with_schema_ref-Keeps p (raise e) r = Grows-refl r.emitter
  with_schema_ref-Keeps p (ok (refused f)) r = refuse-Keeps f r
  with_schema_ref-Keeps p (ok (accepted ref)) r =
      finished-Keeps (planned_with platform catalog request invocation_id p ref r) r

  emitted_resolution-Keeps :
      (registry : Registry) (p : PolicyResolution) (start : Run W) (out : Result (Unit {0}) × Run W)
      → Grows start.emitter out.1.emitter
      → Keeps start (emitted_resolution platform catalog request invocation_id registry p out)
  unfolding emitted_resolution
  emitted_resolution-Keeps registry p start (raise e, r) h = h
  emitted_resolution-Keeps registry p start (ok _, r) h =
      let x = schema_ref request invocation_id registry p in
      Grows-trans start.emitter r.emitter
        (with_schema_ref platform catalog request invocation_id p x r).1.emitter h
        (with_schema_ref-Keeps p x r)

  with_resolution-Keeps :
      (registry : Registry) (x : Result PolicyAnswer) (r : Run W)
      → Keeps r (with_resolution platform catalog request invocation_id registry x r)
  unfolding with_resolution
  with_resolution-Keeps registry (raise e) r = Grows-refl r.emitter
  with_resolution-Keeps registry (ok (unresolved f)) r = refuse-Keeps f r
  with_resolution-Keeps registry (ok (resolved p)) r =
      emitted_resolution-Keeps registry p r (emit_events (ok p.telemetry ∷ []) r)
        (emit_events-Grows (ok p.telemetry ∷ []) r)

  with_overrides-Keeps :
      (registry : Registry) (x : Result (Answer CallerPolicyOverrides)) (r : Run W)
      → Keeps r (with_overrides platform catalog request invocation_id registry x r)
  unfolding with_overrides
  with_overrides-Keeps registry (raise e) r = Grows-refl r.emitter
  with_overrides-Keeps registry (ok (refused f)) r = refuse-Keeps f r
  with_overrides-Keeps registry (ok (accepted o)) r =
      with_resolution-Keeps registry
        (resolve_policy platform request.role request.operation_ref invocation_id catalog none
          (some registry) (some o))
        r

  plan_in-Keeps :
      (x : Result Registry) (r : Run W)
      → Keeps r (plan_in platform catalog request invocation_id x r)
  unfolding plan_in
  plan_in-Keeps (raise e) r = Grows-refl r.emitter
  plan_in-Keeps (ok registry) r =
      with_overrides-Keeps registry (request_overrides request invocation_id platform registry) r

  after_report-Keeps :
      (c : LlmEndpointConfig) (report : ConfigValidationReport) (valid : Bool) (r : Run W)
      → Keeps r (after_report platform catalog request invocation_id c report valid r)
  unfolding after_report
  after_report-Keeps c report true r = plan_in-Keeps (build_registry platform c (some catalog)) r
  after_report-Keeps c report false r =
      refuse-Keeps (invalid_configuration platform catalog request invocation_id report) r

  emitted_validation-Keeps :
      (c : LlmEndpointConfig) (report : ConfigValidationReport) (start : Run W)
      (out : Result (Unit {0}) × Run W)
      → Grows start.emitter out.1.emitter
      → Keeps start (emitted_validation platform catalog request invocation_id c report out)
  unfolding emitted_validation
  emitted_validation-Keeps c report start (raise e, r) h = h
  emitted_validation-Keeps c report start (ok _, r) h =
      Grows-trans start.emitter r.emitter
        (after_report platform catalog request invocation_id c report report.ok r).1.emitter h
        (after_report-Keeps c report report.ok r)

  plan_for-Keeps :
      (config : Option LlmEndpointConfig) (registry : Option Registry) (r : Run W)
      → Keeps r (plan_for platform catalog request invocation_id config registry r)
  unfolding plan_for plan_config
  plan_for-Keeps config (some registry) r = plan_in-Keeps (ok registry) r
  plan_for-Keeps none none r =
      refuse-Keeps (missing_registry platform catalog request invocation_id) r
  plan_for-Keeps (some c) none r =
      let report = validate_config platform c (some catalog) in
      let event = validated_event platform catalog request invocation_id report in
      emitted_validation-Keeps c report r (emit_events (event ∷ []) r)
        (emit_events-Grows (event ∷ []) r)

  checked_request-Keeps :
      (config : Option LlmEndpointConfig) (registry : Option Registry)
      (failed : Option TypedFailure) (r : Run W)
      → Keeps r (checked_request platform catalog request invocation_id config registry failed r)
  unfolding checked_request
  checked_request-Keeps config registry (some f) r = refuse-Keeps f r
  checked_request-Keeps config registry none r = plan_for-Keeps config registry r

module _ {W : Type 0} (platform : Platform) (new_uuid : W → String × W) where
  id_keeps :
      (request : InvocationRequest W) (r : Run W)
      → (invocation_id_of new_uuid request r).1.emitter ≡ r.emitter
  unfolding invocation_id_of
  id_keeps request r = elim (Bool-cases (truthy_opt request.operation_invocation_id)) [
    | inl given ↦ rw (given, invocation_id_of) refl
    | inr missing ↦ rw (missing, invocation_id_of) refl
  ]

  -- Whatever becomes of a request, a plan, a failure or an exception, the emitter keeps its events in order, and
  -- has the new ones after them.
  pub invoke_plan-Grows :
      (request : InvocationRequest W) (config : Option LlmEndpointConfig)
      (registry : Option Registry) (catalog : CapabilityCatalog) (r : Run W)
      → Grows r.emitter (invoke_plan platform new_uuid request config registry catalog r).1.emitter
  unfolding invoke_plan plan_invocation
  invoke_plan-Grows request config registry catalog r =
      let (id, r') = invocation_id_of new_uuid request r in
      subst
        (λ e. Grows e (plan_invocation platform catalog request id config registry r').1.emitter)
        (id_keeps request r)
        (checked_request-Keeps platform catalog request id config registry
          (validate_request request id) r')
