-- ===== src/Router/Schema.antt =====
-- router.py: `_resolve_schema`.
use llm_endpoint.Prelude.{
  String, Bool, true, false, Option, none, some, List, [], ◌∷◌, ◌==◌, not, if◌then◌else◌,
}
use llm_endpoint.Prelude.Outcome.{Result, ok, raise, Call, returned, raised}
use llm_endpoint.Results.{FailureCode, TypedFailure, failure}
use llm_endpoint.Callbacks.{
  SchemaContract, SchemaResolution, SchemaResolutionStatus, SchemaResolver, schema_status_value,
  is_schema_resolved, schema_failure,
}
use llm_endpoint.Config.{StructuredOutputMode}
use llm_endpoint.Invocation.{InvocationPlan}
use llm_endpoint.Router.Failures.{plan_context, fingerprint_of}

-- `SchemaContract | None | TypedFailure`
pub data SchemaAnswer : Type 0 where
  no_schema : SchemaAnswer
  schema : SchemaContract → SchemaAnswer
  unresolved : TypedFailure → SchemaAnswer

abbrev pub is_none_mode : StructuredOutputMode → Bool
is_none_mode StructuredOutputMode.none = true
is_none_mode _ = false

module _ {W : Type 0} (plan : InvocationPlan W) where
  -- a failure of resolution, with the status that it reports
  unknown_schema :
      String → Option String → Option String → List (String × String) → Result SchemaAnswer
  unfolding failure
  unknown_schema message fingerprint status context = ok (
      unresolved (
        failure FailureCode.unknown_schema_contract message
          (record (plan_context plan) {
            schema_fingerprint = fingerprint;
            schema_resolution_status = status;
          })
          context))

  -- what follows a resolver that returned
  judge_resolution : String → SchemaResolution → Result SchemaAnswer
  unfolding unknown_schema schema_failure schema_status_value
  judge_resolution ref r =
      if not (r.ref == ref)
      then unknown_schema "schema resolver returned a mismatched ref" (fingerprint_of r.schema)
          (some (schema_status_value r.status))
          (("expected_schema_ref", ref) ∷ ("actual_schema_ref", r.ref) ∷ [])
      else if not (is_schema_resolved r.status)
      then elim (schema_failure r plan.operation_invocation_id (some plan.operation_ref)) [
        | ok f ↦ ok (unresolved f)
        | raise e ↦ raise e
      ]
      else elim r.schema [
        | none ↦
            unknown_schema "schema resolver returned resolved status without a schema" none
              (some (schema_status_value SchemaResolutionStatus.resolved))
              (("schema_ref", ref) ∷ [])
        | some s ↦ ok (schema s)
      ]

  judge_call : String → Call SchemaResolution → Result SchemaAnswer
  unfolding unknown_schema judge_resolution
  judge_call ref (returned r) = judge_resolution ref r
  judge_call ref (raised name) =
      unknown_schema "schema resolver raised during schema resolution" none
        (some (schema_status_value SchemaResolutionStatus.failed))
        (("schema_ref", ref) ∷ ("resolver_exception", name) ∷ [])

  ask_resolver : String → Option (SchemaResolver W) → W → Result SchemaAnswer × W
  unfolding judge_call
  ask_resolver ref none w = (
    unknown_schema "schema resolver is required for structured-output invocation" none
        (some (schema_status_value SchemaResolutionStatus.not_found)) (("schema_ref", ref) ∷ []),
    w,
  )
  ask_resolver ref (some resolve) w =
      let (answer, w') = resolve ref w in (judge_call ref answer, w')

  -- the reference, unless it is missing or empty
  with_reference : Option String → Option (SchemaResolver W) → W → Result SchemaAnswer × W
  unfolding failure ask_resolver
  with_reference none resolver w = (
    ok (
        unresolved (
          failure FailureCode.missing_schema_contract
            "structured-output invocation requires a schema_contract_ref" (plan_context plan) [])),
    w,
  )
  with_reference (some ref) resolver w =
      if ref == ""
      then (
        ok (
            unresolved (
              failure FailureCode.missing_schema_contract
                "structured-output invocation requires a schema_contract_ref" (plan_context plan)
                [])),
        w,
      )
      else ask_resolver ref resolver w

  unfoldable pub resolve_schema : Option (SchemaResolver W) → W → Result SchemaAnswer × W
  unfolding with_reference
  resolve_schema resolver w =
      if is_none_mode plan.effective_config.structured_output_mode
      then (ok no_schema, w)
      else with_reference plan.schema_contract_ref resolver w
