-- ===== src/Migration.antt =====
-- migration.py: whether a call site can move to the direct interface.
use llm_endpoint.Prelude.{
  String, Bool, true, false, Option, none, some, List, [], ◌∷◌, ◌&&◌, is_none, is_some, not,
  contains, length, if◌then◌else◌,
}
use llm_endpoint.Prelude.Text.{or_else, or_none, nat_str}
use llm_endpoint.Prelude.Dict.{Dict, keys}
use llm_endpoint.Prelude.Sort.{sort_texts}
use llm_endpoint.Prelude.Outcome.{Result, ok, raise, Error, require, ◌>>◌}
use llm_endpoint.Platform.{Platform}
use llm_endpoint.Results.{FailureCode, TypedFailure, failure_with_hint, for_invocation}
use llm_endpoint.Telemetry.Emitting.{Run}
use llm_endpoint.Config.{LlmEndpointConfig, Registry}
use llm_endpoint.Capabilities.{CapabilityCatalog}
use llm_endpoint.Invocation.{InvocationRequest, InvocationPlan}
use llm_endpoint.Invocation.Requests.{Answer, accepted, refused}
use llm_endpoint.Invocation.Planning.{invoke_plan}

abbrev pub forbidden_legacy_fields : List String
forbidden_legacy_fields =
    "api_key" ∷ "base_url" ∷ "deployment" ∷ "legacy_provider" ∷ "model" ∷ "provider"
    ∷ "raw_provider_tuple" ∷ []

pub record DirectMigrationRequest (W : Type 0) : Type 0 where
  pub request : InvocationRequest W
  pub source_callsite : String
  pub legacy_fields : Dict String

pub record DirectMigrationReport (W : Type 0) : Type 0 where
  pub ok : Bool
  pub source_callsite : String
  pub diagnostics : List String
  pub plan : Option (InvocationPlan W)
  pub failure : Option TypedFailure

-- `DirectMigrationReport(…)`
unfoldable pub migration_report :
    {W : Type 0} → DirectMigrationReport W → Result (DirectMigrationReport W)
migration_report r = do
  require (if r.ok then is_some r.plan else is_none r.plan)
      (Error.value_error "successful migration reports require a plan")
  require (not (r.ok && is_some r.failure))
      (Error.value_error "successful migration reports cannot carry a failure")
  require (not (not r.ok && is_none r.failure))
      (Error.value_error "failed migration reports require a typed failure")
  ok r

-- the keys that are forbidden
forbidden_keys : List String → List String
forbidden_keys [] = []
forbidden_keys (key ∷ rest) =
    if contains key forbidden_legacy_fields then key ∷ forbidden_keys rest else forbidden_keys rest

module _ {W : Type 0} where
  legacy_failure : DirectMigrationRequest W → List String → Option TypedFailure
  unfolding failure_with_hint nat_str
  legacy_failure m [] = none
  legacy_failure m (key ∷ rest) = some (
      failure_with_hint FailureCode.unsupported_runtime_knob
        "legacy provider fields are prohibited under Zero BC migration"
        (some "Move the call site to InvocationRequest and host config.")
        (record (for_invocation (or_else m.request.operation_invocation_id "migration-readiness")) {
          role = or_none m.request.role;
          operation_ref = or_none m.request.operation_ref;
        })
        (("source_callsite", m.source_callsite)
          ∷ ("legacy_field_count", nat_str (length (key ∷ rest)))
          ∷ []))

  -- `_legacy_field_failure`
  unfoldable pub legacy_field_failure : DirectMigrationRequest W → Option TypedFailure
  unfolding forbidden_keys legacy_failure
  legacy_field_failure m = legacy_failure m (sort_texts (forbidden_keys (keys m.legacy_fields)))

  failed_report : String → List String → TypedFailure → Result (DirectMigrationReport W)
  unfolding migration_report
  failed_report callsite diagnostics f = migration_report (record {
    ok = false;
    source_callsite = callsite;
    diagnostics = diagnostics;
    plan = none;
    failure = some f;
  })

  -- the report on what `invoke_plan` returned
  report_on : String → Result (Answer (InvocationPlan W)) → Result (DirectMigrationReport W)
  unfolding failed_report migration_report
  report_on callsite (raise e) = raise e
  report_on callsite (ok (refused f)) =
      failed_report callsite ("canonical_invocation_not_ready" ∷ []) f
  report_on callsite (ok (accepted plan)) = migration_report (record {
    ok = true;
    source_callsite = callsite;
    diagnostics = "canonical_direct_api_ready" ∷ "no_compatibility_facade" ∷ [];
    plan = some plan;
    failure = none;
  })

module _ {W : Type 0} (platform : Platform) (new_uuid : W → String × W) where
  unfoldable pub assess_direct_migration :
      DirectMigrationRequest W
      → Option LlmEndpointConfig
      → Option Registry
      → CapabilityCatalog
      → Run W
      → Result (DirectMigrationReport W) × Run W
  unfolding legacy_field_failure failed_report invoke_plan report_on
  assess_direct_migration m config registry catalog r = elim (legacy_field_failure m) [
    | some f ↦ (
      failed_report m.source_callsite
          ("remove_legacy_provider_tuple" ∷ "use_invocation_request" ∷ []) f,
      r,
    )
    | none ↦
        let (answer, r') = invoke_plan platform new_uuid m.request config registry catalog r in
        (report_on m.source_callsite answer, r')
  ]
