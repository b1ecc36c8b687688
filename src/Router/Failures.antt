-- ===== src/Router/Failures.antt =====
-- router.py: the failures that routing makes itself, and the schema identity of others.
use llm_endpoint.Prelude.{ℕ, String, Option, none, some, List, [], ◌∷◌}
use llm_endpoint.Prelude.Int.{ℤ}
use llm_endpoint.Prelude.Text.{nat_str, int_str, or_else}
use llm_endpoint.Results.{
  FailureCode, FailureContext, TypedFailure, TerminalResult, structured, plain_text, failed,
  failure, failure_code_value, for_invocation,
}
use llm_endpoint.Callbacks.{SchemaContract, SchemaResolutionStatus, schema_status_value}
use llm_endpoint.Invocation.{InvocationPlan}
use llm_endpoint.Router.{AttemptTrace, attempt_count, skipped_count}

-- `schema.fingerprint if schema is not None else None`
abbrev pub fingerprint_of : Option SchemaContract → Option String
fingerprint_of none = none
fingerprint_of (some s) = some s.fingerprint

-- `_with_schema_identity`, on a failure
unfoldable pub with_schema_identity : TypedFailure → Option SchemaContract → TypedFailure
unfolding schema_status_value
with_schema_identity f none = f
with_schema_identity f (some s) = record f {
  context = record (f.context) {
    schema_contract_ref = some (or_else f.context.schema_contract_ref s.ref);
    schema_fingerprint = some (or_else f.context.schema_fingerprint s.fingerprint);
    schema_resolution_status = some (
        or_else f.context.schema_resolution_status
          (schema_status_value SchemaResolutionStatus.resolved));
  };
}

-- `_with_schema_identity`
unfoldable pub with_identity : TerminalResult → Option SchemaContract → TerminalResult
unfolding with_schema_identity
with_identity (failed f) schema = failed (with_schema_identity f schema)
with_identity (structured r) schema = structured r
with_identity (plain_text r) schema = plain_text r

last_failure_entry : Option TypedFailure → List (String × String)
unfolding failure_code_value
last_failure_entry none = []
last_failure_entry (some f) = ("last_retryable_failure", failure_code_value f.code) ∷ []

module _ {W : Type 0} where
  -- what the failures of this module and of the loop say of the plan
  abbrev pub plan_context : InvocationPlan W → FailureContext
  plan_context plan = record (for_invocation plan.operation_invocation_id) {
    role = some plan.role;
    operation_ref = some plan.operation_ref;
    schema_contract_ref = plan.schema_contract_ref;
    policy_fingerprint = some plan.policy_fingerprint;
  }

  unfoldable pub cancelled_failure :
      InvocationPlan W → ℕ → Option String → Option String → Option SchemaContract → TypedFailure
  unfolding failure
  cancelled_failure plan elapsed endpoint_uid trace_id schema =
      failure FailureCode.cancelled "caller cancelled the invocation"
        (record (plan_context plan) {
          endpoint_uid = endpoint_uid;
          schema_fingerprint = fingerprint_of schema;
          elapsed_ms = some elapsed;
          attempt_trace = trace_id;
        })
        []

  unfoldable pub deadline_failure :
      InvocationPlan W → ℕ → String → Option SchemaContract → TypedFailure
  unfolding failure
  deadline_failure plan elapsed endpoint_uid schema =
      failure FailureCode.deadline_exceeded "deadline elapsed before next provider attempt"
        (record (plan_context plan) {
          endpoint_uid = some endpoint_uid;
          schema_fingerprint = fingerprint_of schema;
          elapsed_ms = some elapsed;
        })
        []

  unfoldable pub missing_adapter_failure :
      InvocationPlan W → String → Option SchemaContract → TypedFailure
  unfolding failure
  missing_adapter_failure plan endpoint_uid schema =
      failure FailureCode.unsupported_provider_format
        "no provider adapter registered for endpoint provider_format"
        (record (plan_context plan) {
          endpoint_uid = some endpoint_uid;
          schema_fingerprint = fingerprint_of schema;
        })
        []

  unfoldable pub late_response_failure :
      InvocationPlan W → String → ℕ → String → ℤ → Option SchemaContract → TypedFailure
  unfolding failure int_str
  late_response_failure plan endpoint_uid elapsed trace_id budget schema =
      failure FailureCode.late_response_discarded
        "provider response arrived after the local deadline and was discarded"
        (record (plan_context plan) {
          endpoint_uid = some endpoint_uid;
          schema_fingerprint = fingerprint_of schema;
          elapsed_ms = some elapsed;
          attempt_trace = some trace_id;
        })
        (("candidate_budget_ms", int_str budget) ∷ ("deadline_ms", int_str plan.deadline_ms) ∷ [])

  -- `_pool_exhausted`
  unfoldable pub pool_exhausted :
      InvocationPlan W
      → List AttemptTrace
      → Option TypedFailure
      → Option SchemaContract
      → TypedFailure
  unfolding failure nat_str attempt_count skipped_count last_failure_entry
  pool_exhausted plan traces last schema =
      failure FailureCode.pool_exhausted
        "endpoint pool exhausted before a successful provider outcome"
        (record (plan_context plan) { schema_fingerprint = fingerprint_of schema })
        (("attempt_count", nat_str (attempt_count traces))
          ∷ ("skipped_count", nat_str (skipped_count traces))
          ∷ last_failure_entry last)
