-- ===== src/Router/After.antt =====
-- router.py: the body of `route_invocation`'s loop from the provider's answer on.
pub mod Moves
pub mod Terminal
use llm_endpoint.Prelude.{
  ℕ, ◌+◌, String, Bool, true, Option, none, some, [], ◌∷◌, ◌++◌, ◌||◌, not, value_or, if◌then◌else◌,
}
use llm_endpoint.Prelude.Int.{pos, ltb_ℤ}
use llm_endpoint.Prelude.Outcome.{Result, ok}
use llm_endpoint.Results.{
  FailureCode, TypedFailure, TerminalResult, structured, plain_text, failed, failure,
}
use llm_endpoint.Callbacks.{SchemaContract}
use llm_endpoint.Adapters.{ProviderOutcome}
use llm_endpoint.Adapters.Execution.{AttemptOutput, outcome}
use llm_endpoint.Normalization.{normalize_provider_outcome}
use llm_endpoint.Structured.{StructuredOutputContext, normalize_structured_provider_outcome}
use llm_endpoint.Invocation.{InvocationPlan}
use llm_endpoint.Router.{AttemptTrace, attempt_trace}
use llm_endpoint.Router.Failures.{
  plan_context, with_schema_identity, with_identity, cancelled_failure, late_response_failure,
}
use llm_endpoint.Router.Events.{
  cancellation_event, failure_event, attempt_event, late_response_event, text_success_event,
  structured_success_event,
}
use llm_endpoint.Router.Schema.{is_none_mode}
use llm_endpoint.Router.State.{Setup, LoopState, finish, advance, leave, Verdict, Attempt}
use llm_endpoint.Router.Budget.{is_failover_retryable, has_failover_candidate}

-- `_elapsed_ms`
unfoldable pub elapsed_of : AttemptOutput → TerminalResult → ℕ
elapsed_of (outcome o) terminal = o.elapsed_ms
elapsed_of (AttemptOutput.failed f) (failed g) = value_or g.context.elapsed_ms 0
elapsed_of (AttemptOutput.failed f) (plain_text r) = r.elapsed_ms
elapsed_of (AttemptOutput.failed f) (structured r) = r.elapsed_ms

-- the loop variables once an attempt has been made and traced
abbrev pub after : LoopState → ℕ → AttemptTrace → LoopState
after l elapsed trace = record l {
  traces = l.traces ++ trace ∷ [];
  attempted = l.attempted + 1;
  elapsed_total_ms = l.elapsed_total_ms + elapsed;
}

module _ {W : Type 0} where
  -- the context of the structured-output pipeline
  unfoldable pub structured_context :
      InvocationPlan W → ProviderOutcome → String → SchemaContract → StructuredOutputContext
  structured_context plan o id schema = record {
    operation_invocation_id = plan.operation_invocation_id;
    endpoint_uid = o.endpoint_uid;
    policy_fingerprint = plan.policy_fingerprint;
    elapsed_ms = o.elapsed_ms;
    schema = schema;
    mode = plan.effective_config.structured_output_mode;
    role = some plan.role;
    operation_ref = some plan.operation_ref;
    attempt_trace_id = some id;
  }

  structured_terminal :
      InvocationPlan W → ProviderOutcome → String → Option SchemaContract → Result TerminalResult
  unfolding failure normalize_structured_provider_outcome structured_context
  structured_terminal plan o id none = ok (
      failed (
        failure FailureCode.missing_schema_contract
          "structured-output invocation requires resolved schema before normalization"
          (record (plan_context plan) { attempt_trace = some id }) []))
  structured_terminal plan o id (some schema) =
      normalize_structured_provider_outcome o (structured_context plan o id schema)

  -- `_terminal_result`
  unfoldable pub terminal_result :
      InvocationPlan W → AttemptOutput → String → Option SchemaContract → Result TerminalResult
  unfolding with_schema_identity with_identity structured_terminal normalize_provider_outcome
  terminal_result plan (AttemptOutput.failed f) id schema =
      ok (failed (with_schema_identity f schema))
  terminal_result plan (outcome o) id schema =
      if not (is_none_mode plan.effective_config.structured_output_mode)
      then structured_terminal plan o id schema
      else ok (
          with_identity
            (normalize_provider_outcome o plan.operation_invocation_id (some plan.role)
              (some plan.operation_ref) (some plan.policy_fingerprint) (some id) true)
            schema)

  -- the branch of a response that came in time, by its terminal result
  settle : Setup W → LoopState → ℕ → Attempt W → AttemptOutput → TerminalResult → Verdict
  unfolding attempt_trace attempt_event failure_event text_success_event structured_success_event
      is_failover_retryable has_failover_candidate elapsed_of
  settle s l index a output terminal =
      let trace =
        attempt_trace a.trace_id a.endpoint_uid a.adapter_plan.candidate_budget_ms terminal
          a.protected in
      let traced = attempt_event s.plan trace output in
      let l' = after l (elapsed_of output terminal) trace in
      elim terminal [
        | plain_text r ↦ record {
          events = traced ∷ text_success_event s.plan r output ∷ [];
          move = finish (plain_text r) l'.traces;
        }
        | structured r ↦ record {
          events = traced ∷ structured_success_event s.plan r output ∷ [];
          move = finish (structured r) l'.traces;
        }
        | failed f ↦
            let again = record l' { last_retryable_failure = some f } in
            if is_failover_retryable s.plan f
            then record {
              events = traced ∷ [];
              move =
                  if has_failover_candidate s.plan l'.attempted index
                  then advance again
                  else leave again;
            }
            else record {
              events = traced ∷ failure_event f ∷ [];
              move = finish (failed f) l'.traces;
            }
      ]

  -- the loop's body from the provider's answer on; the flag is the second answer of the cancellation token
  unfoldable pub after_attempt :
      Setup W → LoopState → ℕ → Attempt W → AttemptOutput → TerminalResult → Bool → Verdict
  unfolding settle cancelled_failure late_response_failure cancellation_event late_response_event
  after_attempt s l index a output terminal cancelled =
      let budget = a.adapter_plan.candidate_budget_ms in
      let elapsed = elapsed_of output terminal in
      let total = l.elapsed_total_ms + elapsed in
      let trace_of = λ (f : TypedFailure).
        attempt_trace a.trace_id a.endpoint_uid budget (failed f) a.protected in
      let stopped =
        cancelled_failure s.plan total (some a.endpoint_uid) (some a.trace_id) s.schema in
      let late = late_response_failure s.plan a.endpoint_uid total a.trace_id budget s.schema in
      if cancelled
      then record {
        events =
            attempt_event s.plan (trace_of stopped) output
            ∷ cancellation_event stopped
            ∷ late_response_event s.plan (trace_of stopped) output
            ∷ failure_event stopped
            ∷ [];
        move = finish (failed stopped) (l.traces ++ trace_of stopped ∷ []);
      }
      else if ltb_ℤ budget (pos elapsed) || ltb_ℤ s.plan.deadline_ms (pos total)
      then record {
        events =
            attempt_event s.plan (trace_of late) output
            ∷ late_response_event s.plan (trace_of late) output
            ∷ failure_event late
            ∷ [];
        move = finish (failed late) (l.traces ++ trace_of late ∷ []);
      }
      else settle s l index a output terminal
