-- ===== src/Router/Before.antt =====
-- router.py: the body of `route_invocation`'s loop up to the provider's call.
pub mod Moves
use llm_endpoint.Prelude.{ℕ, String, Bool, Option, none, some, [], ◌∷◌, ◌++◌, if◌then◌else◌}
use llm_endpoint.Prelude.Int.{ℤ, pos, ◌-ℤ◌, leb_ℤ}
use llm_endpoint.Prelude.Dict.{Dict, lookup, has_key, lookup_or}
use llm_endpoint.Prelude.Outcome.{Result, ok, raise, Error, ◌>>=◌}
use llm_endpoint.Results.{failed}
use llm_endpoint.Config.{EndpointConfig, FormatValue, member, raw, format_value}
use llm_endpoint.Adapters.{AdapterInvocationPlan, ProviderAdapter, adapter_plan}
use llm_endpoint.Invocation.{InvocationPlan}
use llm_endpoint.Router.{trace_id, skip_trace, attempt_trace}
use llm_endpoint.Router.Failures.{cancelled_failure, deadline_failure, missing_adapter_failure}
use llm_endpoint.Router.Events.{
  cancellation_event, deadline_event, failure_event, suppression_event,
}
use llm_endpoint.Router.State.{Setup, LoopState, finish, advance, leave, Before, verdict, attempt}
use llm_endpoint.Router.Budget.{should_skip_suppressed, candidate_budget}

module _ {W : Type 0} where
  -- `adapters.get(fmt) or adapters.get(fmt.value)`: a member and its value are one key, and text has no `value`.
  unfoldable pub find_adapter :
      FormatValue → Dict (ProviderAdapter W) → Result (Option (ProviderAdapter W))
  unfolding lookup format_value
  find_adapter (member f) adapters = elim (lookup (format_value f) adapters) [
    | none ↦ ok (lookup (format_value f) adapters)
    | some a ↦ ok (some a)
  ]
  find_adapter (raw t) adapters = elim (lookup t adapters) [
    | none ↦ raise (Error.attribute_error "'str' object has no attribute 'value'")
    | some a ↦ ok (some a)
  ]

  -- the branch where no adapter is registered, and the one that makes an attempt
  with_adapter :
      Setup W
      → LoopState
      → String
      → String
      → AdapterInvocationPlan
      → Option (ProviderAdapter W)
      → Before W
  unfolding lookup missing_adapter_failure attempt_trace failure_event
  with_adapter s l uid id p none =
      let terminal = missing_adapter_failure s.plan uid s.schema in
      let trace =
        attempt_trace id uid p.candidate_budget_ms (failed terminal) (has_key uid s.suppressed) in
      verdict (record {
        events = failure_event terminal ∷ [];
        move = finish (failed terminal) (l.traces ++ trace ∷ []);
      })
  with_adapter s l uid id p (some adapter) = attempt (record {
    endpoint_uid = uid;
    adapter_plan = p;
    adapter = adapter;
    trace_id = id;
    protected = has_key uid s.suppressed;
  })

  -- the arguments of the adapter's plan
  unfoldable pub attempt_request : InvocationPlan W → EndpointConfig → ℤ → AdapterInvocationPlan
  attempt_request plan endpoint budget = record {
    endpoint_uid = endpoint.uid;
    provider_format = endpoint.provider_format;
    model_family = endpoint.model_family;
    model = endpoint.model;
    operation_invocation_id = plan.operation_invocation_id;
    messages = plan.messages;
    deadline_ms = plan.deadline_ms;
    candidate_budget_ms = budget;
    schema_mode = plan.effective_config.structured_output_mode;
    credential_ref = some endpoint.credential_ref;
    credential = none;
    schema_contract_ref = plan.schema_contract_ref;
    policy_fingerprint = some plan.policy_fingerprint;
    request_metadata = plan.request_metadata;
  }

  -- the branch of an endpoint with time left
  prepare : Setup W → LoopState → String → ℕ → EndpointConfig → ℤ → Result (Before W)
  unfolding candidate_budget attempt_request adapter_plan find_adapter with_adapter trace_id
  prepare s l uid index endpoint remaining = do
    budget ← candidate_budget s.plan index remaining
    p ← adapter_plan (attempt_request s.plan endpoint budget)
    adapter ← find_adapter endpoint.provider_format s.adapters
    ok (with_adapter s l uid (trace_id s.plan.operation_invocation_id uid index) p adapter)

  -- the lookup of the endpoint, and the deadline's test
  consider : Setup W → LoopState → String → ℕ → Result (Before W)
  unfolding lookup prepare deadline_failure deadline_event failure_event
  consider s l uid index = elim (lookup uid s.registry.endpoints_by_uid) [
    | none ↦ raise (Error.key_error uid)
    | some endpoint ↦
        let remaining = s.plan.deadline_ms -ℤ pos l.elapsed_total_ms in
        let terminal = deadline_failure s.plan l.elapsed_total_ms uid s.schema in
        if leb_ℤ remaining (pos 0)
        then ok (
            verdict (record {
              events = deadline_event terminal ∷ failure_event terminal ∷ [];
              move = finish (failed terminal) l.traces;
            }))
        else prepare s l uid index endpoint remaining
  ]

  -- the loop's body up to the provider's call; the flag is the answer of the cancellation token
  unfoldable pub before_attempt : Setup W → LoopState → String → ℕ → Bool → Result (Before W)
  unfolding lookup cancelled_failure cancellation_event failure_event should_skip_suppressed
      skip_trace suppression_event consider
  before_attempt s l uid index cancelled =
      let terminal = cancelled_failure s.plan l.elapsed_total_ms none none s.schema in
      let skipped =
        skip_trace s.plan.operation_invocation_id uid index (lookup_or uid s.suppressed "") in
      if cancelled
      then ok (
          verdict (record {
            events = cancellation_event terminal ∷ failure_event terminal ∷ [];
            move = finish (failed terminal) l.traces;
          }))
      else if leb_ℤ s.plan.effective_config.max_attempts (pos l.attempted)
      then ok (verdict (record { events = []; move = leave l }))
      else if should_skip_suppressed s uid index
      then ok (
          verdict (record {
            events = suppression_event s.plan skipped ∷ [];
            move = advance (record l { traces = l.traces ++ skipped ∷ [] });
          }))
      else consider s l uid index
