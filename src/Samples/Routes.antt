-- ===== src/Samples/Routes.antt =====
-- Routes of the sample plan: a failover in text mode, and the single attempt of a structured-output mode.
use llm_endpoint.Prelude.{true, ◌+◌, ℕ, ◌≡◌, refl, ◌≤◌, none, some, String, List, [], ◌∷◌, ◌++◌}
use llm_endpoint.Prelude.Int.{pos}
use llm_endpoint.Prelude.Outcome.{Result, ok, raise, returned, raised}
use llm_endpoint.Config.{StructuredOutputMode}
use llm_endpoint.Invocation.{CancellationToken, InvocationPlan}
use llm_endpoint.Router.{PoolRouteResult, attempt_count}
use llm_endpoint.Router.Failures.{cancelled_failure}
use llm_endpoint.Results.{failed}
use llm_endpoint.Telemetry.Emitting.{Run}
use llm_endpoint.Router.Route.{route_invocation}
use llm_endpoint.Router.Route.Order.{candidates, route_invocation-in_order}
use llm_endpoint.Router.Route.Counts.{attempts-le-limit, structured_single_attempt}
use llm_endpoint.Router.Route.Failover.{
  AllButLast, IsPassed, Tells, failover_only_after_retryable, success_in_time,
}
use llm_endpoint.Telemetry.{telemetry_event, TelemetryEmitter}
use llm_endpoint.Router.Route.Cancelled.{IsStopped, route_invocation-IsStopped}
use llm_endpoint.Telemetry.Growth.{Grows}
use llm_endpoint.Router.Route.Growth.{route_invocation-Grows}
use llm_endpoint.Samples.Parts.{success_sample}
use llm_endpoint.Samples.{plan_of, registry, adapters, secrets, schemas}

abbrev text_plan : InvocationPlan ℕ
text_plan = plan_of StructuredOutputMode.none

abbrev json_plan : InvocationPlan ℕ
json_plan = plan_of StructuredOutputMode.json_schema

abbrev route_of : InvocationPlan ℕ → Result PoolRouteResult × Run ℕ
route_of plan =
    route_invocation plan registry adapters (some secrets) (some schemas)
      (some (("a", "unhealthy") ∷ [])) none 0

-- the result of a route that returned
abbrev result_or_empty : InvocationPlan ℕ → Result PoolRouteResult → PoolRouteResult
result_or_empty plan (ok res) = res
result_or_empty plan (raise e) = record {
  terminal_result = failed (cancelled_failure plan 0 none none none);
  attempt_traces = [];
  telemetry = [];
}

abbrev result_of : InvocationPlan ℕ → PoolRouteResult
result_of plan = result_or_empty plan (route_of plan).0

text_returned : route_of text_plan ≡ (ok (result_of text_plan), (route_of text_plan).1)
unfolding route_invocation telemetry_event
text_returned = refl

json_returned : route_of json_plan ≡ (ok (result_of json_plan), (route_of json_plan).1)
unfolding route_invocation telemetry_event
json_returned = refl

-- The suppressed endpoint is skipped, the second is turned down, and the third answers.
text_candidates : candidates (result_of text_plan).attempt_traces ≡ "a" ∷ "b" ∷ "c" ∷ []
unfolding route_invocation telemetry_event
text_candidates = refl

text_calls : (route_of text_plan).1.world ≡ 2
unfolding route_invocation telemetry_event
text_calls = refl

-- In a structured-output mode the second endpoint's failure is the last word.
json_calls : (route_of json_plan).1.world ≡ 1
unfolding route_invocation telemetry_event
json_calls = refl

route_invocation-in_order_example :
    (rest : List String) × (candidates (result_of text_plan).attempt_traces ++ rest
      ≡ "a" ∷ "b" ∷ "c" ∷ [])
route_invocation-in_order_example =
    route_invocation-in_order text_plan registry adapters (some secrets) (some schemas)
      (some (("a", "unhealthy") ∷ [])) none 0 (result_of text_plan) (route_of text_plan).1
      text_returned

attempts-le-limit_example : attempt_count (result_of text_plan).attempt_traces ≤ 2
attempts-le-limit_example =
    attempts-le-limit text_plan registry adapters (some secrets) (some schemas)
      (some (("a", "unhealthy") ∷ [])) none 0 (result_of text_plan) (route_of text_plan).1
      text_returned

structured_single_attempt_example : attempt_count (result_of json_plan).attempt_traces ≤ 1
structured_single_attempt_example =
    structured_single_attempt json_plan registry adapters (some secrets) (some schemas)
      (some (("a", "unhealthy") ∷ [])) none 0 (result_of json_plan) (route_of json_plan).1
      json_returned refl

failover_only_after_retryable_example : AllButLast IsPassed (result_of text_plan).attempt_traces
failover_only_after_retryable_example =
    failover_only_after_retryable text_plan registry adapters (some secrets) (some schemas)
      (some (("a", "unhealthy") ∷ [])) none 0 (result_of text_plan) (route_of text_plan).1
      text_returned

success_in_time_example :
    Tells (pos 1000) (result_of text_plan).terminal_result (result_of text_plan).attempt_traces
success_in_time_example =
    success_in_time text_plan registry adapters (some secrets) (some schemas)
      (some (("a", "unhealthy") ∷ [])) none 0 (result_of text_plan) (route_of text_plan).1
      text_returned

-- an emitter that has captured one event, and whose sink raises
abbrev used_emitter : TelemetryEmitter ℕ
used_emitter = record {
  sink = some (λ event w. (raised "OSError", w));
  captured_events = success_sample ∷ [];
  sink_failures = [];
}

route_invocation-Grows_example :
    Grows used_emitter
      (route_invocation text_plan registry adapters
        (some secrets)
        (some schemas)
        none
        (some used_emitter)
        0).1.emitter
route_invocation-Grows_example =
    route_invocation-Grows text_plan registry adapters (some secrets) (some schemas) none
      (some used_emitter) 0

-- the sample plan with a token that is cancelled from the start, and that changes the world when it is asked
abbrev cancelled_token : CancellationToken ℕ
cancelled_token w = (returned true, w + 100)

abbrev cancelled_plan : InvocationPlan ℕ
cancelled_plan = record (plan_of StructuredOutputMode.none) {
  cancellation_token = some cancelled_token;
}

route_invocation-IsStopped_example :
    IsStopped cancelled_plan none 107
      (route_invocation cancelled_plan registry adapters (some secrets) (some schemas) none none 7)
unfolding route_invocation
route_invocation-IsStopped_example =
    route_invocation-IsStopped cancelled_plan registry adapters (some secrets) (some schemas) none 7
      cancelled_token "a" ("b" ∷ "c" ∷ []) refl refl refl refl refl
