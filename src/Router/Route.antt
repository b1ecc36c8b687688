-- ===== src/Router/Route.antt =====
-- router.py: `route_invocation`, its loop over the candidates, and the emission of events.
pub mod Inversion
pub mod Induction
pub mod Rounds
pub mod Order
pub mod Counts
pub mod Failover
pub mod Growth
pub mod Cancelled
use llm_endpoint.Prelude.{ℕ, suc, String, Bool, false, Option, none, some, List, [], ◌∷◌, value_or}
use llm_endpoint.Prelude.Dict.{Dict}
use llm_endpoint.Prelude.Outcome.{Result, ok, raise, Error, Call, returned, raised}
use llm_endpoint.Results.{TerminalResult, failed}
use llm_endpoint.Callbacks.{SchemaContract, SecretResolver, SchemaResolver}
use llm_endpoint.Config.{Registry}
use llm_endpoint.Telemetry.{TelemetryEvent, TelemetryEmitter, emit}
use llm_endpoint.Adapters.{ProviderAdapter}
use llm_endpoint.Adapters.Execution.{AttemptOutput, execute_provider_attempt}
use llm_endpoint.Telemetry.Emitting.{Run, emit_events}
use llm_endpoint.Invocation.{InvocationPlan}
use llm_endpoint.Router.{AttemptTrace, PoolRouteResult}
use llm_endpoint.Router.Failures.{pool_exhausted}
use llm_endpoint.Router.Events.{failure_event, pool_exhausted_event}
use llm_endpoint.Router.Schema.{SchemaAnswer, no_schema, schema, unresolved, resolve_schema}
use llm_endpoint.Router.State.{
  Setup, LoopState, Move, finish, advance, leave, Verdict, Attempt, Before, verdict, attempt,
}
use llm_endpoint.Router.Before.{before_attempt}
use llm_endpoint.Router.After.{after_attempt, terminal_result}

abbrev pub initial : LoopState
initial = record { traces = []; attempted = 0; elapsed_total_ms = 0; last_retryable_failure = none }

-- An exception of a host's token leaves the route.
abbrev token_answer : Call Bool → Result Bool
token_answer (returned b) = ok b
token_answer (raised name) = raise (Error.callback_error name)

module _ {W : Type 0} where
  -- the move of a decision, once its events are out
  deliver_move : Move → Result (Unit {0}) × Run W → Result Move × Run W
  deliver_move move (ok _, r) = (ok move, r)
  deliver_move move (raise e, r) = (raise e, r)

  unfoldable pub deliver : Verdict → Run W → Result Move × Run W
  unfolding emit_events deliver_move
  deliver v r = deliver_move v.move (emit_events v.events r)

  -- `_is_cancelled`
  unfoldable pub is_cancelled : InvocationPlan W → Run W → Result Bool × Run W
  is_cancelled plan r = elim plan.cancellation_token [
    | none ↦ (ok false, r)
    | some token ↦ let (answer, w) = token r.world in (token_answer answer, record r { world = w })
  ]

  -- once the token has answered
  concluded :
      Setup W
      → LoopState
      → ℕ
      → Attempt W
      → AttemptOutput
      → TerminalResult
      → Result Bool × Run W
      → Result Move × Run W
  unfolding after_attempt deliver
  concluded s l index a output terminal (raise e, r) = (raise e, r)
  concluded s l index a output terminal (ok cancelled, r) =
      deliver (after_attempt s l index a output terminal cancelled) r

  -- from the terminal result on: the token is asked again, and the decision delivered
  conclude :
      Setup W
      → LoopState
      → ℕ
      → Attempt W
      → AttemptOutput
      → Result TerminalResult
      → Run W
      → Result Move × Run W
  unfolding is_cancelled concluded
  conclude s l index a output (raise e) r = (raise e, r)
  conclude s l index a output (ok terminal) r =
      concluded s l index a output terminal (is_cancelled s.plan r)

  judge : Setup W → LoopState → ℕ → Attempt W → Result AttemptOutput → Run W → Result Move × Run W
  unfolding conclude terminal_result
  judge s l index a (raise e) r = (raise e, r)
  judge s l index a (ok output) r =
      conclude s l index a output (terminal_result s.plan output a.trace_id s.schema) r

  unfoldable pub perform : Setup W → LoopState → ℕ → Attempt W → Run W → Result Move × Run W
  unfolding execute_provider_attempt judge
  perform s l index a r =
      let (output, w) =
        execute_provider_attempt a.adapter_plan a.adapter s.secret_resolver r.world in
      judge s l index a output (record r { world = w })

  act : Setup W → LoopState → ℕ → Result (Before W) → Run W → Result Move × Run W
  unfolding deliver perform
  act s l index (raise e) r = (raise e, r)
  act s l index (ok (verdict v)) r = deliver v r
  act s l index (ok (attempt a)) r = perform s l index a r

  -- a round, once the token has answered
  started : Setup W → LoopState → String → ℕ → Result Bool × Run W → Result Move × Run W
  unfolding before_attempt act
  started s l uid index (raise e, r) = (raise e, r)
  started s l uid index (ok cancelled, r) = act s l index (before_attempt s l uid index cancelled) r

  -- one round of the loop
  unfoldable pub step : Setup W → LoopState → String → ℕ → Run W → Result Move × Run W
  unfolding is_cancelled started
  step s l uid index r = started s l uid index (is_cancelled s.plan r)

  -- `_route_result`
  unfoldable pub route_result : TerminalResult → List AttemptTrace → Run W → PoolRouteResult
  route_result terminal traces r = record {
    terminal_result = terminal;
    attempt_traces = traces;
    telemetry = r.emitter.captured_events;
  }

  deliver_result :
      TerminalResult
      → List AttemptTrace
      → Result (Unit {0}) × Run W
      → Result PoolRouteResult × Run W
  unfolding route_result
  deliver_result terminal traces (ok _, r) = (ok (route_result terminal traces r), r)
  deliver_result terminal traces (raise e, r) = (raise e, r)

  -- what follows the loop
  unfoldable pub exhaust : Setup W → LoopState → Run W → Result PoolRouteResult × Run W
  unfolding pool_exhausted pool_exhausted_event emit_events deliver_result
  exhaust s l r =
      let terminal = pool_exhausted s.plan l.traces l.last_retryable_failure s.schema in
      deliver_result (failed terminal) l.traces
        (emit_events (pool_exhausted_event s.plan terminal l.traces ∷ []) r)

  follow :
      Setup W
      → (LoopState → Run W → Result PoolRouteResult × Run W)
      → Result Move × Run W
      → Result PoolRouteResult × Run W
  unfolding exhaust route_result
  follow s next (raise e, r) = (raise e, r)
  follow s next (ok (finish terminal traces), r) = (ok (route_result terminal traces r), r)
  follow s next (ok (advance l), r) = next l r
  follow s next (ok (leave l), r) = exhaust s l r

  -- the loop, from the candidate with the given index on
  unfoldable pub route_from :
      Setup W → ℕ → List String → LoopState → Run W → Result PoolRouteResult × Run W
  unfolding step follow exhaust
  route_from s index [] l r = exhaust s l r
  route_from s index (uid ∷ uids) l r =
      follow s (λ l' r'. route_from s (suc index) uids l' r') (step s l uid index r)

  route_with :
      (Option SchemaContract → Setup W)
      → Result SchemaAnswer
      → Run W
      → Result PoolRouteResult × Run W
  unfolding failure_event emit_events deliver_result route_from
  route_with setup (raise e) r = (raise e, r)
  route_with setup (ok (unresolved f)) r =
      deliver_result (failed f) [] (emit_events (failure_event f ∷ []) r)
  route_with setup (ok no_schema) r =
      let s = setup none in route_from s 0 s.plan.endpoint_uids initial r
  route_with setup (ok (schema c)) r =
      let s = setup (some c) in route_from s 0 s.plan.endpoint_uids initial r

  -- `telemetry_emitter or TelemetryEmitter()`
  abbrev pub emitter_or_new : Option (TelemetryEmitter W) → TelemetryEmitter W
  emitter_or_new none = record { sink = none; captured_events = []; sink_failures = [] }
  emitter_or_new (some e) = e

  unfoldable pub route_invocation :
      InvocationPlan W
      → Registry
      → Dict (ProviderAdapter W)
      → Option (SecretResolver W)
      → Option (SchemaResolver W)
      → Option (Dict String)
      → Option (TelemetryEmitter W)
      → W
      → Result PoolRouteResult × Run W
  unfolding resolve_schema route_with
  route_invocation plan registry adapters secret_resolver schema_resolver suppressed emitter w =
      let (answer, w') = resolve_schema plan schema_resolver w in
      route_with
        (λ schema. record {
          plan = plan;
          registry = registry;
          adapters = adapters;
          secret_resolver = secret_resolver;
          suppressed = value_or suppressed [];
          schema = schema;
        })
        answer (record { emitter = emitter_or_new emitter; world = w' })
