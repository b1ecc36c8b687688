-- ===== src/Router/Route/Growth.antt =====
-- What routing does to the emitter.
use llm_endpoint.Prelude.{
  ℕ, suc, Bool, value_or, Option-cases, inl, inr, String, Option, none, some, List, [], ◌∷◌,
}
use llm_endpoint.Prelude.Dict.{Dict}
use llm_endpoint.Prelude.Outcome.{Result, ok, raise}
use llm_endpoint.Results.{TerminalResult, failed}
use llm_endpoint.Callbacks.{SchemaContract, SecretResolver, SchemaResolver}
use llm_endpoint.Config.{Registry}
use llm_endpoint.Telemetry.{TelemetryEmitter}
use llm_endpoint.Telemetry.Growth.{Grows, Grows-refl, Grows-trans, emit_events-Grows}
use llm_endpoint.Adapters.{ProviderAdapter}
use llm_endpoint.Adapters.Execution.{AttemptOutput, execute_provider_attempt}
use llm_endpoint.Invocation.{InvocationPlan}
use llm_endpoint.Router.{AttemptTrace, PoolRouteResult}
use llm_endpoint.Router.Failures.{pool_exhausted}
use llm_endpoint.Router.Events.{failure_event, pool_exhausted_event}
use llm_endpoint.Router.Schema.{SchemaAnswer, no_schema, schema, unresolved, resolve_schema}
use llm_endpoint.Router.State.{
  Setup, LoopState, Move, finish, advance, leave, Verdict, Attempt, Before, verdict, attempt,
}
use llm_endpoint.Router.Before.{before_attempt}
use llm_endpoint.Router.After.{after_attempt, terminal_result}
use llm_endpoint.Telemetry.Emitting.{Run, emit_events}
use llm_endpoint.Router.Route.{
  initial, deliver_move, deliver, is_cancelled, concluded, conclude, judge, perform, act, started,
  step, deliver_result, exhaust, follow, route_from, route_with, emitter_or_new, route_invocation,
}

module _ {W : Type 0} where
  deliver_move-Grows :
      (m : Move) (before : TelemetryEmitter W) (e : Result (Unit {0}) × Run W)
      → Grows before e.1.emitter
      → Grows before (deliver_move m e).1.emitter
  unfolding deliver_move
  deliver_move-Grows m before (ok _, r) h = h
  deliver_move-Grows m before (raise e, r) h = h

  deliver-Grows : (v : Verdict) (r : Run W) → Grows r.emitter (deliver v r).1.emitter
  unfolding deliver
  deliver-Grows v r =
      deliver_move-Grows v.move r.emitter (emit_events v.events r) (emit_events-Grows v.events r)

  token-Grows :
      (plan : InvocationPlan W) (r : Run W) → Grows r.emitter (is_cancelled plan r).1.emitter
  unfolding is_cancelled
  token-Grows plan r = elim (Option-cases plan.cancellation_token) [
    | inl absent ↦ rw (absent, is_cancelled) (Grows-refl r.emitter)
    | inr (token, present) ↦ rw (present, is_cancelled) (Grows-refl r.emitter)
  ]

  deliver_result-Grows :
      (t : TerminalResult) (ts : List AttemptTrace) (before : TelemetryEmitter W)
      (e : Result (Unit {0}) × Run W)
      → Grows before e.1.emitter
      → Grows before (deliver_result t ts e).1.emitter
  unfolding deliver_result
  deliver_result-Grows t ts before (ok _, r) h = h
  deliver_result-Grows t ts before (raise e, r) h = h

module _ {W : Type 0} (s : Setup W) where
  concluded-Grows :
      (l : LoopState) (index : ℕ) (a : Attempt W) (output : AttemptOutput)
      (terminal : TerminalResult) (before : TelemetryEmitter W) (c : Result Bool × Run W)
      → Grows before c.1.emitter
      → Grows before (concluded s l index a output terminal c).1.emitter
  unfolding concluded
  concluded-Grows l index a output terminal before (raise e, r) h = h
  concluded-Grows l index a output terminal before (ok cancelled, r) h =
      let v = after_attempt s l index a output terminal cancelled in
      Grows-trans before r.emitter (deliver v r).1.emitter h (deliver-Grows v r)

  conclude-Grows :
      (l : LoopState) (index : ℕ) (a : Attempt W) (output : AttemptOutput)
      (terminal : Result TerminalResult) (r : Run W)
      → Grows r.emitter (conclude s l index a output terminal r).1.emitter
  unfolding conclude
  conclude-Grows l index a output (raise e) r = Grows-refl r.emitter
  conclude-Grows l index a output (ok terminal) r =
      concluded-Grows l index a output terminal r.emitter (is_cancelled s.plan r)
        (token-Grows s.plan r)

  judge-Grows :
      (l : LoopState) (index : ℕ) (a : Attempt W) (output : Result AttemptOutput) (r : Run W)
      → Grows r.emitter (judge s l index a output r).1.emitter
  unfolding judge
  judge-Grows l index a (raise e) r = Grows-refl r.emitter
  judge-Grows l index a (ok output) r =
      conclude-Grows l index a output (terminal_result s.plan output a.trace_id s.schema) r

  act-Grows :
      (l : LoopState) (index : ℕ) (b : Result (Before W)) (r : Run W)
      → Grows r.emitter (act s l index b r).1.emitter
  unfolding act perform
  act-Grows l index (raise e) r = Grows-refl r.emitter
  act-Grows l index (ok (verdict v)) r = deliver-Grows v r
  act-Grows l index (ok (attempt a)) r =
      let (output, w) =
        execute_provider_attempt a.adapter_plan a.adapter s.secret_resolver r.world in
      judge-Grows l index a output (record r { world = w })

  started-Grows :
      (l : LoopState) (uid : String) (index : ℕ) (before : TelemetryEmitter W)
      (c : Result Bool × Run W)
      → Grows before c.1.emitter
      → Grows before (started s l uid index c).1.emitter
  unfolding started
  started-Grows l uid index before (raise e, r) h = h
  started-Grows l uid index before (ok cancelled, r) h =
      let b = before_attempt s l uid index cancelled in
      Grows-trans before r.emitter (act s l index b r).1.emitter h (act-Grows l index b r)

  step-Grows :
      (l : LoopState) (uid : String) (index : ℕ) (r : Run W)
      → Grows r.emitter (step s l uid index r).1.emitter
  unfolding step
  step-Grows l uid index r =
      started-Grows l uid index r.emitter (is_cancelled s.plan r) (token-Grows s.plan r)

  exhaust-Grows : (l : LoopState) (r : Run W) → Grows r.emitter (exhaust s l r).1.emitter
  unfolding exhaust
  exhaust-Grows l r =
      let terminal = pool_exhausted s.plan l.traces l.last_retryable_failure s.schema in
      let event = pool_exhausted_event s.plan terminal l.traces in
      deliver_result-Grows (failed terminal) l.traces r.emitter (emit_events (event ∷ []) r)
        (emit_events-Grows (event ∷ []) r)

  follow-Grows :
      (next : LoopState → Run W → Result PoolRouteResult × Run W) (before : TelemetryEmitter W)
      (m : Result Move × Run W)
      → ((l : LoopState) (r : Run W) → Grows r.emitter (next l r).1.emitter)
      → Grows before m.1.emitter
      → Grows before (follow s next m).1.emitter
  unfolding follow
  follow-Grows next before (raise e, r) onward h = h
  follow-Grows next before (ok (finish t ts), r) onward h = h
  follow-Grows next before (ok (advance l), r) onward h =
      Grows-trans before r.emitter (next l r).1.emitter h (onward l r)
  follow-Grows next before (ok (leave l), r) onward h =
      Grows-trans before r.emitter (exhaust s l r).1.emitter h (exhaust-Grows l r)

  route_from-Grows :
      (index : ℕ) (uids : List String) (l : LoopState) (r : Run W)
      → Grows r.emitter (route_from s index uids l r).1.emitter
  unfolding route_from
  route_from-Grows index [] l r = exhaust-Grows l r
  route_from-Grows index (uid ∷ uids) l r =
      follow-Grows _ r.emitter (step s l uid index r)
        (λ l' r'. route_from-Grows (suc index) uids l' r') (step-Grows l uid index r)

module _ {W : Type 0} where
  route_with-Grows :
      (setup : Option SchemaContract → Setup W) (answer : Result SchemaAnswer) (r : Run W)
      → Grows r.emitter (route_with setup answer r).1.emitter
  unfolding route_with
  route_with-Grows setup (raise e) r = Grows-refl r.emitter
  route_with-Grows setup (ok (unresolved f)) r =
      deliver_result-Grows (failed f) [] r.emitter (emit_events (failure_event f ∷ []) r)
        (emit_events-Grows (failure_event f ∷ []) r)
  route_with-Grows setup (ok no_schema) r =
      route_from-Grows (setup none) 0 (setup none).plan.endpoint_uids initial r
  route_with-Grows setup (ok (schema c)) r =
      route_from-Grows (setup (some c)) 0 (setup (some c)).plan.endpoint_uids initial r

  -- Routing only adds events to the emitter that it is given, after those captured before, also where it raises.
  pub route_invocation-Grows :
      (plan : InvocationPlan W) (registry : Registry) (adapters : Dict (ProviderAdapter W))
      (secret_resolver : Option (SecretResolver W)) (schema_resolver : Option (SchemaResolver W))
      (suppressed : Option (Dict String)) (emitter : Option (TelemetryEmitter W)) (w : W)
      → Grows
          (emitter_or_new emitter)
          (route_invocation plan registry adapters secret_resolver schema_resolver suppressed
            emitter w).1.emitter
  unfolding route_invocation
  route_invocation-Grows plan registry adapters secret_resolver schema_resolver suppressed emitter
        w =
      let (answer, w') = resolve_schema plan schema_resolver w in
      route_with-Grows
        (λ c. record {
          plan = plan;
          registry = registry;
          adapters = adapters;
          secret_resolver = secret_resolver;
          suppressed = value_or suppressed [];
          schema = c;
        })
        answer (record { emitter = emitter_or_new emitter; world = w' })
