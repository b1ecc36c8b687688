-- ===== src/Router/Route/Induction.antt =====
-- Induction over the loop of `route_invocation`: an invariant of the loop's state gives a fact about the result.
use llm_endpoint.Prelude.{ℕ, suc, String, ◌≡◌, refl, List, [], ◌∷◌, arith, ◌⊎◌}
use llm_endpoint.Prelude.Outcome.{Result, ok, raise}
use llm_endpoint.Prelude.{Option, none, some, value_or}
use llm_endpoint.Prelude.Dict.{Dict}
use llm_endpoint.Results.{TerminalResult, TypedFailure, failed}
use llm_endpoint.Callbacks.{SchemaContract, SecretResolver, SchemaResolver}
use llm_endpoint.Config.{Registry}
use llm_endpoint.Telemetry.{TelemetryEmitter}
use llm_endpoint.Adapters.{ProviderAdapter}
use llm_endpoint.Invocation.{InvocationPlan}
use llm_endpoint.Router.Events.{failure_event}
use llm_endpoint.Router.Schema.{SchemaAnswer, no_schema, schema, unresolved, resolve_schema}
use llm_endpoint.Router.{AttemptTrace, PoolRouteResult}
use llm_endpoint.Router.Failures.{pool_exhausted}
use llm_endpoint.Router.State.{Setup, LoopState, Move, finish, advance, leave}
use llm_endpoint.Telemetry.Emitting.{Run, emit_events}
use llm_endpoint.Router.Route.{
  step, route_from, follow, exhaust, deliver_result, route_result, route_with, route_invocation,
  initial, emitter_or_new,
}
use llm_endpoint.Router.Route.Inversion.{Decided, Attempted, step-inversion}

module _ {W : Type 0} where
  deliver_result-inversion :
      (t : TerminalResult) (ts : List AttemptTrace) (e : Result (Unit {0}) × Run W)
      (res : PoolRouteResult) (r' : Run W)
      → deliver_result t ts e ≡ (ok res, r')
      → (t ≡ res.terminal_result) × (ts ≡ res.attempt_traces)
  unfolding deliver_result route_result
  deliver_result-inversion t ts (ok _, r) res r' h = ground arith
  deliver_result-inversion t ts (raise e, r) res r' h = cc

  finish-inversion :
      (t : TerminalResult) (ts : List AttemptTrace) (r : Run W) (res : PoolRouteResult) (r' : Run W)
      → ◌≡◌ {A = Result PoolRouteResult × Run W} (ok (route_result t ts r), r) (ok res, r')
      → (t ≡ res.terminal_result) × (ts ≡ res.attempt_traces)
  unfolding route_result
  finish-inversion t ts r res r' h = ground arith

module _ {W : Type 0} (s : Setup W) (P : ℕ → List String → LoopState → Type 0)
    (Q : TerminalResult → List AttemptTrace → Type 0) where
  abbrev pub exhausted : LoopState → TerminalResult
  exhausted l = failed (pool_exhausted s.plan l.traces l.last_retryable_failure s.schema)

  -- what a move has to leave behind
  abbrev pub Leaves : ℕ → List String → Move → Type 0
  Leaves index uids (finish t ts) = Q t ts
  Leaves index uids (advance l) = P index uids l
  Leaves index uids (leave l) = Q (exhausted l) l.traces

  module _ (end : (index : ℕ) (l : LoopState) → P index [] l → Q (exhausted l) l.traces)
      (round : (index : ℕ) (uid : String) (uids : List String) (l : LoopState) (m : Move)
        → P index (uid ∷ uids) l
        → Decided s l uid index m ⊎ Attempted s l uid index m
        → Leaves (suc index) uids m) where
    exhaust-Q :
        (l : LoopState) (r r' : Run W) (res : PoolRouteResult)
        → Q (exhausted l) l.traces
        → exhaust s l r ≡ (ok res, r')
        → Q res.terminal_result res.attempt_traces
    unfolding exhaust
    exhaust-Q l r r' res q h =
        let (same_t, same_ts) = deliver_result-inversion _ _ _ res r' h in
        rw (← same_t, ← same_ts) q

    follow-Q :
        (index : ℕ) (uids : List String) (m : Result Move × Run W)
        (next : LoopState → Run W → Result PoolRouteResult × Run W) (r' : Run W)
        (res : PoolRouteResult)
        → ((l : LoopState) (r : Run W)
            → P index uids l
            → next l r ≡ (ok res, r')
            → Q res.terminal_result res.attempt_traces)
        → ((n : Move) → m.0 ≡ ok n → Leaves index uids n)
        → follow s next m ≡ (ok res, r')
        → Q res.terminal_result res.attempt_traces
    unfolding follow route_result
    follow-Q index uids (raise e, r) next r' res ih leaves h = cc
    follow-Q index uids (ok (finish t ts), r) next r' res ih leaves h =
        let (same_t, same_ts) = finish-inversion t ts r res r' h in
        rw (← same_t, ← same_ts) (leaves _ refl)
    follow-Q index uids (ok (advance l), r) next r' res ih leaves h = ih l r (leaves _ refl) h
    follow-Q index uids (ok (leave l), r) next r' res ih leaves h =
        exhaust-Q l r r' res (leaves _ refl) h

    pub route_from-Q :
        (index : ℕ) (uids : List String) (l : LoopState) (r r' : Run W) (res : PoolRouteResult)
        → P index uids l
        → route_from s index uids l r ≡ (ok res, r')
        → Q res.terminal_result res.attempt_traces
    unfolding route_from
    route_from-Q index [] l r r' res p h = exhaust-Q l r r' res (end index l p) h
    route_from-Q index (uid ∷ uids) l r r' res p h =
        follow-Q (suc index) uids (step s l uid index r) _ r' res
          (λ l' r₁ p' h'. route_from-Q (suc index) uids l' r₁ r' res p' h')
          (λ n e. round index uid uids l n p (step-inversion s l uid index n r e)) h

module _ {W : Type 0} (plan : InvocationPlan W) (Q : TerminalResult → List AttemptTrace → Type 0)
    (unresolved_Q : (f : TypedFailure) → Q (failed f) [])
    (routed : (s : Setup W) (r r' : Run W) (res : PoolRouteResult)
      → s.plan ≡ plan
      → route_from s 0 s.plan.endpoint_uids initial r ≡ (ok res, r')
      → Q res.terminal_result res.attempt_traces) where
  route_with-Q :
      (setup : Option SchemaContract → Setup W) (answer : Result SchemaAnswer) (r r' : Run W)
      (res : PoolRouteResult)
      → ((schema : Option SchemaContract) → (setup schema).plan ≡ plan)
      → route_with setup answer r ≡ (ok res, r')
      → Q res.terminal_result res.attempt_traces
  unfolding route_with
  route_with-Q setup (raise e) r r' res same h = cc
  route_with-Q setup (ok (unresolved f)) r r' res same h =
      let (same_t, same_ts) =
        deliver_result-inversion (failed f) [] (emit_events (failure_event f ∷ []) r) res r' h in
      rw (← same_t, ← same_ts) (unresolved_Q f)
  route_with-Q setup (ok no_schema) r r' res same h = routed (setup none) r r' res (same none) h
  route_with-Q setup (ok (schema c)) r r' res same h =
      routed (setup (some c)) r r' res (same (some c)) h

  pub route_invocation-Q :
      (registry : Registry) (adapters : Dict (ProviderAdapter W))
      (secret_resolver : Option (SecretResolver W)) (schema_resolver : Option (SchemaResolver W))
      (suppressed : Option (Dict String)) (emitter : Option (TelemetryEmitter W)) (w : W)
      (res : PoolRouteResult) (r' : Run W)
      → route_invocation plan registry adapters secret_resolver schema_resolver suppressed emitter w
        ≡ (ok res, r')
      → Q res.terminal_result res.attempt_traces
  unfolding route_invocation
  route_invocation-Q registry adapters secret_resolver schema_resolver suppressed emitter w res r'
        h =
      let (answer, w') = resolve_schema plan schema_resolver w in
      route_with-Q
        (λ c. record {
          plan = plan;
          registry = registry;
          adapters = adapters;
          secret_resolver = secret_resolver;
          suppressed = value_or suppressed [];
          schema = c;
        })
        answer (record { emitter = emitter_or_new emitter; world = w' }) r' res (λ c. refl) h
