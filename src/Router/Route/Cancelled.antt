-- ===== src/Router/Route/Cancelled.antt =====
-- A route whose token is cancelled from the start.
use llm_endpoint.Prelude.{
  ℕ, ◌≡◌, value_or, refl, sym, subst, ◌∙◌, String, Bool, true, Option, none, some, List, [], ◌∷◌,
}
use llm_endpoint.Prelude.Text.{truthy}
use llm_endpoint.Prelude.Dict.{Dict}
use llm_endpoint.Prelude.Outcome.{Result, ok, raise, returned}
use llm_endpoint.Results.{TerminalResult, failed}
use llm_endpoint.Router.Schema.{SchemaAnswer, no_schema, resolve_schema}
use llm_endpoint.Callbacks.{SchemaContract, SecretResolver, SchemaResolver}
use llm_endpoint.Config.{Registry}
use llm_endpoint.Telemetry.{TelemetryEvent}
use llm_endpoint.Adapters.{ProviderAdapter}
use llm_endpoint.Invocation.{InvocationPlan, CancellationToken}
use llm_endpoint.Router.{AttemptTrace, PoolRouteResult}
use llm_endpoint.Router.Failures.{cancelled_failure}
use llm_endpoint.Router.Events.{cancellation_event, failure_event}
use llm_endpoint.Router.After.Terminal.{is_text_mode}
use llm_endpoint.Telemetry.Emitting.{Run, emit_events}
use llm_endpoint.Router.Route.{
  deliver_move, deliver, is_cancelled, act, started, step, follow, route_with, emitter_or_new,
  route_from, route_invocation, route_result, initial,
}
use llm_endpoint.Router.State.{Setup, LoopState, Move, finish, advance, leave}
use llm_endpoint.Router.Events.Made.{cancellation_event-made, failure_event-made}
use llm_endpoint.Router.Before.{before_attempt}

module _ {W : Type 0} where
  -- two events, with an emitter that has no sink
  emit_two :
      (a b : Result TelemetryEvent) (x y : TelemetryEvent) (r : Run W)
      → a ≡ ok x
      → b ≡ ok y
      → r.emitter.sink ≡ none
      → ((emit_events (a ∷ b ∷ []) r).0 ≡ ok tt) × ((emit_events (a ∷ b ∷ []) r).1.world ≡ r.world)
  unfolding emit_events
  emit_two a b x y r p q quiet = rw (p, q, quiet) (refl, refl)

  delivered :
      (m : Move) (e : Result (Unit {0}) × Run W)
      → e.0 ≡ ok tt
      → ((deliver_move m e).0 ≡ ok m) × ((deliver_move m e).1.world ≡ e.1.world)
  unfolding deliver_move
  delivered m (ok _, r) h = (refl, refl)
  delivered m (raise x, r) h = cc

  asked :
      (plan : InvocationPlan W) (r : Run W) (token : CancellationToken W)
      → plan.cancellation_token ≡ some token
      → (token r.world).0 ≡ returned true
      → is_cancelled plan r ≡ (ok true, record r { world = (token r.world).1 })
  unfolding is_cancelled
  asked plan r token present yes_answer = rw (present, yes_answer, is_cancelled) refl

module _ {W : Type 0} (s : Setup W) where
  -- A cancelled token ends the round before anything else is done.
  act-cancelled :
      (l : LoopState) (uid : String) (index : ℕ) (r : Run W)
      → truthy s.plan.operation_invocation_id ≡ true
      → r.emitter.sink ≡ none
      → ((act s l index (before_attempt s l uid index true) r).0
          ≡ ok (
              finish
                (failed (cancelled_failure s.plan l.elapsed_total_ms none none s.schema))
                l.traces))
        × ((act s l index (before_attempt s l uid index true) r).1.world ≡ r.world)
  unfolding act deliver before_attempt
  act-cancelled l uid index r id quiet =
      let f = cancelled_failure s.plan l.elapsed_total_ms none none s.schema in
      let (x, p) = cancellation_event-made f id in
      let (y, q) = failure_event-made f id in
      let (done, world) = emit_two (cancellation_event f) (failure_event f) x y r p q quiet in
      let (moved, same) =
        delivered (finish (failed f) l.traces)
          (emit_events (cancellation_event f ∷ failure_event f ∷ []) r) done in
      (moved, same ∙ world)

  step-cancelled :
      (l : LoopState) (uid : String) (index : ℕ) (r : Run W) (token : CancellationToken W)
      → s.plan.cancellation_token ≡ some token
      → (token r.world).0 ≡ returned true
      → truthy s.plan.operation_invocation_id ≡ true
      → r.emitter.sink ≡ none
      → ((step s l uid index r).0
          ≡ ok (
              finish
                (failed (cancelled_failure s.plan l.elapsed_total_ms none none s.schema))
                l.traces))
        × ((step s l uid index r).1.world ≡ (token r.world).1)
  unfolding step started
  step-cancelled l uid index r token present yes_answer id quiet =
      let e = asked s.plan r token present yes_answer in
      let (moved, world) =
        act-cancelled l uid index (record r { world = (token r.world).1 }) id quiet in
      subst
        (λ (c : Result Bool × Run W).
          ((started s l uid index c).0
            ≡ ok (
                finish (failed (cancelled_failure s.plan l.elapsed_total_ms none none s.schema))
                  l.traces))
          × ((started s l uid index c).1.world ≡ (token r.world).1))
        (sym e) (moved, world)

  finished :
      (next : LoopState → Run W → Result PoolRouteResult × Run W) (m : Result Move × Run W)
      (t : TerminalResult) (ts : List AttemptTrace)
      → m.0 ≡ ok (finish t ts)
      → ((follow s next m).0 ≡ ok (route_result t ts m.1)) × ((follow s next m).1.world ≡ m.1.world)
  unfolding follow
  finished next (ok (finish u us), r) t ts h = (cc h, refl)
  finished next (ok (advance l), r) t ts h = cc
  finished next (ok (leave l), r) t ts h = cc
  finished next (raise e, r) t ts h = cc

-- A route that stopped before its first attempt, with the world that the token left.
pub record IsStopped {W : Type 0} (plan : InvocationPlan W) (schema : Option SchemaContract)
    (left : W) (out : Result PoolRouteResult × Run W) : Type 0 where
  pub result : PoolRouteResult
  pub returns : out.0 ≡ ok result
  pub terminal : result.terminal_result ≡ failed (cancelled_failure plan 0 none none schema)
  pub untraced : result.attempt_traces ≡ []
  pub world : out.1.world ≡ left

module _ {W : Type 0} (s : Setup W) where
  route_from-IsStopped :
      (uid : String) (uids : List String) (r : Run W) (token : CancellationToken W)
      → s.plan.cancellation_token ≡ some token
      → (token r.world).0 ≡ returned true
      → truthy s.plan.operation_invocation_id ≡ true
      → r.emitter.sink ≡ none
      → IsStopped s.plan s.schema (token r.world).1 (route_from s 0 (uid ∷ uids) initial r)
  unfolding route_from route_result
  route_from-IsStopped uid uids r token present yes_answer id quiet =
      let (moved, world) = step-cancelled s initial uid 0 r token present yes_answer id quiet in
      let f = cancelled_failure s.plan 0 none none s.schema in
      let (finish_result, same) =
        finished s (λ l' r'. route_from s 1 uids l' r') (step s initial uid 0 r) (failed f) []
          moved in
      record {
        result = route_result (failed f) [] (step s initial uid 0 r).1;
        returns = finish_result;
        terminal = refl;
        untraced = refl;
        world = same ∙ world;
      }

module _ {W : Type 0} where
  text_needs_none :
      (plan : InvocationPlan W) (resolver : Option (SchemaResolver W)) (w : W)
      → is_text_mode plan ≡ true
      → resolve_schema plan resolver w ≡ (ok no_schema, w)
  unfolding resolve_schema
  text_needs_none plan resolver w text = rw text refl

  text_route :
      (setup : Option SchemaContract → Setup W) (w : W) (token : CancellationToken W) (uid : String)
      (uids : List String)
      → (setup none).plan.endpoint_uids ≡ uid ∷ uids
      → (setup none).plan.cancellation_token ≡ some token
      → (token w).0 ≡ returned true
      → truthy (setup none).plan.operation_invocation_id ≡ true
      → IsStopped
          (setup none).plan
          (setup none).schema
          (token w).1
          (route_with setup (ok no_schema) (record { emitter = emitter_or_new none; world = w }))
  unfolding route_with
  text_route setup w token uid uids candidates present yes_answer id =
      let r : Run W = record { emitter = emitter_or_new none; world = w } in
      subst
        (λ us.
          IsStopped (setup none).plan (setup none).schema (token w).1
            (route_from (setup none) 0 us initial r))
        (sym candidates)
        (route_from-IsStopped (setup none) uid uids r token present yes_answer id refl)

-- If the token of a plan for text is cancelled when it is first asked, the invocation has an identifier, there is a
-- candidate, and no emitter is given, the route returns the failure of a cancellation without a trace, and leaves
-- the world as the token left it.
pub route_invocation-IsStopped :
    {W : Type 0} (plan : InvocationPlan W) (registry : Registry)
    (adapters : Dict (ProviderAdapter W)) (secret_resolver : Option (SecretResolver W))
    (schema_resolver : Option (SchemaResolver W)) (suppressed : Option (Dict String)) (w : W)
    (token : CancellationToken W) (uid : String) (uids : List String)
    → is_text_mode plan ≡ true
    → plan.endpoint_uids ≡ uid ∷ uids
    → plan.cancellation_token ≡ some token
    → (token w).0 ≡ returned true
    → truthy plan.operation_invocation_id ≡ true
    → IsStopped plan none
        (token w).1
        (route_invocation plan registry adapters secret_resolver schema_resolver suppressed none w)
unfolding route_invocation resolve_schema
route_invocation-IsStopped {W} plan registry adapters secret_resolver schema_resolver suppressed w
      token uid uids text candidates present yes_answer id =
    let setup : Option SchemaContract → Setup W = λ c. record {
      plan = plan;
      registry = registry;
      adapters = adapters;
      secret_resolver = secret_resolver;
      suppressed = value_or suppressed [];
      schema = c;
    } in
    subst
      (λ (answer : Result SchemaAnswer × W).
        IsStopped plan none (token w).1
          (route_with setup answer.0 (record { emitter = emitter_or_new none; world = answer.1 })))
      (sym (text_needs_none plan schema_resolver w text))
      (text_route setup w token uid uids candidates present yes_answer id)
