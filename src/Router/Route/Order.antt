-- ===== src/Router/Route/Order.antt =====
-- The candidates that `route_invocation` comes to, in order.
use llm_endpoint.Prelude.{
  ℕ, suc, String, Bool, true, false, ◌≡◌, refl, ap, ◌∙◌, Option, List, [], ◌∷◌, ◌++◌, inl, inr, map,
}
use mathlib.Core.List.{append_assoc, map-append}
use llm_endpoint.Prelude.Dict.{Dict}
use llm_endpoint.Prelude.Outcome.{ok}
use llm_endpoint.Results.{TerminalResult}
use llm_endpoint.Callbacks.{SecretResolver, SchemaResolver}
use llm_endpoint.Config.{Registry}
use llm_endpoint.Telemetry.{TelemetryEmitter}
use llm_endpoint.Adapters.{ProviderAdapter}
use llm_endpoint.Invocation.{InvocationPlan}
use llm_endpoint.Router.{AttemptTrace, PoolRouteResult}
use llm_endpoint.Router.State.{Setup, LoopState, Move, finish, advance, leave}
use llm_endpoint.Router.Before.Moves.{Adds}
use llm_endpoint.Telemetry.Emitting.{Run}
use llm_endpoint.Router.Route.{route_from, route_invocation, initial}
use llm_endpoint.Router.Route.Induction.{Leaves, route_from-Q, route_invocation-Q}
use llm_endpoint.Router.Route.Rounds.{IsRoundMove, round-IsRoundMove}

abbrev pub candidates : List AttemptTrace → List String
candidates = map (λ (t : AttemptTrace). t.endpoint_uid)

module _ {W : Type 0} (s : Setup W) where
  -- the traces so far are of the candidates before the rest
  abbrev InOrder : ℕ → List String → LoopState → Type 0
  InOrder index uids l = candidates l.traces ++ uids ≡ s.plan.endpoint_uids

  abbrev ArePrefix : TerminalResult → List AttemptTrace → Type 0
  ArePrefix t ts = (rest : List String) × (candidates ts ++ rest ≡ s.plan.endpoint_uids)

  added-InOrder :
      (l : LoopState) (uid : String) (index : ℕ) (skip : Bool) (uids : List String)
      (ts : List AttemptTrace)
      → Adds s l uid index skip ts
      → InOrder index (uid ∷ uids) l
      → candidates ts ++ uids ≡ s.plan.endpoint_uids
  added-InOrder l uid index skip uids ts a h =
      rw a.appended
        (rw map-append (rw a.candidate (append_assoc (candidates l.traces) (uid ∷ []) uids ∙ h)))

  round-InOrder :
      (index : ℕ) (uid : String) (uids : List String) (l : LoopState) (m : Move)
      → InOrder index (uid ∷ uids) l
      → IsRoundMove s l uid index m
      → Leaves s InOrder ArePrefix (suc index) uids m
  round-InOrder index uid uids l (finish t ts) p (inl (bad, same)) = (uid ∷ uids, rw same p)
  round-InOrder index uid uids l (finish t ts) p (inr f) =
      (uids, added-InOrder l uid index false uids ts f.adds p)
  round-InOrder index uid uids l (advance l') p (inl skip) =
      added-InOrder l uid index true uids l'.traces skip.0 p
  round-InOrder index uid uids l (advance l') p (inr retry) =
      added-InOrder l uid index false uids l'.traces retry.adds p
  round-InOrder index uid uids l (leave l') p (inl same) = (uid ∷ uids, rw same p)
  round-InOrder index uid uids l (leave l') p (inr retry) =
      (uids, added-InOrder l uid index false uids l'.traces retry.adds p)

  route_from-ArePrefix :
      (r r' : Run W) (res : PoolRouteResult)
      → route_from s 0 s.plan.endpoint_uids initial r ≡ (ok res, r')
      → ArePrefix res.terminal_result res.attempt_traces
  route_from-ArePrefix r r' res h =
      route_from-Q s InOrder ArePrefix (λ index l p. ([], p))
        (λ index uid uids l m p came.
          round-InOrder index uid uids l m p (round-IsRoundMove s l uid index m came))
        0 s.plan.endpoint_uids initial r r' res refl h

module _ {W : Type 0} (plan : InvocationPlan W) (registry : Registry)
    (adapters : Dict (ProviderAdapter W)) (secret_resolver : Option (SecretResolver W))
    (schema_resolver : Option (SchemaResolver W)) (suppressed : Option (Dict String))
    (emitter : Option (TelemetryEmitter W)) (w : W) (res : PoolRouteResult) (r' : Run W)
    (ran : route_invocation plan registry adapters secret_resolver schema_resolver suppressed
        emitter w
      ≡ (ok res, r')) where
  -- A route that returns has traced a prefix of the plan's candidates, in the plan's order.
  pub route_invocation-in_order :
      (rest : List String) × (candidates res.attempt_traces ++ rest ≡ plan.endpoint_uids)
  route_invocation-in_order =
      route_invocation-Q plan
        (λ t ts. (rest : List String) × (candidates ts ++ rest ≡ plan.endpoint_uids))
        (λ f. (plan.endpoint_uids, refl))
        (λ s r r₁ found same h.
          let (rest, e) = route_from-ArePrefix s r r₁ found h in
          (rest, e ∙ ap (λ (p : InvocationPlan W). p.endpoint_uids) same))
        registry adapters secret_resolver schema_resolver suppressed emitter w res r' ran
