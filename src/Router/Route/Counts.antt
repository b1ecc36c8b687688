-- ===== src/Router/Route/Counts.antt =====
-- How many attempts `route_invocation` makes.
use Prim.Native.Nat.{zero-le}
use llm_endpoint.Prelude.{
  ℕ, suc, ◌+◌, ◌≤◌, String, true, false, ◌≡◌, refl, sym, ◌∙◌, subst, Option, List, [], ◌∷◌, ◌++◌,
  arith, inl, inr,
}
use llm_endpoint.Prelude.Int.{pos_part}
use llm_endpoint.Prelude.Dict.{Dict}
use llm_endpoint.Prelude.Outcome.{ok}
use llm_endpoint.Results.{TerminalResult}
use llm_endpoint.Callbacks.{SecretResolver, SchemaResolver}
use llm_endpoint.Config.{Registry}
use llm_endpoint.Telemetry.{TelemetryEmitter}
use llm_endpoint.Adapters.{ProviderAdapter}
use llm_endpoint.Invocation.{InvocationPlan}
use llm_endpoint.Router.{AttemptTrace, PoolRouteResult, is_skip, attempt_count, skipped_count}
use llm_endpoint.Router.State.{Setup, LoopState, Move, finish, advance, leave}
use llm_endpoint.Router.Before.Moves.{Adds}
use llm_endpoint.Router.After.Terminal.{is_text_mode}
use llm_endpoint.Telemetry.Emitting.{Run}
use llm_endpoint.Router.Route.{route_from, route_invocation, initial}
use llm_endpoint.Router.Route.Induction.{Leaves, route_from-Q, route_invocation-Q}
use llm_endpoint.Router.Route.Rounds.{IsRoundMove, round-IsRoundMove}

attempt_count-append :
    (ts : List AttemptTrace) (t : AttemptTrace)
    → is_skip t.status ≡ false
    → attempt_count (ts ++ t ∷ []) ≡ attempt_count ts + 1
unfolding attempt_count
attempt_count-append [] t h = ground arith
attempt_count-append (x ∷ ts) t h = omega (arith, attempt_count-append ts t h)

attempt_count-append_skip :
    (ts : List AttemptTrace) (t : AttemptTrace)
    → is_skip t.status ≡ true
    → attempt_count (ts ++ t ∷ []) ≡ attempt_count ts
unfolding attempt_count
attempt_count-append_skip [] t h = ground arith
attempt_count-append_skip (x ∷ ts) t h = omega (arith, attempt_count-append_skip ts t h)

skipped_count-append_le :
    (ts : List AttemptTrace) (t : AttemptTrace)
    → skipped_count (ts ++ t ∷ []) ≤ skipped_count ts + 1
unfolding skipped_count
skipped_count-append_le [] t = ground arith
skipped_count-append_le (x ∷ ts) t = omega (arith, skipped_count-append_le ts t)

skipped_count-append :
    (ts : List AttemptTrace) (t : AttemptTrace)
    → is_skip t.status ≡ false
    → skipped_count (ts ++ t ∷ []) ≡ skipped_count ts
unfolding skipped_count
skipped_count-append [] t h = ground arith
skipped_count-append (x ∷ ts) t h = omega (arith, skipped_count-append ts t h)

abbrev pub attempt_limit : {W : Type 0} → InvocationPlan W → ℕ
attempt_limit plan = pos_part plan.effective_config.max_attempts

module _ {W : Type 0} (s : Setup W) where
  -- The counter counts the traced attempts, and never passes the limit.
  abbrev Counted : ℕ → List String → LoopState → Type 0
  Counted index uids l =
      (attempt_count l.traces ≡ l.attempted)
      × (l.attempted ≤ attempt_limit s.plan)
      × (is_text_mode s.plan ≡ false → l.attempted ≡ 0)

  abbrev Few : TerminalResult → List AttemptTrace → Type 0
  Few t ts =
      (attempt_count ts ≤ attempt_limit s.plan)
      × (is_text_mode s.plan ≡ false → attempt_count ts ≤ 1)

  added_count :
      (l : LoopState) (uid : String) (index : ℕ) (ts : List AttemptTrace)
      → Adds s l uid index false ts
      → attempt_count ts ≡ attempt_count l.traces + 1
  added_count l uid index ts a = rw a.appended (attempt_count-append l.traces a.trace a.skips)

  added_skip_count :
      (l : LoopState) (uid : String) (index : ℕ) (ts : List AttemptTrace)
      → Adds s l uid index true ts
      → attempt_count ts ≡ attempt_count l.traces
  added_skip_count l uid index ts a =
      rw a.appended (attempt_count-append_skip l.traces a.trace a.skips)

  round-Counted :
      (index : ℕ) (uid : String) (uids : List String) (l : LoopState) (m : Move)
      → Counted index (uid ∷ uids) l
      → IsRoundMove s l uid index m
      → Leaves s Counted Few (suc index) uids m
  round-Counted index uid uids l (finish t ts) (p, q, z) (inl (bad, same)) =
      rw same (omega (arith, p), λ h. omega (arith, p, z h))
  round-Counted index uid uids l (finish t ts) (p, q, z) (inr f) =
      let e = added_count l uid index ts f.adds in
      let allowed = f.allowed in (omega (arith, e, p, allowed), λ h. omega (arith, e, p, z h))
  round-Counted index uid uids l (advance l') (p, q, z) (inl (skip, same, rest, more)) =
      let e = added_skip_count l uid index l'.traces skip in
      (e ∙ p ∙ sym same, rw same q, λ h. same ∙ z h)
  round-Counted index uid uids l (advance l') (p, q, z) (inr retry) =
      let e = added_count l uid index l'.traces retry.adds in
      let counts = retry.counts in
      let allowed = retry.allowed in
      (omega (arith, e, p, counts), omega (arith, counts, allowed), λ h. cc (h, retry.text_mode))
  round-Counted index uid uids l (leave l') (p, q, z) (inl same) =
      rw same (omega (arith, p), λ h. omega (arith, p, z h))
  round-Counted index uid uids l (leave l') (p, q, z) (inr retry) =
      let e = added_count l uid index l'.traces retry.adds in
      let allowed = retry.allowed in (omega (arith, e, p, allowed), λ h. cc (h, retry.text_mode))

  route_from-Few :
      (r r' : Run W) (res : PoolRouteResult)
      → route_from s 0 s.plan.endpoint_uids initial r ≡ (ok res, r')
      → Few res.terminal_result res.attempt_traces
  unfolding attempt_count
  route_from-Few r r' res h =
      route_from-Q s Counted Few
        (λ index l p. (omega (arith, p.0, p.1), λ e. omega (arith, p.0, p.2 e)))
        (λ index uid uids l m p came.
          round-Counted index uid uids l m p (round-IsRoundMove s l uid index m came))
        0 s.plan.endpoint_uids initial r r' res (refl, zero-le, λ e. refl) h

module _ {W : Type 0} (plan : InvocationPlan W) (registry : Registry)
    (adapters : Dict (ProviderAdapter W)) (secret_resolver : Option (SecretResolver W))
    (schema_resolver : Option (SchemaResolver W)) (suppressed : Option (Dict String))
    (emitter : Option (TelemetryEmitter W)) (w : W) (res : PoolRouteResult) (r' : Run W)
    (ran : route_invocation plan registry adapters secret_resolver schema_resolver suppressed
        emitter w
      ≡ (ok res, r')) where
  few :
      (attempt_count res.attempt_traces ≤ attempt_limit plan)
      × (is_text_mode plan ≡ false → attempt_count res.attempt_traces ≤ 1)
  unfolding attempt_count
  few =
      route_invocation-Q plan
        (λ t ts.
          (attempt_count ts ≤ attempt_limit plan)
          × (is_text_mode plan ≡ false → attempt_count ts ≤ 1))
        (λ f. (zero-le, λ e. zero-le))
        (λ s r r₁ found same h.
          subst
            (λ (p : InvocationPlan W).
              (attempt_count found.attempt_traces ≤ attempt_limit p)
              × (is_text_mode p ≡ false → attempt_count found.attempt_traces ≤ 1))
            same (route_from-Few s r r₁ found h))
        registry adapters secret_resolver schema_resolver suppressed emitter w res r' ran

  -- A route that returns has traced at most `max_attempts` attempts, and none if that is not positive.
  pub attempts-le-limit : attempt_count res.attempt_traces ≤ attempt_limit plan
  attempts-le-limit = few.0

  -- In a structured-output mode a route that returns has traced one attempt at most, whatever the retry policy and
  -- the provider's failure are.
  pub structured_single_attempt : is_text_mode plan ≡ false → attempt_count res.attempt_traces ≤ 1
  structured_single_attempt = few.1
