-- ===== src/Router/Route/Failover.antt =====
-- When `route_invocation` goes on to another candidate, and what its traces tell.
use llm_endpoint.Prelude.{
  ℕ, All, All-concat, any, ◌||◌, some, suc, String, Bool, true, false, ◌≡◌, refl, subst, Option,
  List, [], ◌∷◌, ◌++◌, arith, ◌⊎◌, inl, inr,
}
use llm_endpoint.Prelude.Int.{ℤ, pos, ◌≤ℤ◌}
use llm_endpoint.Prelude.Dict.{Dict}
use llm_endpoint.Prelude.Outcome.{ok}
use llm_endpoint.Results.{TerminalResult, TypedFailure, failed, plain_text, structured}
use llm_endpoint.Callbacks.{SecretResolver, SchemaResolver}
use llm_endpoint.Config.{Registry}
use llm_endpoint.Telemetry.{TelemetryEmitter}
use llm_endpoint.Adapters.{ProviderAdapter}
use llm_endpoint.Invocation.{InvocationPlan}
use llm_endpoint.Router.{AttemptTrace, AttemptStatus, PoolRouteResult, is_skip, is_success_status}
use llm_endpoint.Router.Failures.{pool_exhausted}
use llm_endpoint.Router.State.{Setup, LoopState, Move, finish, advance, leave}
use llm_endpoint.Router.Before.Moves.{Adds}
use llm_endpoint.Telemetry.Emitting.{Run}
use llm_endpoint.Router.Route.{route_from, route_invocation, initial}
use llm_endpoint.Router.Route.Induction.{Leaves, route_from-Q, route_invocation-Q}
use llm_endpoint.Router.Route.Rounds.{IsRoundMove, IsRetry, IsFinal, IsSuccess, round-IsRoundMove}

-- Every member but the last has the property.
abbrev pub AllButLast {ℓ κ} : {A : Type ℓ} → (A → Type κ) → List A → Type κ
AllButLast P [] = Unit
AllButLast P (x ∷ []) = Unit
AllButLast P (x ∷ y ∷ xs) = P x × AllButLast P (y ∷ xs)

AllButLast-append {ℓ κ} :
    {A : Type ℓ} (P : A → Type κ) (xs : List A) (x : A) → All P xs → AllButLast P (xs ++ x ∷ [])
AllButLast-append P [] x h = tt
AllButLast-append P (y ∷ []) x h = (h.0, tt)
AllButLast-append P (y ∷ z ∷ xs) x (p, h) = (p, AllButLast-append P (z ∷ xs) x h)

AllButLast-All {ℓ κ} : {A : Type ℓ} (P : A → Type κ) (xs : List A) → All P xs → AllButLast P xs
AllButLast-All P [] h = tt
AllButLast-All P (x ∷ []) h = tt
AllButLast-All P (x ∷ y ∷ xs) (p, h) = (p, AllButLast-All P (y ∷ xs) h)

-- A candidate that the loop left behind was skipped, or failed in a way that may be retried.
abbrev pub IsPassed : AttemptTrace → Type 0
IsPassed t =
    (t.status ≡ AttemptStatus.skipped_suppressed) ⊎ (t.status ≡ AttemptStatus.retryable_failure)

skip_status :
    (status : AttemptStatus) → is_skip status ≡ true → status ≡ AttemptStatus.skipped_suppressed
skip_status AttemptStatus.skipped_suppressed h = refl
skip_status _ h = cc

abbrev pub succeeded : AttemptTrace → Bool
succeeded t = is_success_status t.status

not_success : (t : AttemptTrace) → IsPassed t → is_success_status t.status ≡ false
not_success t h = ground arith

not_success-All : (ts : List AttemptTrace) → All IsPassed ts → any succeeded ts ≡ false
not_success-All [] h = refl
not_success-All (t ∷ ts) (p, h) = rw (not_success t p) (not_success-All ts h)

any-append {ℓ} :
    {A : Type ℓ} (p : A → Bool) (xs : List A) (x : A) → any p (xs ++ x ∷ []) ≡ (any p xs || p x)
any-append p [] x = ground arith
any-append p (y ∷ xs) x = ground (arith, any-append p xs x)

-- the time of a success in its trace: within the candidate's budget, which is within the deadline
pub record IsTimely (deadline : ℤ) (elapsed : ℕ) (t : AttemptTrace) : Type 0 where
  pub budget : ℤ
  pub status : t.status ≡ AttemptStatus.success
  pub traced_elapsed : t.elapsed_ms ≡ some elapsed
  pub traced_budget : t.candidate_budget_ms ≡ some budget
  pub within_budget : pos elapsed ≤ℤ budget
  pub within_deadline : budget ≤ℤ deadline

-- the last trace is that of a success in time
pub record EndsInTime (deadline : ℤ) (elapsed : ℕ) (ts : List AttemptTrace) : Type 0 where
  pub earlier : List AttemptTrace
  pub last : AttemptTrace
  pub split : ts ≡ earlier ++ last ∷ []
  pub timely : IsTimely deadline elapsed last

-- what the traces tell of a terminal result
abbrev pub Tells : ℤ → TerminalResult → List AttemptTrace → Type 0
Tells deadline (failed f) ts = any succeeded ts ≡ false
Tells deadline (plain_text r) ts = EndsInTime deadline r.elapsed_ms ts
Tells deadline (structured r) ts = EndsInTime deadline r.elapsed_ms ts

module _ {W : Type 0} (s : Setup W) where
  abbrev Passed : ℕ → List String → LoopState → Type 0
  Passed index uids l = All IsPassed l.traces

  abbrev Disciplined : TerminalResult → List AttemptTrace → Type 0
  Disciplined t ts = AllButLast IsPassed ts × Tells s.plan.deadline_ms t ts

  passed-Disciplined :
      (f : TypedFailure) (ts : List AttemptTrace) → All IsPassed ts → Disciplined (failed f) ts
  passed-Disciplined f ts h = (AllButLast-All IsPassed ts h, not_success-All ts h)

  success-IsTimely :
      (l : LoopState) (uid : String) (index elapsed : ℕ) (t : AttemptTrace)
      → IsSuccess s l uid index elapsed t
      → IsTimely s.plan.deadline_ms elapsed t
  success-IsTimely l uid index elapsed t h = record {
    budget = h.budget;
    status = h.status;
    traced_elapsed = h.traced_elapsed;
    traced_budget = h.traced_budget;
    within_budget = h.within_budget;
    within_deadline = h.within_deadline;
  }

  skipped-IsPassed :
      (l : LoopState) (uid : String) (index : ℕ) (l' : LoopState)
      → All IsPassed l.traces
      → Adds s l uid index true l'.traces
      → All IsPassed l'.traces
  skipped-IsPassed l uid index l' h skip =
      rw skip.appended
        (All-concat IsPassed l.traces skip.trace h (inl (skip_status skip.trace.status skip.skips)))

  retried-IsPassed :
      (l : LoopState) (uid : String) (index : ℕ) (l' : LoopState)
      → All IsPassed l.traces
      → IsRetry s l uid index l'
      → All IsPassed l'.traces
  retried-IsPassed l uid index l' h retry =
      rw retry.adds.appended (All-concat IsPassed l.traces retry.adds.trace h (inr retry.status))

  final-Tells :
      (l : LoopState) (uid : String) (index : ℕ) (t : TerminalResult) (ts : List AttemptTrace)
      → All IsPassed l.traces
      → IsFinal s l uid index t ts
      → Tells s.plan.deadline_ms t ts
  final-Tells l uid index (failed f) ts h final = rw final.adds.appended (
      rw (any-append succeeded l.traces final.adds.trace)
        (rw (not_success-All l.traces h, final.reports) refl))
  final-Tells l uid index (plain_text r) ts h final = record {
    earlier = l.traces;
    last = final.adds.trace;
    split = final.adds.appended;
    timely = success-IsTimely l uid index _ _ final.reports;
  }
  final-Tells l uid index (structured r) ts h final = record {
    earlier = l.traces;
    last = final.adds.trace;
    split = final.adds.appended;
    timely = success-IsTimely l uid index _ _ final.reports;
  }

  round-Passed :
      (index : ℕ) (uid : String) (uids : List String) (l : LoopState) (m : Move)
      → Passed index (uid ∷ uids) l
      → IsRoundMove s l uid index m
      → Leaves s Passed Disciplined (suc index) uids m
  round-Passed index uid uids l (finish t ts) h (inl ((f, bad), same)) =
      rw (bad, same) (passed-Disciplined f l.traces h)
  round-Passed index uid uids l (finish t ts) h (inr final) = (
    rw final.adds.appended (AllButLast-append IsPassed l.traces final.adds.trace h),
    final-Tells l uid index t ts h final,
  )
  round-Passed index uid uids l (advance l') h (inl skip) = skipped-IsPassed l uid index l' h skip.0
  round-Passed index uid uids l (advance l') h (inr retry) = retried-IsPassed l uid index l' h retry
  round-Passed index uid uids l (leave l') h (inl same) = rw same (
      passed-Disciplined (pool_exhausted s.plan l.traces l.last_retryable_failure s.schema) l.traces
        h)
  round-Passed index uid uids l (leave l') h (inr retry) =
      passed-Disciplined (pool_exhausted s.plan l'.traces l'.last_retryable_failure s.schema)
        l'.traces (retried-IsPassed l uid index l' h retry)

  route_from-Disciplined :
      (r r' : Run W) (res : PoolRouteResult)
      → route_from s 0 s.plan.endpoint_uids initial r ≡ (ok res, r')
      → Disciplined res.terminal_result res.attempt_traces
  route_from-Disciplined r r' res h =
      route_from-Q s Passed Disciplined
        (λ index l p.
          passed-Disciplined (pool_exhausted s.plan l.traces l.last_retryable_failure s.schema)
            l.traces p)
        (λ index uid uids l m p came.
          round-Passed index uid uids l m p (round-IsRoundMove s l uid index m came))
        0 s.plan.endpoint_uids initial r r' res tt h

module _ {W : Type 0} (plan : InvocationPlan W) (registry : Registry)
    (adapters : Dict (ProviderAdapter W)) (secret_resolver : Option (SecretResolver W))
    (schema_resolver : Option (SchemaResolver W)) (suppressed : Option (Dict String))
    (emitter : Option (TelemetryEmitter W)) (w : W) (res : PoolRouteResult) (r' : Run W)
    (ran : route_invocation plan registry adapters secret_resolver schema_resolver suppressed
        emitter w
      ≡ (ok res, r')) where
  disciplined :
      AllButLast IsPassed res.attempt_traces
      × Tells plan.deadline_ms res.terminal_result res.attempt_traces
  disciplined =
      route_invocation-Q plan (λ t ts. AllButLast IsPassed ts × Tells plan.deadline_ms t ts)
        (λ f. (tt, refl))
        (λ s r r₁ found same h.
          let (passed, tells) = route_from-Disciplined s r r₁ found h in
          (
            passed,
            subst
                (λ (p : InvocationPlan W).
                  Tells p.deadline_ms found.terminal_result found.attempt_traces)
                same tells,
          ))
        registry adapters secret_resolver schema_resolver suppressed emitter w res r' ran

  -- A route that returns goes on to another candidate only after a skip or a retryable failure: all its traces
  -- but the last have the status of one of these.
  pub failover_only_after_retryable : AllButLast IsPassed res.attempt_traces
  failover_only_after_retryable = disciplined.0

  -- The traces of a route that returns tell its result. If it is a success, the last trace is that of a success
  -- with the result's elapsed time, which is within the candidate's budget, and the budget is within the plan's
  -- deadline. If it is a failure, no trace is that of a success.
  pub success_in_time : Tells plan.deadline_ms res.terminal_result res.attempt_traces
  success_in_time = disciplined.1
