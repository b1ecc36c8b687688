-- ===== src/Router/Route/Rounds.antt =====
-- What one round of the loop of `route_invocation` can do, with both of its decisions.
use llm_endpoint.Prelude.{
  ℕ, ◌+◌, String, true, false, ◌≡◌, refl, sym, subst, some, List, [], ◌∷◌, ◌++◌, arith, ◌⊎◌, inl,
  inr, Bool-cases, ◌∙◌,
}
use llm_endpoint.Prelude.Int.{ℤ, pos, ◌≤ℤ◌}
use llm_endpoint.Results.{
  TypedFailure, TerminalResult, structured, plain_text, failed, is_retryable, retryability_by_code,
}
use llm_endpoint.Results.Classified.{IsClassified}
use llm_endpoint.Adapters.Execution.{AttemptOutput}
use llm_endpoint.Adapters.Execution.Contract.{execute_provider_attempt-IsOutput}
use llm_endpoint.Router.{
  AttemptTrace, AttemptStatus, attempt_trace, success_trace, is_success_status,
  failure_attempt_status,
}
use llm_endpoint.Router.State.{
  Setup, LoopState, Move, finish, advance, leave, Attempt, verdict, attempt,
}
use llm_endpoint.Router.Budget.{is_failover_retryable}
use llm_endpoint.Router.Before.Moves.{
  Adds, HasAttempt, Skips, IsPrepared, IsBeforeMove, before_attempt-IsBefore,
}
use llm_endpoint.Router.After.{elapsed_of}
use llm_endpoint.Router.After.Moves.{
  trace_of, InTime, IsAfterMove, Retries, attempt_trace-not_skip, attempt_trace-candidate,
  failure_attempt_status-not_success, after_attempt-IsAfterMove,
}
use llm_endpoint.Router.After.Terminal.{IsTerminal, is_text_mode, terminal_result-IsTerminal}
use llm_endpoint.Router.Route.Inversion.{Decided, Attempted}

-- A failure whose retryability is that of its code is traced as such.
retryable_status :
    (f : TypedFailure)
    → IsClassified f
    → is_retryable f ≡ true
    → failure_attempt_status f ≡ AttemptStatus.retryable_failure
unfolding failure_attempt_status is_retryable retryability_by_code
retryable_status f c h = ground arith

failover_needs_retryable :
    {W : Type 0} (s : Setup W) (f : TypedFailure)
    → is_failover_retryable s.plan f ≡ true
    → is_retryable f ≡ true
unfolding is_failover_retryable
failover_needs_retryable s f h = ground arith

module _ {W : Type 0} (s : Setup W) (l : LoopState) (uid : String) (index : ℕ) where
  -- a success in time, in the result and in its trace
  pub record IsSuccess (elapsed : ℕ) (trace : AttemptTrace) : Type 0 where
    pub budget : ℤ
    pub status : trace.status ≡ AttemptStatus.success
    pub traced_elapsed : trace.elapsed_ms ≡ some elapsed
    pub traced_budget : trace.candidate_budget_ms ≡ some budget
    pub within_budget : pos elapsed ≤ℤ budget
    pub within_deadline : budget ≤ℤ s.plan.deadline_ms
    pub total : pos (l.elapsed_total_ms + elapsed) ≤ℤ s.plan.deadline_ms

  abbrev pub Reports : TerminalResult → AttemptTrace → Type 0
  Reports (failed f) trace = is_success_status trace.status ≡ false
  Reports (plain_text r) trace = IsSuccess r.elapsed_ms trace
  Reports (structured r) trace = IsSuccess r.elapsed_ms trace

  pub record IsFinal (t : TerminalResult) (ts : List AttemptTrace) : Type 0 where
    pub adds : Adds s l uid index false ts
    pub allowed : HasAttempt s l uid index
    pub reports : Reports t adds.trace

  pub record IsRetry (l' : LoopState) : Type 0 where
    pub adds : Adds s l uid index false l'.traces
    pub allowed : HasAttempt s l uid index
    pub status : adds.trace.status ≡ AttemptStatus.retryable_failure
    pub text_mode : is_text_mode s.plan ≡ true
    pub counts : l'.attempted ≡ l.attempted + 1
    pub timely : pos l'.elapsed_total_ms ≤ℤ s.plan.deadline_ms

  abbrev pub IsRoundMove : Move → Type 0
  IsRoundMove (finish t ts) =
      (((f : TypedFailure) × (t ≡ failed f)) × (ts ≡ l.traces)) ⊎ IsFinal t ts
  IsRoundMove (advance l') = Skips s l uid index l' ⊎ IsRetry l'
  IsRoundMove (leave l') = (l' ≡ l) ⊎ IsRetry l'

  decided-IsRoundMove : (m : Move) → IsBeforeMove s l uid index m → IsRoundMove m
  decided-IsRoundMove (finish t ts) (bad, inl same) = inl (bad, same)
  decided-IsRoundMove (finish t ts) ((f, e), inr (added, allowed, unsuccessful)) =
      inr (record { adds = added; allowed = allowed; reports = rw e unsuccessful })
  decided-IsRoundMove (advance l') h = inl h
  decided-IsRoundMove (leave l') h = inl h

  module _ (a : Attempt W) (prepared : IsPrepared s l uid index a) where
    traced :
        (t : TerminalResult) → Adds s l uid index false (l.traces ++ trace_of s l index a t ∷ [])
    traced t = record {
      trace = trace_of s l index a t;
      appended = refl;
      candidate =
          attempt_trace-candidate a.trace_id a.endpoint_uid _ t a.protected ∙ prepared.candidate;
      skips = attempt_trace-not_skip a.trace_id a.endpoint_uid _ t a.protected;
    }

    failed-Reports : (f : TypedFailure) → Reports (failed f) (trace_of s l index a (failed f))
    unfolding attempt_trace
    failed-Reports f = failure_attempt_status-not_success f

    timely-IsSuccess :
        (elapsed told : ℕ)
        → told ≡ elapsed
        → InTime s l index a elapsed
        → IsSuccess told (
            success_trace a.trace_id a.endpoint_uid a.adapter_plan.candidate_budget_ms told
              a.protected)
    timely-IsSuccess elapsed told same timely = record {
      budget = a.adapter_plan.candidate_budget_ms;
      status = refl;
      traced_elapsed = refl;
      traced_budget = refl;
      within_budget = rw same timely.0;
      within_deadline = prepared.in_deadline;
      total = rw same timely.1;
    }

    timely-Reports :
        (output : AttemptOutput) (t : TerminalResult)
        → IsTerminal s.plan output t
        → InTime s l index a (elapsed_of output t)
        → Reports t (trace_of s l index a t)
    unfolding attempt_trace
    timely-Reports output (plain_text r) told timely = timely-IsSuccess _ _ told.1 timely
    timely-Reports output (structured r) told timely = timely-IsSuccess _ _ told.1 timely
    timely-Reports output (failed f) told timely = failed-Reports f

    Retries-IsRetry :
        (output : AttemptOutput) (t : TerminalResult) (l' : LoopState)
        → IsTerminal s.plan output t
        → Retries s l index a (elapsed_of output t) t l'
        → IsRetry l'
    unfolding attempt_trace traced
    Retries-IsRetry output t l' told h =
        let (classified, final) = subst (IsTerminal s.plan output) h.came told in
        let retryable = failover_needs_retryable s h.cause h.retryable in
        subst IsRetry (sym h.state) (record {
          adds = traced (failed h.cause);
          allowed = prepared.allowed;
          status = retryable_status h.cause classified retryable;
          text_mode = elim (Bool-cases (is_text_mode s.plan)) [
            | inl text ↦ text
            | inr other ↦ cc (retryable, final other)
          ];
          counts = refl;
          timely = h.timely.1;
        })

    attempted-IsRoundMove :
        (output : AttemptOutput) (t : TerminalResult) (m : Move)
        → IsTerminal s.plan output t
        → IsAfterMove s l index a (elapsed_of output t) t m
        → IsRoundMove m
    unfolding traced attempt_trace
    attempted-IsRoundMove output terminal (finish t ts) told (same, inl (f, e)) =
        let same' = rw e at same in
        subst (λ x. IsRoundMove (finish x ts)) (sym e)
          (subst (λ y. IsRoundMove (finish (failed f) y)) (sym same')
            (inr (record {
              adds = traced (failed f);
              allowed = prepared.allowed;
              reports = failed-Reports f;
            })))
    attempted-IsRoundMove output terminal (finish t ts) told (same, inr (e, timely)) =
        subst (λ y. IsRoundMove (finish t y)) (sym same)
          (inr (record {
            adds = traced t;
            allowed = prepared.allowed;
            reports =
                subst (λ x. Reports x (trace_of s l index a x)) (sym e)
                  (timely-Reports output terminal told timely);
          }))
    attempted-IsRoundMove output terminal (advance l') told (h, _) =
        inr (Retries-IsRetry output terminal l' told h)
    attempted-IsRoundMove output terminal (leave l') told h =
        inr (Retries-IsRetry output terminal l' told h)

  -- What a round leaves, whatever the host answers.
  pub round-IsRoundMove :
      (m : Move) → Decided s l uid index m ⊎ Attempted s l uid index m → IsRoundMove m
  round-IsRoundMove m (inl d) = subst IsRoundMove d.moves (
      decided-IsRoundMove d.decision.move
        (before_attempt-IsBefore s l uid index (verdict d.decision) d.cancelled d.before))
  round-IsRoundMove m (inr t) =
      let prepared =
        before_attempt-IsBefore s l uid index (attempt t.made) t.cancelled_before t.before in
      let told =
        terminal_result-IsTerminal s.plan t.made.adapter_plan.endpoint_uid t.output t.made.trace_id
          s.schema t.terminal
          (execute_provider_attempt-IsOutput t.made.adapter_plan t.made.adapter s.secret_resolver
            t.world t.output t.answered)
          t.judged in
      subst IsRoundMove t.moves (
        attempted-IsRoundMove t.made prepared t.output t.terminal _ told
          (after_attempt-IsAfterMove s l index t.made t.output t.terminal t.cancelled_after))
