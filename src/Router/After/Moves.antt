-- ===== src/Router/After/Moves.antt =====
-- What the decision after the provider's call can be.
use llm_endpoint.Prelude.{
  ℕ, ◌+◌, String, Bool, true, false, ◌≡◌, refl, some, List, [], ◌∷◌, ◌++◌, arith, ◌⊎◌, inl, inr,
  Bool-cases, ◌||◌,
}
use llm_endpoint.Prelude.Int.{ℤ, pos, ◌≤ℤ◌, ltb_ℤ}
use llm_endpoint.Results.{TerminalResult, TypedFailure, structured, plain_text, failed}
use llm_endpoint.Adapters.Execution.{AttemptOutput}
use llm_endpoint.Router.{
  AttemptTrace, attempt_trace, is_skip, is_success_status, failure_attempt_status,
}
use llm_endpoint.Router.State.{Setup, LoopState, Move, finish, advance, leave, Attempt}
use llm_endpoint.Router.Budget.{is_failover_retryable, has_failover_candidate}
use llm_endpoint.Router.After.{elapsed_of, after, settle, after_attempt}

failure_attempt_status-not_skip : (f : TypedFailure) → is_skip (failure_attempt_status f) ≡ false
unfolding failure_attempt_status
failure_attempt_status-not_skip f = ground arith

pub failure_attempt_status-not_success :
    (f : TypedFailure) → is_success_status (failure_attempt_status f) ≡ false
unfolding failure_attempt_status
failure_attempt_status-not_success f = ground arith

pub attempt_trace-not_skip :
    (id uid : String) (budget : ℤ) (t : TerminalResult) (protected : Bool)
    → is_skip (attempt_trace id uid budget t protected).status ≡ false
unfolding attempt_trace
attempt_trace-not_skip id uid budget (failed f) protected = failure_attempt_status-not_skip f
attempt_trace-not_skip id uid budget _ protected = refl

pub attempt_trace-candidate :
    (id uid : String) (budget : ℤ) (t : TerminalResult) (protected : Bool)
    → (attempt_trace id uid budget t protected).endpoint_uid ≡ uid
unfolding attempt_trace
attempt_trace-candidate id uid budget (failed f) protected = refl
attempt_trace-candidate id uid budget _ protected = refl

module _ {W : Type 0} (s : Setup W) (l : LoopState) (index : ℕ) (a : Attempt W) where
  abbrev pub trace_of : TerminalResult → AttemptTrace
  trace_of t =
      attempt_trace a.trace_id a.endpoint_uid a.adapter_plan.candidate_budget_ms t a.protected

  -- The response came within its own budget and within the deadline.
  abbrev pub InTime : ℕ → Type 0
  InTime elapsed =
      (pos elapsed ≤ℤ a.adapter_plan.candidate_budget_ms)
      × (pos (l.elapsed_total_ms + elapsed) ≤ℤ s.plan.deadline_ms)

  -- A failure that failover may retry was traced, and the loop's variables are those after an attempt.
  pub record Retries (elapsed : ℕ) (terminal : TerminalResult) (l' : LoopState) : Type 0 where
    pub cause : TypedFailure
    pub came : terminal ≡ failed cause
    pub retryable : is_failover_retryable s.plan cause ≡ true
    pub state :
        l'
        ≡ record (after l elapsed (trace_of (failed cause))) { last_retryable_failure = some cause }
    pub timely : InTime elapsed

  -- The result is a failure, or the terminal result of a response in time; the trace tells of it.
  abbrev pub Ends : ℕ → TerminalResult → TerminalResult → List AttemptTrace → Type 0
  Ends elapsed terminal t ts =
      (ts ≡ l.traces ++ trace_of t ∷ [])
      × (((f : TypedFailure) × (t ≡ failed f)) ⊎ ((t ≡ terminal) × InTime elapsed))

  abbrev pub IsAfterMove : ℕ → TerminalResult → Move → Type 0
  IsAfterMove elapsed terminal (finish t ts) = Ends elapsed terminal t ts
  IsAfterMove elapsed terminal (advance l') =
      Retries elapsed terminal l' × (has_failover_candidate s.plan (l.attempted + 1) index ≡ true)
  IsAfterMove elapsed terminal (leave l') = Retries elapsed terminal l'

  settle-IsAfterMove :
      (output : AttemptOutput) (terminal : TerminalResult)
      → InTime (elapsed_of output terminal)
      → IsAfterMove (elapsed_of output terminal) terminal (settle s l index a output terminal).move
  unfolding settle
  settle-IsAfterMove output (plain_text r) timely = (refl, inr (refl, timely))
  settle-IsAfterMove output (structured r) timely = (refl, inr (refl, timely))
  settle-IsAfterMove output (failed f) timely = elim (Bool-cases (is_failover_retryable s.plan f)) [
    | inr no_retry ↦ rw no_retry (refl, inl (f, refl))
    | inl retry ↦ elim (Bool-cases (has_failover_candidate s.plan (l.attempted + 1) index)) [
      | inl more ↦
          rw (retry, more)
            (
              record { cause = f; came = refl; retryable = retry; state = refl; timely = timely },
              more,
            )
      | inr last ↦
          rw (retry, last)
            (record { cause = f; came = refl; retryable = retry; state = refl; timely = timely })
    ]
  ]

  pub after_attempt-IsAfterMove :
      (output : AttemptOutput) (terminal : TerminalResult) (cancelled : Bool)
      → IsAfterMove
          (elapsed_of output terminal)
          terminal
          (after_attempt s l index a output terminal cancelled).move
  unfolding after_attempt
  after_attempt-IsAfterMove output terminal true = (refl, inl (_, refl))
  after_attempt-IsAfterMove output terminal false =
      let elapsed = elapsed_of output terminal in
      elim (Bool-cases (
        ltb_ℤ a.adapter_plan.candidate_budget_ms (pos elapsed)
        || ltb_ℤ s.plan.deadline_ms (pos (l.elapsed_total_ms + elapsed)))) [
          | inl late ↦ rw late (refl, inl (_, refl))
          | inr early ↦ rw early (settle-IsAfterMove output terminal (ground arith, ground arith))
        ]
