-- ===== src/Router/Before/Moves.antt =====
-- What the decision before the provider's call can be.
use llm_endpoint.Prelude.{
  ℕ, ◌+◌, ◌<◌, String, Bool, true, false, ◌≡◌, refl, subst, Option, none, some, List, [], ◌∷◌, ◌++◌,
  arith, ◌⊎◌, inl, inr, length, Bool-cases, Option-cases,
}
use llm_endpoint.Prelude.Int.{ℤ, pos, ◌≤ℤ◌, ◌<ℤ◌, ◌-ℤ◌, leb_ℤ}
use llm_endpoint.Prelude.Dict.{lookup}
use llm_endpoint.Prelude.Outcome.{ok, >>=-eq-ok, ok-injective}
use llm_endpoint.Results.{TypedFailure, failed, failure}
use llm_endpoint.Config.{EndpointConfig}
use llm_endpoint.Adapters.{AdapterInvocationPlan, ProviderAdapter, adapter_plan}
use llm_endpoint.Router.{AttemptTrace, attempt_trace, is_skip, is_success_status}
use llm_endpoint.Router.State.{
  Setup, LoopState, Move, finish, advance, leave, Attempt, Before, verdict, attempt,
}
use llm_endpoint.Router.Budget.{should_skip_suppressed, candidate_budget}
use llm_endpoint.Router.Before.{
  with_adapter, attempt_request, prepare, consider, before_attempt, find_adapter,
}

module _ {W : Type 0} (s : Setup W) (l : LoopState) (uid : String) (index : ℕ) where
  -- another attempt is allowed
  abbrev pub HasAttempt : Type 0
  HasAttempt = pos l.attempted <ℤ s.plan.effective_config.max_attempts

  -- one more trace of this candidate
  pub record Adds (skip : Bool) (ts : List AttemptTrace) : Type 0 where
    pub trace : AttemptTrace
    pub appended : ts ≡ l.traces ++ trace ∷ []
    pub candidate : trace.endpoint_uid ≡ uid
    pub skips : is_skip trace.status ≡ skip

  abbrev pub Skips : LoopState → Type 0
  Skips l' =
      Adds true l'.traces
      × (l'.attempted ≡ l.attempted)
      × (l'.elapsed_total_ms ≡ l.elapsed_total_ms)
      × (index + 1 < length s.plan.endpoint_uids)

  abbrev pub IsBeforeMove : Move → Type 0
  IsBeforeMove (finish t ts) =
      ((f : TypedFailure) × (t ≡ failed f))
      × ((ts ≡ l.traces)
          ⊎ ((added : Adds false ts) × HasAttempt × (is_success_status added.trace.status ≡ false)))
  IsBeforeMove (advance l') = Skips l'
  IsBeforeMove (leave l') = l' ≡ l

  -- what an attempt is made with
  pub record IsPrepared (a : Attempt W) : Type 0 where
    pub candidate : a.endpoint_uid ≡ uid
    pub allowed : HasAttempt
    pub in_deadline : a.adapter_plan.candidate_budget_ms ≤ℤ s.plan.deadline_ms

  abbrev pub IsBefore : Before W → Type 0
  IsBefore (verdict v) = IsBeforeMove v.move
  IsBefore (attempt a) = IsPrepared a

  should_skip_suppressed-earlier :
      should_skip_suppressed s uid index ≡ true → index + 1 < length s.plan.endpoint_uids
  unfolding should_skip_suppressed
  should_skip_suppressed-earlier h = ground arith

  with_adapter-IsBefore :
      (id : String) (p : AdapterInvocationPlan) (o : Option (ProviderAdapter W))
      → HasAttempt
      → p.candidate_budget_ms ≤ℤ s.plan.deadline_ms
      → IsBefore (with_adapter s l uid id p o)
  unfolding with_adapter attempt_trace failure
  with_adapter-IsBefore id p none h k = (
    (_, refl),
    inr (record { trace = _; appended = refl; candidate = refl; skips = refl }, h, refl),
  )
  with_adapter-IsBefore id p (some a) h k = record {
    candidate = refl;
    allowed = h;
    in_deadline = k;
  }

  adapter_plan-in_deadline :
      (p q : AdapterInvocationPlan) → adapter_plan p ≡ ok q → q.candidate_budget_ms ≤ℤ q.deadline_ms
  unfolding adapter_plan
  adapter_plan-in_deadline p q h = ground arith

  adapter_plan-eq : (p q : AdapterInvocationPlan) → adapter_plan p ≡ ok q → p ≡ q
  unfolding adapter_plan
  adapter_plan-eq p q h = ground arith

  attempt_request-in_deadline :
      (endpoint : EndpointConfig) (budget : ℤ) (p : AdapterInvocationPlan)
      → adapter_plan (attempt_request s.plan endpoint budget) ≡ ok p
      → p.candidate_budget_ms ≤ℤ s.plan.deadline_ms
  unfolding attempt_request
  attempt_request-in_deadline endpoint budget p h = ground (
    arith,
    adapter_plan-in_deadline (attempt_request s.plan endpoint budget) p h,
    adapter_plan-eq (attempt_request s.plan endpoint budget) p h,
  )

  prepare-IsBefore :
      (endpoint : EndpointConfig) (remaining : ℤ) (b : Before W)
      → HasAttempt
      → prepare s l uid index endpoint remaining ≡ ok b
      → IsBefore b
  unfolding prepare
  prepare-IsBefore endpoint remaining b allowed h =
      let (budget, _, h₁) = >>=-eq-ok (candidate_budget s.plan index remaining) _ h in
      let (p, planned, h₂) =
        >>=-eq-ok (adapter_plan (attempt_request s.plan endpoint budget)) _ h₁ in
      let (adapter, _, h₃) = >>=-eq-ok (find_adapter endpoint.provider_format s.adapters) _ h₂ in
      subst IsBefore (ok-injective h₃) (
        with_adapter-IsBefore _ p adapter allowed
          (attempt_request-in_deadline endpoint budget p planned))

  consider-IsBefore : (b : Before W) → HasAttempt → consider s l uid index ≡ ok b → IsBefore b
  unfolding consider failure
  consider-IsBefore b allowed h = elim (Option-cases (lookup uid s.registry.endpoints_by_uid)) [
    | inl unknown ↦ cc (rw (unknown, consider) at h)
    | inr (endpoint, known) ↦
        let remaining = s.plan.deadline_ms -ℤ pos l.elapsed_total_ms in
        let h' = rw (known, consider) at h in
        elim (Bool-cases (leb_ℤ remaining (pos 0))) [
          | inl late ↦ subst IsBefore (ok-injective (rw late at h')) ((_, refl), inl refl)
          | inr early ↦ prepare-IsBefore endpoint remaining b allowed (rw early at h')
        ]
  ]

  pub before_attempt-IsBefore :
      (b : Before W) (cancelled : Bool) → before_attempt s l uid index cancelled ≡ ok b → IsBefore b
  unfolding before_attempt
  before_attempt-IsBefore b true h = subst IsBefore (ok-injective h) ((_, refl), inl refl)
  before_attempt-IsBefore b false h =
      elim (Bool-cases (leb_ℤ s.plan.effective_config.max_attempts (pos l.attempted))) [
        | inl spent ↦ subst IsBefore (ok-injective (rw spent at h)) refl
        | inr left ↦
            let h₁ = rw left at h in
            elim (Bool-cases (should_skip_suppressed s uid index)) [
              | inl skipped ↦ subst IsBefore (ok-injective (rw skipped at h₁)) (
                record { trace = _; appended = refl; candidate = refl; skips = refl },
                refl,
                refl,
                should_skip_suppressed-earlier skipped,
              )
              | inr kept ↦ consider-IsBefore b (ground arith) (rw kept at h₁)
            ]
      ]
