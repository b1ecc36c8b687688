-- ===== src/Samples/Parts.antt =====
-- The parts of routing on the sample plan: a schema check, a budget, the emitter and the fake adapter.
use llm_endpoint.Prelude.{ℕ, zero, suc, ◌≡◌, refl, subst, none, some, [], ◌∷◌, arith}
use llm_endpoint.Prelude.Int.{ℤ, pos, ◌≤ℤ◌}
use llm_endpoint.Prelude.Outcome.{ok, ok-injective, raised}
use llm_endpoint.Prelude.Dict.{lookup}
use llm_endpoint.Config.{StructuredOutputMode, is_format}
use llm_endpoint.Router.Budget.{budget_at, candidate_budget}
use llm_endpoint.Router.Budget.Bounds.{IsFair, candidate_budget-IsFair}
use llm_endpoint.Invocation.{InvocationPlan}
use llm_endpoint.Telemetry.{
  TelemetryEvent, TelemetryEventFamily, TelemetryEmitter, RedactionStatus, event_context, emit_all,
}
use llm_endpoint.Telemetry.Emission.{Extends, emit_all-Extends}
use llm_endpoint.Adapters.{AdapterInvocationPlan, ProviderOutcomeKind}
use llm_endpoint.Adapters.Fake.{FakeProviderAdapter, invoke}
use llm_endpoint.Adapters.Fake.Script.{after_calls, IsPlayed, invoke-IsPlayed}
use llm_endpoint.Samples.{plan_of, outcome_of}
use llm_endpoint.Samples.Attempts.{attempt_plan}

abbrev text_plan : InvocationPlan ℕ
text_plan = plan_of StructuredOutputMode.none

-- Each candidate of the sample plan has the same budget.
positive_budgets : (i : ℕ) (b : ℤ) → budget_at text_plan i ≡ ok b → pos 1 ≤ℤ b
unfolding budget_at
positive_budgets zero b h = subst (λ b. pos 1 ≤ℤ b) (ok-injective h) (omega arith)
positive_budgets (suc zero) b h = subst (λ b. pos 1 ≤ℤ b) (ok-injective h) (omega arith)
positive_budgets (suc (suc zero)) b h = subst (λ b. pos 1 ≤ℤ b) (ok-injective h) (omega arith)
positive_budgets (suc (suc (suc i))) b h = cc

-- Of half a second the second candidate gets what its successor leaves.
second_budget : candidate_budget text_plan 1 (pos 500) ≡ ok (pos 100)
unfolding candidate_budget
second_budget = refl

candidate_budget-IsFair_example : IsFair text_plan 1 (pos 500) (pos 100)
candidate_budget-IsFair_example =
    candidate_budget-IsFair text_plan 1 (pos 500) (pos 100) positive_budgets (omega arith)
      second_budget

-- an emitter with a sink that always raises
abbrev broken_emitter : TelemetryEmitter ℕ
broken_emitter = record {
  sink = some (λ event w. (raised "OSError", suc w));
  captured_events = [];
  sink_failures = [];
}

abbrev pub success_sample : TelemetryEvent
success_sample = record {
  family = TelemetryEventFamily.success;
  context = event_context "op-1";
  attributes = [];
  token_usage = none;
  redaction_status = RedactionStatus.redacted;
}

emit_all-Extends_example :
    Extends
      (success_sample ∷ success_sample ∷ [])
      broken_emitter
      (emit_all (success_sample ∷ success_sample ∷ []) broken_emitter 0).0
emit_all-Extends_example = emit_all-Extends (success_sample ∷ success_sample ∷ []) broken_emitter 0

abbrev fake : FakeProviderAdapter
fake = record {
  outcomes_by_endpoint =
      (
        "a",
        outcome_of ProviderOutcomeKind.timeout "a"
            ∷ outcome_of ProviderOutcomeKind.success "a"
            ∷ [],
      )
      ∷ [];
  calls_by_endpoint = [];
}

-- a plan for another endpoint
abbrev other_plan : AdapterInvocationPlan
other_plan = record attempt_plan { endpoint_uid = "b" }

-- After a call for the endpoint and one for another, the second outcome of the script is next.
invoke-IsPlayed_example :
    IsPlayed "a"
      (some (outcome_of ProviderOutcomeKind.success "a"))
      (invoke (after_calls (attempt_plan ∷ other_plan ∷ []) fake) attempt_plan).0
unfolding is_format lookup
invoke-IsPlayed_example =
    invoke-IsPlayed fake (attempt_plan ∷ other_plan ∷ []) attempt_plan refl refl refl
