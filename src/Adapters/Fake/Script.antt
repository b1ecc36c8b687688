-- ===== src/Adapters/Fake/Script.antt =====
-- The fake adapter plays its script.
use llm_endpoint.Prelude.{
  ℕ, ◌+◌, ◌≡◌, refl, sym, ◌∙◌, String, Bool, true, ◌&&◌, ◌==◌, Option, none, some, List, [], ◌∷◌,
  get_elem?, if◌then◌else◌, arith, eq_iff, Bool-cases, Option-cases, inl, inr,
}
use llm_endpoint.Prelude.Dict.{lookup, lookup_or, lookup-insert}
use llm_endpoint.Prelude.Outcome.{Result, ok, raise}
use llm_endpoint.Results.{FailureCode}
use llm_endpoint.Config.{ProviderFormat, is_format}
use llm_endpoint.Adapters.{AdapterInvocationPlan, ProviderOutcome, ProviderOutcomeKind}
use llm_endpoint.Adapters.Reported.{provider_failure-reported}
use llm_endpoint.Prelude.Text.{truthy}
use llm_endpoint.Adapters.Fake.{FakeProviderAdapter, invoke, answer, fake_failure}

-- the fake after calls with some plans, in order
abbrev pub after_calls : List AdapterInvocationPlan → FakeProviderAdapter → FakeProviderAdapter
after_calls [] fake = fake
after_calls (p ∷ ps) fake = after_calls ps (invoke fake p).1

-- whether a call with a plan plays a step of an endpoint's script
abbrev pub is_step : String → AdapterInvocationPlan → Bool
is_step uid p = is_format p.provider_format ProviderFormat.fake && p.endpoint_uid == uid

-- the number of calls that do
abbrev pub calls_for : String → List AdapterInvocationPlan → ℕ
calls_for uid [] = 0
calls_for uid (p ∷ ps) = (if is_step uid p then 1 else 0) + calls_for uid ps

-- What is answered at a place of the script: its outcome, or, behind the end, a failure of the provider.
abbrev pub IsPlayed : String → Option ProviderOutcome → Result ProviderOutcome → Type 0
IsPlayed uid (some o) r = r ≡ ok o
IsPlayed uid none (ok o) =
    (o.endpoint_uid ≡ uid)
    × ((o.kind ≡ ProviderOutcomeKind.non_retryable_failure)
        × (o.failure_code ≡ some FailureCode.provider_failure))
IsPlayed uid none (raise e) = ⊥

invoke-count :
    (uid : String) (f : FakeProviderAdapter) (p : AdapterInvocationPlan)
    → lookup_or uid (invoke f p).1.calls_by_endpoint 0
      ≡ (if is_step uid p then 1 else 0) + lookup_or uid f.calls_by_endpoint 0
unfolding invoke
invoke-count uid f p = elim (Bool-cases (is_format p.provider_format ProviderFormat.fake)) [
  | inr other ↦ rw other (omega arith)
  | inl same ↦ rw same (
      rw
        (lookup-insert p.endpoint_uid uid (lookup_or p.endpoint_uid f.calls_by_endpoint 0 + 1)
          f.calls_by_endpoint)
        (elim (Bool-cases (p.endpoint_uid == uid)) [
          | inr apart ↦ rw apart (omega arith)
          | inl here ↦ rw (here, sym ((eq_iff p.endpoint_uid uid).0 here)) (omega arith)
        ]))
]

invoke-script :
    (f : FakeProviderAdapter) (p : AdapterInvocationPlan)
    → (invoke f p).1.outcomes_by_endpoint ≡ f.outcomes_by_endpoint
unfolding invoke
invoke-script f p = elim (Bool-cases (is_format p.provider_format ProviderFormat.fake)) [
  | inl same ↦ rw same refl
  | inr other ↦ rw other refl
]

after_calls-count :
    (uid : String) (ps : List AdapterInvocationPlan) (f : FakeProviderAdapter)
    → lookup_or uid (after_calls ps f).calls_by_endpoint 0
      ≡ calls_for uid ps + lookup_or uid f.calls_by_endpoint 0
after_calls-count uid [] f = omega arith
after_calls-count uid (p ∷ ps) f =
    omega (arith, invoke-count uid f p, after_calls-count uid ps (invoke f p).1)

after_calls-script :
    (ps : List AdapterInvocationPlan) (f : FakeProviderAdapter)
    → (after_calls ps f).outcomes_by_endpoint ≡ f.outcomes_by_endpoint
after_calls-script [] f = refl
after_calls-script (p ∷ ps) f = after_calls-script ps (invoke f p).1 ∙ invoke-script f p

answer-IsPlayed :
    (uid : String) (outcomes : List ProviderOutcome) (n : ℕ)
    → truthy uid ≡ true
    → IsPlayed uid (get_elem? outcomes n) (answer uid outcomes n)
unfolding answer fake_failure
answer-IsPlayed uid outcomes n named = elim (Option-cases (get_elem? outcomes n)) [
  | inl past ↦
      rw
        (
          past,
          answer,
          provider_failure-reported uid 0 FailureCode.provider_failure
              (("adapter", "fake_outcome_missing") ∷ []) named refl,
        )
        (refl, (refl, refl))
  | inr (o, there) ↦ rw (there, answer) refl
]

module _ (fake : FakeProviderAdapter) (ps : List AdapterInvocationPlan)
    (p : AdapterInvocationPlan) where
  -- A fake that has not been called for an endpoint answers a call with a plan of its format for this endpoint,
  -- which has a name, whatever calls for this endpoint and for others were made before, by the outcome at the place of its script
  -- that is the number of the earlier calls of its format for this endpoint, and behind the end of the script by
  -- a failure of the provider for this endpoint that is not retryable.
  pub invoke-IsPlayed :
      is_format p.provider_format ProviderFormat.fake ≡ true
      → truthy p.endpoint_uid ≡ true
      → lookup p.endpoint_uid fake.calls_by_endpoint ≡ none
      → IsPlayed p.endpoint_uid
          (get_elem?
            (lookup_or p.endpoint_uid fake.outcomes_by_endpoint [])
            (calls_for p.endpoint_uid ps))
          (invoke (after_calls ps fake) p).0
  unfolding invoke
  invoke-IsPlayed format named fresh =
      let count = after_calls-count p.endpoint_uid ps fake in
      let called : lookup_or p.endpoint_uid (after_calls ps fake).calls_by_endpoint 0
          ≡ calls_for p.endpoint_uid ps =
        count ∙ rw fresh (omega arith) in
      rw format (
        rw (called, after_calls-script ps fake)
          (answer-IsPlayed p.endpoint_uid (lookup_or p.endpoint_uid fake.outcomes_by_endpoint [])
            (calls_for p.endpoint_uid ps) named))
