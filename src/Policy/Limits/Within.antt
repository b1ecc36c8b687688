-- ===== src/Policy/Limits/Within.antt =====
-- What an effective configuration is that passes every check.
use llm_endpoint.Prelude.{
  ◌≡◌, refl, subst, inl, inr, String, Bool, true, false, Option, none, some, List, [], ◌∷◌, not,
  contains, value_or, if-none, All, Bool-cases, Option-cases, arith,
}
use llm_endpoint.Prelude.Int.{ℤ, pos, negsuc, ◌≤ℤ◌, leb_ℤ, ltb_ℤ}
use llm_endpoint.Prelude.Dict.{Dict, lookup, keys}
use llm_endpoint.Prelude.Sort.{sort_texts, sort_by-nil}
use llm_endpoint.Prelude.Outcome.{Result, ok, raise, ok-injective, >>=-eq-ok}
use llm_endpoint.Values.{Value, null, bool, int, float, str, list, tuple, mapping}
use llm_endpoint.Platform.{Platform}
use llm_endpoint.Results.{TypedFailure}
use llm_endpoint.Config.{EndpointConfig, Registry}
use llm_endpoint.Config.WellFormed.{IsOverride}
use llm_endpoint.Capabilities.{
  CapabilityProfile, CapabilityCatalog, get, supports_reasoning_mode, supports_structured_output,
}
use llm_endpoint.Policy.{EffectiveRuntimeConfig}
use llm_endpoint.Policy.Limits.{
  over_limit, missing_from, stale_failure, numbers_failure, override_failure, overrides_failure,
  endpoint_failure, profile_failure, effective_budget, endpoint_check, first_failure,
  endpoints_check, validate_effective_config,
}

-- An endpoint serves a configuration: the registry has it, the catalog has its profile, and the configuration and the
-- endpoint's budget keep the profile's limits.
pub record IsServed (registry : Registry) (catalog : CapabilityCatalog) (e : EffectiveRuntimeConfig)
    (uid : String) : Type 0 where
  pub endpoint : EndpointConfig
  pub profile : CapabilityProfile
  pub budget : ℤ
  pub found : lookup uid registry.endpoints_by_uid ≡ some endpoint
  pub catalogued : get catalog endpoint.provider_format endpoint.model_family ≡ some profile
  pub budgeted : effective_budget e uid ≡ ok budget
  pub tokens : e.max_output_tokens ≤ℤ profile.hard_limits.max_output_tokens
  pub deadline :
      (limit : ℤ)
      → profile.hard_limits.max_deadline_ms ≡ some limit
      → (e.deadline_ms ≤ℤ limit) × (budget ≤ℤ limit)
  pub reasoning : supports_reasoning_mode profile e.reasoning_mode ≡ true
  pub structured : supports_structured_output profile e.structured_output_mode ≡ true

-- A configuration within the limits of a registry and a catalog, for the endpoints of a role.
pub record IsWithin (registry : Registry) (catalog : CapabilityCatalog) (e : EffectiveRuntimeConfig)
    (uids : List String) : Type 0 where
  pub deadline : pos 1 ≤ℤ e.deadline_ms
  pub tokens : pos 1 ≤ℤ e.max_output_tokens
  pub budget : pos 1 ≤ℤ e.candidate_budget_ms
  pub known :
      All (λ uid. contains uid uids ≡ true) (keys (value_or e.candidate_budget_overrides_ms []))
  pub overrides :
      All
        (λ (entry : String × Value). IsOverride e.deadline_ms entry.1)
        (value_or e.candidate_budget_overrides_ms [])
  pub endpoints : All (IsServed registry catalog e) uids

positive : (n : ℤ) → leb_ℤ n (pos 0) ≡ false → pos 1 ≤ℤ n
positive (pos n) h = ground arith
positive (negsuc n) h = ground arith

not_above : (a b : ℤ) → ltb_ℤ a b ≡ false → b ≤ℤ a
not_above a b h = ground arith

some-injective : {m n : ℤ} → some m ≡ some n → m ≡ n
some-injective h = cc

within_limit :
    (n : ℤ) (o : Option ℤ) → over_limit n o ≡ false → (limit : ℤ) → o ≡ some limit → n ≤ℤ limit
within_limit n none h limit same = cc
within_limit n (some m) h limit same = subst (λ l. n ≤ℤ l) (some-injective same) (not_above m n h)

not-false : (b : Bool) → not b ≡ false → b ≡ true
not-false true h = refl
not-false false h = cc

sort_texts-nil : (ts : List String) → sort_texts ts ≡ [] → ts ≡ []
sort_texts-nil ts h = sort_by-nil (λ t. t) ts h

missing_from-nil :
    (uids ts : List String) → missing_from uids ts ≡ [] → All (λ t. contains t uids ≡ true) ts
missing_from-nil uids [] h = tt
missing_from-nil uids (t ∷ ts) h = elim (Bool-cases (contains t uids)) [
  | inl known ↦ (known, missing_from-nil uids ts (rw known at h))
  | inr unknown ↦ cc (rw unknown at h)
]

first_failure-none :
    (a b : Result (Option TypedFailure))
    → first_failure a b ≡ ok none
    → (a ≡ ok none) × (b ≡ ok none)
unfolding first_failure
first_failure-none (raise x) b h = cc
first_failure-none (ok (some f)) b h = cc
first_failure-none (ok none) b h = (refl, h)

module _ (role operation_ref invocation_id : String) where
  stale_failure-none :
      (uids : List String) → stale_failure role operation_ref invocation_id uids ≡ none → uids ≡ []
  unfolding stale_failure
  stale_failure-none [] h = refl
  stale_failure-none (uid ∷ uids) h = cc

  override_failure-none :
      (platform : Platform) (deadline : ℤ) (uid : String) (budget : Value)
      → override_failure role operation_ref invocation_id platform deadline uid budget ≡ none
      → IsOverride deadline budget
  unfolding override_failure
  override_failure-none platform deadline uid (int n) h =
      let (low, rest) = if-none (leb_ℤ n (pos 0)) _ _ h in
      let (high, _) = if-none (ltb_ℤ deadline n) _ _ rest in
      (positive n low, λ k. not_above deadline n high)
  override_failure-none platform deadline uid null h = cc
  override_failure-none platform deadline uid (bool b) h = cc
  override_failure-none platform deadline uid (float m s) h = cc
  override_failure-none platform deadline uid (str s) h = cc
  override_failure-none platform deadline uid (list vs) h = cc
  override_failure-none platform deadline uid (tuple vs) h = cc
  override_failure-none platform deadline uid (mapping fs) h = cc

  pub overrides_failure-none :
      (platform : Platform) (deadline : ℤ) (d : Dict Value)
      → overrides_failure role operation_ref invocation_id platform deadline d ≡ none
      → All (λ (entry : String × Value). IsOverride deadline entry.1) d
  unfolding overrides_failure
  overrides_failure-none platform deadline [] h = tt
  overrides_failure-none platform deadline ((uid, budget) ∷ d) h =
      elim (Option-cases
        (override_failure role operation_ref invocation_id platform deadline uid budget)) [
          | inl fine ↦ (
            override_failure-none platform deadline uid budget fine,
            overrides_failure-none platform deadline d (rw (fine, overrides_failure) at h),
          )
          | inr (f, wrong) ↦ cc (rw (wrong, overrides_failure) at h)
        ]

  endpoint_check-none :
      (platform : Platform) (registry : Registry) (catalog : CapabilityCatalog)
      (e : EffectiveRuntimeConfig) (uid : String) (endpoint : EndpointConfig)
      (o : Option CapabilityProfile)
      → lookup uid registry.endpoints_by_uid ≡ some endpoint
      → get catalog endpoint.provider_format endpoint.model_family ≡ o
      → endpoint_check role operation_ref invocation_id platform e uid o ≡ ok none
      → IsServed registry catalog e uid
  unfolding endpoint_check endpoint_failure profile_failure
  endpoint_check-none platform registry catalog e uid endpoint none found catalogued h = cc
  endpoint_check-none platform registry catalog e uid endpoint (some p) found catalogued h =
      let (budget, budgeted, h₁) = >>=-eq-ok (effective_budget e uid) _ h in
      let (tokens, h₂) =
        if-none (ltb_ℤ p.hard_limits.max_output_tokens e.max_output_tokens) _ _ (ok-injective h₁) in
      let (in_deadline, h₃) =
        if-none (over_limit e.deadline_ms p.hard_limits.max_deadline_ms) _ _ h₂ in
      let (in_budget, h₄) = if-none (over_limit budget p.hard_limits.max_deadline_ms) _ _ h₃ in
      let (reasoning, h₅) = if-none (not (supports_reasoning_mode p e.reasoning_mode)) _ _ h₄ in
      let (structured, _) =
        if-none (not (supports_structured_output p e.structured_output_mode)) _ _ h₅ in
      record {
        endpoint = endpoint;
        profile = p;
        budget = budget;
        found = found;
        catalogued = catalogued;
        budgeted = budgeted;
        tokens = not_above p.hard_limits.max_output_tokens e.max_output_tokens tokens;
        deadline = λ limit same. (
          within_limit e.deadline_ms p.hard_limits.max_deadline_ms in_deadline limit same,
          within_limit budget p.hard_limits.max_deadline_ms in_budget limit same,
        );
        reasoning = not-false (supports_reasoning_mode p e.reasoning_mode) reasoning;
        structured = not-false (supports_structured_output p e.structured_output_mode) structured;
      }

  endpoints_check-none :
      (platform : Platform) (registry : Registry) (catalog : CapabilityCatalog)
      (e : EffectiveRuntimeConfig) (uids : List String)
      → endpoints_check role operation_ref invocation_id platform catalog registry e uids ≡ ok none
      → All (IsServed registry catalog e) uids
  unfolding endpoints_check
  endpoints_check-none platform registry catalog e [] h = tt
  endpoints_check-none platform registry catalog e (uid ∷ uids) h =
      elim (Option-cases (lookup uid registry.endpoints_by_uid)) [
        | inl missing ↦ cc (rw (missing, endpoints_check) at h)
        | inr (endpoint, found) ↦
            let (here, later) = first_failure-none _ _ (rw (found, endpoints_check) at h) in
            (
              endpoint_check-none platform registry catalog e uid endpoint
                  (get catalog endpoint.provider_format endpoint.model_family) found refl here,
              endpoints_check-none platform registry catalog e uids later,
            )
      ]

  numbers_failure-none :
      (e : EffectiveRuntimeConfig) (uids : List String)
      → numbers_failure role operation_ref invocation_id e uids ≡ none
      → (pos 1 ≤ℤ e.deadline_ms)
        × ((pos 1 ≤ℤ e.max_output_tokens)
            × ((pos 1 ≤ℤ e.candidate_budget_ms)
                × All
                    (λ uid. contains uid uids ≡ true)
                    (keys (value_or e.candidate_budget_overrides_ms []))))
  unfolding numbers_failure
  numbers_failure-none e uids h =
      let (deadline, h₁) = if-none (leb_ℤ e.deadline_ms (pos 0)) _ _ h in
      let (tokens, h₂) = if-none (leb_ℤ e.max_output_tokens (pos 0)) _ _ h₁ in
      let (budget, h₃) = if-none (leb_ℤ e.candidate_budget_ms (pos 0)) _ _ h₂ in
      (
        positive e.deadline_ms deadline,
        (
          positive e.max_output_tokens tokens,
          (
            positive e.candidate_budget_ms budget,
            missing_from-nil uids (keys (value_or e.candidate_budget_overrides_ms []))
                (sort_texts-nil _ (stale_failure-none _ h₃)),
          ),
        ),
      )

  pub validate_effective_config-IsWithin :
      (platform : Platform) (registry : Registry) (catalog : CapabilityCatalog) (uids : List String)
      (e : EffectiveRuntimeConfig)
      → validate_effective_config role operation_ref invocation_id platform catalog registry uids e
        ≡ ok none
      → IsWithin registry catalog e uids
  unfolding validate_effective_config
  validate_effective_config-IsWithin platform registry catalog uids e h =
      let (numbers, h₁) = first_failure-none _ _ h in
      let (overrides, h₂) = first_failure-none _ _ h₁ in
      let (deadline, (tokens, (budget, known))) =
        numbers_failure-none e uids (ok-injective numbers) in
      record {
        deadline = deadline;
        tokens = tokens;
        budget = budget;
        known = known;
        overrides =
            overrides_failure-none platform e.deadline_ms
              (value_or e.candidate_budget_overrides_ms []) (ok-injective overrides);
        endpoints = endpoints_check-none platform registry catalog e uids h₂;
      }
