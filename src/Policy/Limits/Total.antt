-- ===== src/Policy/Limits/Total.antt =====
-- The limits are checked without an exception.
use llm_endpoint.Prelude.{
  ◌≡◌, refl, subst, inl, inr, String, Option, none, some, List, [], ◌∷◌, not, value_or, All,
  Option-cases, Bool-cases, ◌==◌,
}
use llm_endpoint.Prelude.Int.{ℤ, pos, leb_ℤ, ltb_ℤ}
use llm_endpoint.Prelude.Dict.{Dict, lookup, keys}
use llm_endpoint.Prelude.Sort.{sort_texts}
use llm_endpoint.Prelude.Outcome.{Result, ok}
use llm_endpoint.Values.{Value, null, bool, int, float, str, list, tuple, mapping}
use llm_endpoint.Platform.{Platform}
use llm_endpoint.Results.{FailureCode, TypedFailure}
use llm_endpoint.Results.About.{MayFail, failure-IsAbout, if-MayFail, no_failure, one_failure}
use llm_endpoint.Config.{Registry}
use llm_endpoint.Config.Building.Built.{IsListed}
use llm_endpoint.Config.WellFormed.{IsOverride}
use llm_endpoint.Capabilities.{
  CapabilityProfile, CapabilityCatalog, get, supports_reasoning_mode, supports_structured_output,
}
use llm_endpoint.Policy.{EffectiveRuntimeConfig, budget_number}
use llm_endpoint.Policy.Limits.{
  over_limit, missing_from, operation_context, budget_failure, stale_failure, numbers_failure,
  override_failure, overrides_failure, endpoint_failure, profile_failure, effective_budget,
  endpoint_check, first_failure, endpoints_check, validate_effective_config,
}
use llm_endpoint.Policy.Limits.Within.{overrides_failure-none}

-- a check that returns, a failure of the invocation or none
abbrev pub Checks : String → Result (Option TypedFailure) → Type 0
Checks id x = (o : Option TypedFailure) × ((x ≡ ok o) × MayFail id o)

some-injective : {v w : Value} → some v ≡ some w → v ≡ w
some-injective h = cc

none-not-some : {v : Value} → none ≡ some v → ⊥
none-not-some h = cc

integer : (deadline : ℤ) (v : Value) → IsOverride deadline v → (n : ℤ) × (budget_number v ≡ ok n)
unfolding budget_number
integer deadline (int n) h = (n, refl)
integer deadline null h = elim h [ ]
integer deadline (bool b) h = elim h [ ]
integer deadline (float m s) h = elim h [ ]
integer deadline (str s) h = elim h [ ]
integer deadline (list vs) h = elim h [ ]
integer deadline (tuple vs) h = elim h [ ]
integer deadline (mapping fs) h = elim h [ ]

first_failure-Checks :
    (id : String) (a b : Result (Option TypedFailure))
    → Checks id a
    → Checks id b
    → Checks id (first_failure a b)
unfolding first_failure
first_failure-Checks id a b (none, (same, _)) (o, (next, about)) = (o, (rw same next, about))
first_failure-Checks id a b (some f, (same, about)) later = (some f, (rw same refl, about))

lookup-All :
    (P : Value → Type 0) (d : Dict Value)
    → All (λ (entry : String × Value). P entry.1) d
    → (k : String) (v : Value) → lookup k d ≡ some v
    → P v
unfolding lookup
lookup-All P [] h k v found = elim (none-not-some found) [ ]
lookup-All P ((j, w) ∷ d) (here, there) k v found = elim (Bool-cases (j == k)) [
  | inl same ↦ subst P (some-injective (rw (same, lookup) at found)) here
  | inr other ↦ lookup-All P d there k v (rw (other, lookup) at found)
]

effective_budget-ok :
    (e : EffectiveRuntimeConfig) (uid : String)
    → All
        (λ (entry : String × Value). IsOverride e.deadline_ms entry.1)
        (value_or e.candidate_budget_overrides_ms [])
    → (budget : ℤ) × (effective_budget e uid ≡ ok budget)
unfolding effective_budget
effective_budget-ok e uid h =
    elim (Option-cases (lookup uid (value_or e.candidate_budget_overrides_ms []))) [
      | inl missing ↦ (e.candidate_budget_ms, rw (missing, effective_budget) refl)
      | inr (v, found) ↦
          let (budget, same) = integer e.deadline_ms v (
            lookup-All (IsOverride e.deadline_ms) (value_or e.candidate_budget_overrides_ms []) h
              uid v found) in
          (budget, rw (found, effective_budget) same)
    ]

module _ (role operation_ref invocation_id : String) where
  budget_failure-MayFail :
      (message : String)
      → MayFail invocation_id (some (budget_failure role operation_ref invocation_id message))
  unfolding budget_failure
  budget_failure-MayFail message = one_failure _ (
      failure-IsAbout FailureCode.candidate_budget_unallocatable message
        (operation_context role operation_ref invocation_id) [])

  stale_failure-MayFail :
      (uids : List String)
      → MayFail invocation_id (stale_failure role operation_ref invocation_id uids)
  unfolding stale_failure
  stale_failure-MayFail [] = no_failure invocation_id
  stale_failure-MayFail (uid ∷ uids) = budget_failure-MayFail _

  numbers_failure-MayFail :
      (e : EffectiveRuntimeConfig) (uids : List String)
      → MayFail invocation_id (numbers_failure role operation_ref invocation_id e uids)
  unfolding numbers_failure
  numbers_failure-MayFail e uids =
      if-MayFail (leb_ℤ e.deadline_ms (pos 0)) _ _ (budget_failure-MayFail _) (
        if-MayFail (leb_ℤ e.max_output_tokens (pos 0)) _ _ (budget_failure-MayFail _) (
          if-MayFail (leb_ℤ e.candidate_budget_ms (pos 0)) _ _ (budget_failure-MayFail _) (
            stale_failure-MayFail (
              sort_texts
                (missing_from uids (keys (value_or e.candidate_budget_overrides_ms [])))))))

  override_failure-MayFail :
      (platform : Platform) (deadline : ℤ) (uid : String) (budget : Value)
      → MayFail invocation_id
          (override_failure role operation_ref invocation_id platform deadline uid budget)
  unfolding override_failure
  override_failure-MayFail platform deadline uid (int n) =
      if-MayFail (leb_ℤ n (pos 0)) _ _ (budget_failure-MayFail _)
        (if-MayFail (ltb_ℤ deadline n) _ none (budget_failure-MayFail _) (no_failure invocation_id))
  override_failure-MayFail platform deadline uid null = budget_failure-MayFail _
  override_failure-MayFail platform deadline uid (bool b) = budget_failure-MayFail _
  override_failure-MayFail platform deadline uid (float m s) = budget_failure-MayFail _
  override_failure-MayFail platform deadline uid (str s) = budget_failure-MayFail _
  override_failure-MayFail platform deadline uid (list vs) = budget_failure-MayFail _
  override_failure-MayFail platform deadline uid (tuple vs) = budget_failure-MayFail _
  override_failure-MayFail platform deadline uid (mapping fs) = budget_failure-MayFail _

  overrides_failure-MayFail :
      (platform : Platform) (deadline : ℤ) (d : Dict Value)
      → MayFail invocation_id
          (overrides_failure role operation_ref invocation_id platform deadline d)
  unfolding overrides_failure
  overrides_failure-MayFail platform deadline [] = no_failure invocation_id
  overrides_failure-MayFail platform deadline ((uid, budget) ∷ d) =
      elim (Option-cases
        (override_failure role operation_ref invocation_id platform deadline uid budget)) [
          | inl fine ↦ rw (fine, overrides_failure) (overrides_failure-MayFail platform deadline d)
          | inr (f, wrong) ↦
              rw (wrong, overrides_failure)
                (subst (MayFail invocation_id) wrong
                  (override_failure-MayFail platform deadline uid budget))
        ]

  endpoint_failure-MayFail :
      (code : FailureCode) (message uid : String)
      → MayFail invocation_id (endpoint_failure role operation_ref invocation_id code message uid)
  unfolding endpoint_failure
  endpoint_failure-MayFail code message uid = one_failure _ (
      failure-IsAbout code message
        (record (operation_context role operation_ref invocation_id) { endpoint_uid = some uid })
        [])

  profile_failure-MayFail :
      (platform : Platform) (e : EffectiveRuntimeConfig) (uid : String) (budget : ℤ)
      (p : CapabilityProfile)
      → MayFail invocation_id
          (profile_failure role operation_ref invocation_id platform e uid budget p)
  unfolding profile_failure
  profile_failure-MayFail platform e uid budget p =
      if-MayFail (ltb_ℤ p.hard_limits.max_output_tokens e.max_output_tokens) _ _
        (endpoint_failure-MayFail _ _ uid)
        (if-MayFail (over_limit e.deadline_ms p.hard_limits.max_deadline_ms) _ _
          (endpoint_failure-MayFail _ _ uid)
          (if-MayFail (over_limit budget p.hard_limits.max_deadline_ms) _ _
            (endpoint_failure-MayFail _ _ uid)
            (if-MayFail (not (supports_reasoning_mode p e.reasoning_mode)) _ _
              (endpoint_failure-MayFail _ _ uid)
              (if-MayFail (not (supports_structured_output p e.structured_output_mode)) _ none
                (endpoint_failure-MayFail _ _ uid) (no_failure invocation_id)))))

  module _ (platform : Platform) (catalog : CapabilityCatalog) (registry : Registry)
      (e : EffectiveRuntimeConfig)
      (integers : All
        (λ (entry : String × Value). IsOverride e.deadline_ms entry.1)
        (value_or e.candidate_budget_overrides_ms [])) where
    endpoint_check-Checks :
        (uid : String) (o : Option CapabilityProfile)
        → Checks invocation_id (endpoint_check role operation_ref invocation_id platform e uid o)
    unfolding endpoint_check
    endpoint_check-Checks uid none = (_, (refl, endpoint_failure-MayFail _ _ uid))
    endpoint_check-Checks uid (some p) =
        let (budget, same) = effective_budget-ok e uid integers in
        (_, (rw same refl, profile_failure-MayFail platform e uid budget p))

    endpoints_check-Checks :
        (uids : List String)
        → All (IsListed registry) uids
        → Checks invocation_id
            (endpoints_check role operation_ref invocation_id platform catalog registry e uids)
    unfolding endpoints_check
    endpoints_check-Checks [] h = (none, (refl, no_failure invocation_id))
    endpoints_check-Checks (uid ∷ uids) ((endpoint, (found, _)), there) =
        let (o, (same, about)) =
          first_failure-Checks invocation_id _ _
            (endpoint_check-Checks uid (get catalog endpoint.provider_format endpoint.model_family))
            (endpoints_check-Checks uids there) in
        (o, (rw (found, endpoints_check) same, about))

  pub validate_effective_config-Checks :
      (platform : Platform) (catalog : CapabilityCatalog) (registry : Registry) (uids : List String)
      (e : EffectiveRuntimeConfig)
      → All (IsListed registry) uids
      → Checks invocation_id (
          validate_effective_config role operation_ref invocation_id platform catalog registry uids
            e)
  unfolding validate_effective_config first_failure
  validate_effective_config-Checks platform catalog registry uids e listed =
      let overrides = value_or e.candidate_budget_overrides_ms [] in
      first_failure-Checks invocation_id _ _ (_, (refl, numbers_failure-MayFail e uids))
        (elim (Option-cases
          (overrides_failure role operation_ref invocation_id platform e.deadline_ms overrides)) [
            | inl fine ↦
                first_failure-Checks invocation_id _ _
                  (_, (refl, overrides_failure-MayFail platform e.deadline_ms overrides))
                  (endpoints_check-Checks platform catalog registry e
                    (overrides_failure-none role operation_ref invocation_id platform e.deadline_ms
                      overrides fine)
                    uids listed)
            | inr (f, wrong) ↦ (
              some f,
              (
                rw (wrong, first_failure) refl,
                subst (MayFail invocation_id) wrong
                    (overrides_failure-MayFail platform e.deadline_ms overrides),
              ),
            )
          ])
