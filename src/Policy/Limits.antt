-- ===== src/Policy/Limits.antt =====
-- policy.py: `_validate_effective_config`. A check gives the failure that it returns, or none.
pub mod Within
pub mod Total
use Prim.Native.String.{◌++◌ as ◌+++◌}
use llm_endpoint.Prelude.{
  String, Bool, true, false, Option, none, some, List, [], ◌∷◌, ◌++◌, map, not, contains, value_or,
  if◌then◌else◌,
}
use llm_endpoint.Prelude.Int.{ℤ, pos, leb_ℤ, ltb_ℤ}
use llm_endpoint.Prelude.Dict.{Dict, lookup, lookup_or, keys}
use llm_endpoint.Prelude.Sort.{sort_texts}
use llm_endpoint.Prelude.Outcome.{Result, ok, raise, Error, ◌>>=◌}
use llm_endpoint.Values.{Value, int}
use llm_endpoint.Platform.{Platform}
use llm_endpoint.Results.{FailureCode, FailureContext, TypedFailure, failure, for_invocation}
use llm_endpoint.Config.{EndpointConfig, Registry}
use llm_endpoint.Capabilities.{
  CapabilityProfile, CapabilityCatalog, get, supports_reasoning_mode, supports_structured_output,
}
use llm_endpoint.Policy.{EffectiveRuntimeConfig, budget_number}

-- `x is not None and n > x`
abbrev pub over_limit : ℤ → Option ℤ → Bool
over_limit n none = false
over_limit n (some limit) = ltb_ℤ limit n

-- the members of a list that are not in another
abbrev pub missing_from : List String → List String → List String
missing_from known [] = []
missing_from known (t ∷ ts) =
    if contains t known then missing_from known ts else t ∷ missing_from known ts

-- the budget of one endpoint; the overrides have been checked to be integers
pub effective_budget : EffectiveRuntimeConfig → String → Result ℤ
unfolding lookup budget_number
effective_budget e uid = elim (lookup uid (value_or e.candidate_budget_overrides_ms [])) [
  | none ↦ ok e.candidate_budget_ms
  | some budget ↦ budget_number budget
]

-- the first failure of two checks
first_failure :
    Result (Option TypedFailure) → Result (Option TypedFailure) → Result (Option TypedFailure)
first_failure (raise x) later = raise x
first_failure (ok (some f)) later = ok (some f)
first_failure (ok none) later = later

module _ (role operation_ref invocation_id : String) where
  -- what the failures say of the operation
  abbrev pub operation_context : FailureContext
  operation_context = record (for_invocation invocation_id) {
    role = some role;
    operation_ref = some operation_ref;
  }

  -- `_budget_failure`
  unfoldable pub budget_failure : String → TypedFailure
  unfolding failure
  budget_failure message =
      failure FailureCode.candidate_budget_unallocatable message operation_context []

  stale_failure : List String → Option TypedFailure
  unfolding budget_failure
  stale_failure [] = none
  stale_failure (uid ∷ uids) = some (
      budget_failure
        ("candidate_budget_overrides_ms contains uid outside resolved endpoint pool: " +++ uid))

  -- the checks of the numbers and of stale overrides
  pub numbers_failure : EffectiveRuntimeConfig → List String → Option TypedFailure
  unfolding budget_failure stale_failure
  numbers_failure e uids =
      if leb_ℤ e.deadline_ms (pos 0)
      then some (budget_failure "deadline_ms must be positive")
      else if leb_ℤ e.max_output_tokens (pos 0)
      then some (budget_failure "max_output_tokens must be positive")
      else if leb_ℤ e.candidate_budget_ms (pos 0)
      then some (budget_failure "candidate_budget_ms must be positive")
      else stale_failure
          (sort_texts (missing_from uids (keys (value_or e.candidate_budget_overrides_ms []))))

  -- the check of one override
  pub override_failure : Platform → ℤ → String → Value → Option TypedFailure
  unfolding budget_failure
  override_failure platform deadline uid (int budget) =
      let named = λ (rest : String).
        some (
          budget_failure
            ("candidate_budget_overrides_ms[" +++ (platform.text_repr uid +++ rest))) in
      if leb_ℤ budget (pos 0)
      then named "] must be positive"
      else if ltb_ℤ deadline budget
      then named "] exceeds deadline_ms"
      else none
  override_failure platform deadline uid _ = some (
      budget_failure
        ("candidate_budget_overrides_ms[" +++ (platform.text_repr uid +++ "] must be an integer")))

  pub overrides_failure : Platform → ℤ → Dict Value → Option TypedFailure
  unfolding override_failure
  overrides_failure platform deadline [] = none
  overrides_failure platform deadline ((uid, budget) ∷ overrides) =
      let later = overrides_failure platform deadline overrides in
      elim (override_failure platform deadline uid budget) [ none ↦ later | some f ↦ some f ]

  endpoint_failure : FailureCode → String → String → Option TypedFailure
  unfolding failure
  endpoint_failure code message uid =
      some (failure code message (record operation_context { endpoint_uid = some uid }) [])

  -- the checks of one endpoint against its profile, with its budget
  pub profile_failure :
      Platform → EffectiveRuntimeConfig → String → ℤ → CapabilityProfile → Option TypedFailure
  unfolding endpoint_failure supports_reasoning_mode supports_structured_output
  profile_failure platform e uid budget p =
      if ltb_ℤ p.hard_limits.max_output_tokens e.max_output_tokens
      then endpoint_failure FailureCode.output_budget_exceeds_hard_cap
          "max_output_tokens exceeds provider hard limit" uid
      else if over_limit e.deadline_ms p.hard_limits.max_deadline_ms
      then endpoint_failure FailureCode.candidate_budget_unallocatable
          "deadline_ms exceeds provider hard limit" uid
      else if over_limit budget p.hard_limits.max_deadline_ms
      then endpoint_failure FailureCode.candidate_budget_unallocatable
          ("candidate budget for endpoint uid "
            +++ (platform.text_repr uid +++ " exceeds provider hard limit"))
          uid
      else if not (supports_reasoning_mode p e.reasoning_mode)
      then endpoint_failure FailureCode.unsupported_reasoning_mode
          "reasoning mode is not supported by endpoint capability profile" uid
      else if not (supports_structured_output p e.structured_output_mode)
      then endpoint_failure FailureCode.capability_mismatch
          "structured output mode is not supported by endpoint capability profile" uid
      else none

  -- the body of the loop over the endpoints, from the catalog's answer on
  pub endpoint_check :
      Platform
      → EffectiveRuntimeConfig
      → String
      → Option CapabilityProfile
      → Result (Option TypedFailure)
  unfolding endpoint_failure effective_budget profile_failure
  endpoint_check platform e uid none = ok (
      endpoint_failure FailureCode.capability_mismatch
        "endpoint model family is not in the capability catalog" uid)
  endpoint_check platform e uid (some p) =
      effective_budget e uid >>= λ budget. ok (profile_failure platform e uid budget p)

  pub endpoints_check :
      Platform
      → CapabilityCatalog
      → Registry
      → EffectiveRuntimeConfig
      → List String
      → Result (Option TypedFailure)
  unfolding lookup get endpoint_check first_failure
  endpoints_check platform catalog registry e [] = ok none
  endpoints_check platform catalog registry e (uid ∷ uids) =
      let later = endpoints_check platform catalog registry e uids in
      elim (lookup uid registry.endpoints_by_uid) [
        | none ↦ raise (Error.key_error uid)
        | some endpoint ↦
            first_failure
              (endpoint_check platform e uid
                (get catalog endpoint.provider_format endpoint.model_family))
              later
      ]

  -- `_validate_effective_config`
  unfoldable pub validate_effective_config :
      Platform
      → CapabilityCatalog
      → Registry
      → List String
      → EffectiveRuntimeConfig
      → Result (Option TypedFailure)
  unfolding numbers_failure overrides_failure endpoints_check first_failure
  validate_effective_config platform catalog registry uids e =
      first_failure (ok (numbers_failure e uids)) (
        first_failure
          (ok (
            overrides_failure platform e.deadline_ms (value_or e.candidate_budget_overrides_ms [])))
          (endpoints_check platform catalog registry e uids))
