-- ===== src/Config/Validation/Policies/Silent.antt =====
-- When the checks of policies add no error.
use llm_endpoint.Prelude.{
  ◌≡◌, refl, ◌↔◌, ℕ, suc, String, true, false, ◌&&◌, Option, none, some, List, [], ◌∷◌, contains,
  map, All, arith,
}
use llm_endpoint.Prelude.Int.{ℤ, pos, negsuc, ◌≤ℤ◌, leb_ℤ, ltb_ℤ}
use llm_endpoint.Prelude.Text.{truthy}
use llm_endpoint.Prelude.Dict.{Dict}
use llm_endpoint.Values.{Value, null, bool, int, float, str, list, tuple, mapping}
use llm_endpoint.Platform.{Platform}
use llm_endpoint.Config.{OperationRuntimePolicy}
use llm_endpoint.Capabilities.{not_positive}
use llm_endpoint.Config.Validation.Policies.{
  override_errors, overrides_errors, optional_overrides_errors, policy_errors, policies_errors,
}
use llm_endpoint.Config.WellFormed.{Named, IsPositive, IsOverride, AreOverrides, IsPolicy}
use llm_endpoint.Config.WellFormed.Silence.{
  error_if-nil, error_unless-nil, both, loop-nil, reorder, never, positive-nil,
}

positive_iff : (n : ℤ) → (leb_ℤ n (pos 0) ≡ false) ↔ (pos 1 ≤ℤ n)
positive_iff (pos n) = (λ h. ground arith, λ h. ground arith)
positive_iff (negsuc n) = (λ h. ground arith, λ h. ground arith)

in_deadline_iff :
    (deadline n : ℤ)
    → ((ltb_ℤ (pos 0) deadline && ltb_ℤ deadline n) ≡ false) ↔ (pos 1 ≤ℤ deadline → n ≤ℤ deadline)
in_deadline_iff deadline n = (λ h k. ground arith, λ h. ground arith)

optional-IsPositive_iff : (o : Option ℤ) → (not_positive o ≡ false) ↔ IsPositive o
optional-IsPositive_iff none = (λ h. tt, λ h. refl)
optional-IsPositive_iff (some n) = positive_iff n

module _ (platform : Platform) where
  override_errors-nil :
      (path : String) (deadline : ℤ) (uid : String) (budget : Value)
      → (override_errors platform path deadline uid budget ≡ []) ↔ IsOverride deadline budget
  unfolding override_errors
  override_errors-nil path deadline uid (int n) =
      positive-nil (leb_ℤ n (pos 0)) _ _ _ _ _ (positive_iff n) (in_deadline_iff deadline n)
  override_errors-nil path deadline uid null = never _ _
  override_errors-nil path deadline uid (bool b) = never _ _
  override_errors-nil path deadline uid (float m s) = never _ _
  override_errors-nil path deadline uid (str s) = never _ _
  override_errors-nil path deadline uid (list vs) = never _ _
  override_errors-nil path deadline uid (tuple vs) = never _ _
  override_errors-nil path deadline uid (mapping fs) = never _ _

  overrides_errors-nil :
      (path : String) (deadline : ℤ) (d : Dict Value)
      → (overrides_errors platform path deadline d ≡ [])
        ↔ All (λ (entry : String × Value). IsOverride deadline entry.1) d
  unfolding overrides_errors
  overrides_errors-nil path deadline [] = (λ h. tt, λ h. refl)
  overrides_errors-nil path deadline ((uid, budget) ∷ d) =
      both (override_errors-nil path deadline uid budget) (overrides_errors-nil path deadline d)

  optional_overrides_errors-nil :
      (path : String) (deadline : ℤ) (o : Option (Dict Value))
      → (optional_overrides_errors platform path deadline o ≡ []) ↔ AreOverrides deadline o
  unfolding optional_overrides_errors
  optional_overrides_errors-nil path deadline none = (λ h. tt, λ h. refl)
  optional_overrides_errors-nil path deadline (some d) = overrides_errors-nil path deadline d

  policy_errors-nil :
      (path : String) (p : OperationRuntimePolicy)
      → (policy_errors platform path p ≡ []) ↔ ((truthy p.ref ≡ true) × IsPolicy p)
  unfolding policy_errors
  policy_errors-nil path p = both (error_unless-nil (truthy p.ref) _ _ _) (
      both (reorder (error_if-nil (leb_ℤ p.deadline_ms (pos 0)) _ _ _) (positive_iff p.deadline_ms))
        (both
          (reorder (error_if-nil (leb_ℤ p.max_output_tokens (pos 0)) _ _ _)
            (positive_iff p.max_output_tokens))
          (both
            (reorder (error_if-nil (not_positive p.candidate_budget_ms) _ _ _)
              (optional-IsPositive_iff p.candidate_budget_ms))
            (both (optional_overrides_errors-nil path p.deadline_ms p.candidate_budget_overrides_ms)
              (reorder (error_if-nil (leb_ℤ p.retry_policy.max_attempts (pos 0)) _ _ _)
                (positive_iff p.retry_policy.max_attempts))))))

  pub policies_errors-nil :
      (index : ℕ) (seen : List String) (ps : List OperationRuntimePolicy)
      → (policies_errors platform index seen ps ≡ [])
        ↔ (Named seen (map (λ (p : OperationRuntimePolicy). p.ref) ps) × All IsPolicy ps)
  unfolding policies_errors
  policies_errors-nil index seen [] = (λ h. (tt, tt), λ h. refl)
  policies_errors-nil index seen (p ∷ ps) =
      loop-nil (λ s. policies_errors platform (suc index) s ps) p.ref
        (map (λ (p : OperationRuntimePolicy). p.ref) ps) seen
        (reorder (both (error_if-nil (contains p.ref seen) _ _ _) (policy_errors-nil _ p)) (
          λ (fresh, (named, rest)). ((named, fresh), rest),
          λ ((named, fresh), rest). (fresh, (named, rest)),
        ))
        (policies_errors-nil (suc index) (p.ref ∷ seen) ps)
