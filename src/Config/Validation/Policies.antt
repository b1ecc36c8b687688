-- ===== src/Config/Validation/Policies.antt =====
-- config.py: the checks of `validate_config` on policies, and `_validate_policy`.
pub mod Silent
use Prim.Native.String.{◌++◌ as ◌+++◌}
use llm_endpoint.Prelude.{
  ℕ, suc, String, Bool, true, false, Option, none, some, List, [], ◌∷◌, ◌++◌, not, contains, ◌&&◌,
  if◌then◌else◌,
}
use llm_endpoint.Prelude.Int.{ℤ, pos, leb_ℤ, ltb_ℤ}
use llm_endpoint.Prelude.Text.{truthy}
use llm_endpoint.Prelude.Dict.{Dict}
use llm_endpoint.Values.{Value, int}
use llm_endpoint.Platform.{Platform}
use llm_endpoint.Config.{OperationRuntimePolicy}
use llm_endpoint.Capabilities.{not_positive}
use llm_endpoint.Config.Errors.{ConfigErrorCode, ConfigValidationError, error, error_if, indexed}
use llm_endpoint.Config.Names.{add_name}

module _ (platform : Platform) where
  -- one entry of `candidate_budget_overrides_ms`; a `bool` is no integer here
  pub override_errors : String → ℤ → String → Value → List ConfigValidationError
  unfolding error_if
  override_errors path deadline uid (int budget) =
      let override_path =
        path +++ (".candidate_budget_overrides_ms[" +++ (platform.text_repr uid +++ "]")) in
      let named = λ (rest : String). "override budget for " +++ (platform.text_repr uid +++ rest) in
      if leb_ℤ budget (pos 0)
      then error ConfigErrorCode.invalid_candidate_budget override_path (named " must be positive")
        ∷ []
      else error_if (ltb_ℤ (pos 0) deadline && ltb_ℤ deadline budget)
          ConfigErrorCode.invalid_candidate_budget override_path (named " exceeds deadline_ms")
  override_errors path deadline uid _ =
      error ConfigErrorCode.invalid_candidate_budget
        (path +++ (".candidate_budget_overrides_ms[" +++ (platform.text_repr uid +++ "]")))
        ("override budget for " +++ (platform.text_repr uid +++ " must be an integer"))
      ∷ []

  overrides_errors : String → ℤ → Dict Value → List ConfigValidationError
  unfolding override_errors
  overrides_errors path deadline [] = []
  overrides_errors path deadline ((uid, budget) ∷ overrides) =
      override_errors path deadline uid budget ++ overrides_errors path deadline overrides

  optional_overrides_errors : String → ℤ → Option (Dict Value) → List ConfigValidationError
  unfolding overrides_errors
  optional_overrides_errors path deadline none = []
  optional_overrides_errors path deadline (some overrides) =
      overrides_errors path deadline overrides

  -- `_validate_policy`
  pub policy_errors : String → OperationRuntimePolicy → List ConfigValidationError
  unfolding error_if optional_overrides_errors
  policy_errors path p =
      error_if (not (truthy p.ref)) ConfigErrorCode.unknown_policy_ref (path +++ ".ref")
        "policy ref is required"
      ++ (error_if (leb_ℤ p.deadline_ms (pos 0)) ConfigErrorCode.invalid_deadline
            (path +++ ".deadline_ms") "deadline_ms must be positive"
          ++ (error_if (leb_ℤ p.max_output_tokens (pos 0)) ConfigErrorCode.invalid_output_budget
                (path +++ ".max_output_tokens") "max_output_tokens must be positive"
              ++ (error_if (not_positive p.candidate_budget_ms)
                    ConfigErrorCode.invalid_candidate_budget (path +++ ".candidate_budget_ms")
                    "candidate_budget_ms must be omitted or positive"
                  ++ (optional_overrides_errors path p.deadline_ms p.candidate_budget_overrides_ms
                      ++ error_if (leb_ℤ p.retry_policy.max_attempts (pos 0))
                          ConfigErrorCode.invalid_candidate_budget
                          (path +++ ".retry_policy.max_attempts")
                          "max_attempts must be positive"))))

  -- the loop over the policies, with the references seen before
  unfoldable pub policies_errors :
      ℕ → List String → List OperationRuntimePolicy → List ConfigValidationError
  unfolding policy_errors error_if indexed add_name
  policies_errors index seen [] = []
  policies_errors index seen (p ∷ ps) =
      (error_if (contains p.ref seen) ConfigErrorCode.duplicate_policy_ref
          (indexed "policies" index +++ ".ref") "policy ref must be unique"
        ++ policy_errors (indexed "policies" index) p)
      ++ policies_errors (suc index) (add_name p.ref seen) ps
