-- ===== src/Config/Validation/Operations/Silent.antt =====
-- When the checks of operations add no error.
use llm_endpoint.Prelude.{
  ◌≡◌, ◌≢◌, refl, ◌↔◌, eq_iff, ℕ, suc, String, true, false, Option, none, some, List, [], ◌∷◌,
  contains, map, All, arith,
}
use llm_endpoint.Prelude.Text.{truthy}
use llm_endpoint.Config.{OperationConfig}
use llm_endpoint.Config.Validation.Operations.{
  operation_ref_errors, is_empty_ref, operation_errors, operations_errors,
}
use llm_endpoint.Config.WellFormed.{Named, IsOperation}
use llm_endpoint.Config.WellFormed.Silence.{
  error_if-nil, error_unless-nil, named-nil, both, loop-nil, reorder,
}

is_empty_ref_iff : (o : Option String) → (is_empty_ref o ≡ false) ↔ (o ≢ some "")
is_empty_ref_iff none = (λ h e. cc, λ h. refl)
is_empty_ref_iff (some ref) = ground (arith, eq_iff ref "")

module _ (refs : List String) where
  operation_errors-nil :
      (index : ℕ) (seen : List String) (op : OperationConfig)
      → (operation_errors refs index seen op ≡ [])
        ↔ (((truthy op.ref ≡ true) × (contains op.ref seen ≡ false)) × IsOperation refs op)
  unfolding operation_errors operation_ref_errors
  operation_errors-nil index seen op =
      both (named-nil (truthy op.ref) (contains op.ref seen) _ _ _ _) (
        both (error_unless-nil (contains op.policy_ref refs) _ _ _) (
          reorder (error_if-nil (is_empty_ref op.schema_contract_ref) _ _ _)
            (is_empty_ref_iff op.schema_contract_ref)))

  pub operations_errors-nil :
      (index : ℕ) (seen : List String) (ops : List OperationConfig)
      → (operations_errors refs index seen ops ≡ [])
        ↔ (Named seen (map (λ (op : OperationConfig). op.ref) ops) × All (IsOperation refs) ops)
  unfolding operations_errors
  operations_errors-nil index seen [] = (λ h. (tt, tt), λ h. refl)
  operations_errors-nil index seen (op ∷ ops) =
      loop-nil (λ s. operations_errors refs (suc index) s ops) op.ref
        (map (λ (op : OperationConfig). op.ref) ops) seen (operation_errors-nil index seen op)
        (operations_errors-nil (suc index) (op.ref ∷ seen) ops)
