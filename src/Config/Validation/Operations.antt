-- ===== src/Config/Validation/Operations.antt =====
-- config.py: the checks of `validate_config` on operations.
pub mod Silent
use Prim.Native.String.{◌++◌ as ◌+++◌}
use llm_endpoint.Prelude.{
  ℕ, suc, String, Bool, true, false, Option, none, some, List, [], ◌∷◌, ◌++◌, not, contains, ◌==◌,
  if◌then◌else◌,
}
use llm_endpoint.Prelude.Text.{truthy}
use llm_endpoint.Config.{OperationConfig}
use llm_endpoint.Config.Errors.{ConfigErrorCode, ConfigValidationError, error, error_if, indexed}
use llm_endpoint.Config.Names.{add_name}

operation_ref_errors : String → List String → OperationConfig → List ConfigValidationError
unfolding error_if
operation_ref_errors path seen op =
    if truthy op.ref
    then error_if (contains op.ref seen) ConfigErrorCode.duplicate_operation_ref (path +++ ".ref")
        "operation ref must be unique"
    else error ConfigErrorCode.empty_operation_ref (path +++ ".ref") "operation ref is required"
      ∷ []

-- `ref == ""`, for text or None
abbrev pub is_empty_ref : Option String → Bool
is_empty_ref none = false
is_empty_ref (some ref) = ref == ""

pub operation_errors : List String → ℕ → List String → OperationConfig → List ConfigValidationError
unfolding operation_ref_errors error_if indexed
operation_errors policies index seen op =
    let path = indexed "operations" index in
    operation_ref_errors path seen op
    ++ (error_if (not (contains op.policy_ref policies)) ConfigErrorCode.unknown_policy_ref
          (path +++ ".policy_ref") ("unknown policy ref: " +++ op.policy_ref)
        ++ error_if (is_empty_ref op.schema_contract_ref) ConfigErrorCode.invalid_schema_ref
            (path +++ ".schema_contract_ref") "schema_contract_ref must be omitted or non-empty")

-- the loop over the operations, with the references seen before
unfoldable pub operations_errors :
    List String → ℕ → List String → List OperationConfig → List ConfigValidationError
unfolding operation_errors add_name
operations_errors policies index seen [] = []
operations_errors policies index seen (op ∷ ops) =
    operation_errors policies index seen op
    ++ operations_errors policies (suc index) (add_name op.ref seen) ops
