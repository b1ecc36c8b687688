-- ===== src/Results/Classified.antt =====
-- Failures that carry the retryability and the class that the two tables give for their code.
use llm_endpoint.Prelude.{String, ◌≡◌, refl, some, List}
use llm_endpoint.Results.{
  FailureCode, FailureContext, TypedFailure, failure, failure_with_hint, retryability_by_code,
  failure_class_by_code,
}
use llm_endpoint.Prelude.{Option}

abbrev pub IsClassified : TypedFailure → Type 0
IsClassified f =
    (f.retryability ≡ some (retryability_by_code f.code))
    × (f.failure_class ≡ some (failure_class_by_code f.code))

pub failure-IsClassified :
    (code : FailureCode) (message : String) (context : FailureContext)
    (safe_context : List (String × String))
    → IsClassified (failure code message context safe_context)
unfolding failure
failure-IsClassified code message context safe_context = (refl, refl)

pub failure_with_hint-IsClassified :
    (code : FailureCode) (message : String) (hint : Option String) (context : FailureContext)
    (safe_context : List (String × String))
    → IsClassified (failure_with_hint code message hint context safe_context)
unfolding failure_with_hint
failure_with_hint-IsClassified code message hint context safe_context = (refl, refl)
