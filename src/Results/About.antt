-- ===== src/Results/About.antt =====
-- The failures of one invocation: classified for retries, and with its identifier.
use llm_endpoint.Prelude.{
  ◌≡◌, refl, subst, String, Bool, true, false, Option, none, some, if◌then◌else◌,
}
use llm_endpoint.Prelude.Dict.{Dict}
use llm_endpoint.Results.{
  FailureCode, FailureContext, TypedFailure, Retryability, failure, typed_failure,
}

pub record IsAbout (id : String) (f : TypedFailure) : Type 0 where
  pub classified : (r : Retryability) × (f.retryability ≡ some r)
  pub of_invocation : f.context.operation_invocation_id ≡ id

-- A failure that a check gives is about the invocation.
pub record MayFail (id : String) (o : Option TypedFailure) : Type 0 where
  pub about : (f : TypedFailure) → o ≡ some f → IsAbout id f

some-injective : {f g : TypedFailure} → some f ≡ some g → f ≡ g
some-injective h = cc

none-not-some : {f : TypedFailure} → none ≡ some f → ⊥
none-not-some h = cc

pub no_failure : (id : String) → MayFail id none
no_failure id = record { about = λ f h. elim (none-not-some h) [ ] }

pub one_failure : {id : String} (f : TypedFailure) → IsAbout id f → MayFail id (some f)
one_failure {id} f h = record { about = λ g same. subst (IsAbout id) (some-injective same) h }

pub failure-IsAbout :
    (code : FailureCode) (message : String) (context : FailureContext) (safe : Dict String)
    → IsAbout context.operation_invocation_id (failure code message context safe)
unfolding failure typed_failure
failure-IsAbout code message context safe = record { classified = (_, refl); of_invocation = refl }

-- a check before other ones
pub if-MayFail :
    {id : String} (b : Bool) (o rest : Option TypedFailure)
    → MayFail id o
    → MayFail id rest
    → MayFail id (if b then o else rest)
if-MayFail true o rest h k = h
if-MayFail false o rest h k = k
