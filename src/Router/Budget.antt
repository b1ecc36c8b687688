-- ===== src/Router/Budget.antt =====
-- router.py: candidate budgets, suppression, and whether another candidate may be tried.
pub mod Bounds
use llm_endpoint.Prelude.{
  ℕ, ◌+◌, String, Bool, true, false, none, some, [], ◌&&◌, not, ltb, value_or, length, get_elem?,
  if◌then◌else◌, ◌==◌,
}
use llm_endpoint.Prelude.Int.{ℤ, pos, ◌-ℤ◌, leb_ℤ, max_ℤ, min_ℤ}
use llm_endpoint.Prelude.Dict.{lookup, has_key, update}
use llm_endpoint.Prelude.Outcome.{Result, ok, raise, Error, ◌>>=◌}
use llm_endpoint.Values.{Value, int, bool}
use llm_endpoint.Results.{TypedFailure, is_retryable}
use llm_endpoint.Config.{RetryClass, retry_class_value}
use llm_endpoint.Policy.{budget_number}
use llm_endpoint.Invocation.{InvocationPlan}
use llm_endpoint.Router.State.{Setup}

module _ {W : Type 0} where
  -- `_should_skip_suppressed`
  unfoldable pub should_skip_suppressed : Setup W → String → ℕ → Bool
  unfolding lookup
  should_skip_suppressed s uid index =
      if not (has_key uid s.suppressed)
      then false
      else ltb (index + 1) (length s.plan.endpoint_uids)

  -- `_budget_for_uid`; the overrides are `dict(… or ())`.
  unfoldable pub budget_for_uid : InvocationPlan W → String → Result ℤ
  unfolding lookup update budget_number
  budget_for_uid plan uid =
      elim (lookup uid
        (update [] (value_or plan.effective_config.candidate_budget_overrides_ms []))) [
          | none ↦ ok plan.effective_config.candidate_budget_ms
          | some budget ↦ budget_number budget
        ]

  unfoldable pub budget_at : InvocationPlan W → ℕ → Result ℤ
  unfolding budget_for_uid
  budget_at plan index = elim (get_elem? plan.endpoint_uids index) [
    | none ↦ raise (Error.index_error "tuple index out of range")
    | some uid ↦ budget_for_uid plan uid
  ]

  reserve : InvocationPlan W → ℕ → Result ℤ
  unfolding budget_at
  reserve plan index =
      if ltb (index + 1) (length plan.endpoint_uids) && plan.effective_config.protect_last_eligible
      then budget_at plan (index + 1)
      else ok (pos 0)

  -- `_candidate_budget`
  unfoldable pub candidate_budget : InvocationPlan W → ℕ → ℤ → Result ℤ
  unfolding budget_at reserve
  candidate_budget plan index remaining = do
    budget ← budget_at plan index
    reserved ← reserve plan index
    ok (min_ℤ budget (max_ℤ (pos 1) (remaining -ℤ reserved)))

  -- `_is_failover_retryable`
  unfoldable pub is_failover_retryable : InvocationPlan W → TypedFailure → Bool
  unfolding is_retryable retry_class_value
  is_failover_retryable plan f =
      is_retryable f
      && plan.effective_config.retry_class
        == retry_class_value RetryClass.retryable_availability_only

  -- `_has_failover_candidate`
  unfoldable pub has_failover_candidate : InvocationPlan W → ℕ → ℕ → Bool
  has_failover_candidate plan attempted index =
      if leb_ℤ plan.effective_config.max_attempts (pos attempted)
      then false
      else ltb (index + 1) (length plan.endpoint_uids)
