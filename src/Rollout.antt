-- ===== src/Rollout.antt =====
-- rollout.py: an operator's controls, applied to a plan before it is routed.
pub mod Decided
use Prim.Native.String.{◌++◌ as ◌+++◌}
use llm_endpoint.Prelude.{
  String, Bool, Option, none, some, List, [], ◌∷◌, ◌==◌, ◌||◌, not, contains, is_empty, length,
  nat_eq, if◌then◌else◌,
}
use llm_endpoint.Prelude.Text.{nat_str}
use llm_endpoint.Prelude.Dict.{Dict, lookup, insert}
use llm_endpoint.Results.{FailureCode, FailureContext, TypedFailure, failure, for_invocation}
use llm_endpoint.Invocation.{InvocationPlan}

-- A frozenset is the list of its members.
pub record RolloutControls : Type 0 where
  pub disabled_endpoint_uids : List String
  pub forced_endpoint_uid : Option String
  pub test_mode : Bool
  pub canary_roles : List String
  pub canary_operations : List String
  pub expected_policy_fingerprints : Dict String

pub record RolloutDecision (W : Type 0) : Type 0 where
  pub plan : InvocationPlan W
  pub suppressed_endpoint_reasons : Dict String
  pub canary_id : Option String
  pub policy_fingerprint_matches : Option Bool

-- `RolloutDecision | TypedFailure`
pub data RolloutAnswer (W : Type 0) : Type 0 where
  decided : RolloutDecision W → RolloutAnswer W
  stopped : TypedFailure → RolloutAnswer W

unfoldable pub policy_fingerprint_key : String → String → String
policy_fingerprint_key role operation_ref = role +++ (":" +++ operation_ref)

-- the comprehension over the candidates, with the entries made before
suppressed_from : List String → List String → Dict String → Dict String
unfolding insert
suppressed_from disabled [] d = d
suppressed_from disabled (uid ∷ uids) d =
    suppressed_from disabled uids
      (if contains uid disabled then insert uid "rollout_disabled" d else d)

unfoldable pub suppressed_endpoints : List String → List String → Dict String
unfolding suppressed_from
suppressed_endpoints disabled uids = suppressed_from disabled uids []

-- the plan that is routed: the forced endpoint is the one candidate, if there is one
abbrev pub candidates : {W : Type 0} → InvocationPlan W → Option String → InvocationPlan W
candidates plan none = plan
candidates plan (some uid) = record plan { endpoint_uids = uid ∷ [] }

module _ {W : Type 0} (plan : InvocationPlan W) where
  -- what the failures say of the plan
  plan_context : FailureContext
  plan_context = record (for_invocation plan.operation_invocation_id) {
    role = some plan.role;
    operation_ref = some plan.operation_ref;
    policy_fingerprint = some plan.policy_fingerprint;
  }

  forced_failure : Bool → Option String → Option TypedFailure
  unfolding failure plan_context
  forced_failure test_mode none = none
  forced_failure test_mode (some uid) =
      if not test_mode
      then some (
          failure FailureCode.unsupported_runtime_knob
            "forced endpoint selection is allowed only in test mode" plan_context [])
      else if not (contains uid plan.endpoint_uids)
      then some (
          failure FailureCode.no_eligible_candidate
            "forced endpoint is not in the planned candidate pool" plan_context
            (("forced_endpoint_present", "false") ∷ []))
      else none

  -- `_validate_forced_endpoint`
  unfoldable pub validate_forced_endpoint : RolloutControls → Option TypedFailure
  unfolding forced_failure
  validate_forced_endpoint controls = forced_failure controls.test_mode controls.forced_endpoint_uid

  unfoldable pub canary_id : RolloutControls → Option String
  unfolding policy_fingerprint_key
  canary_id controls =
      let role_matches =
        is_empty controls.canary_roles || contains plan.role controls.canary_roles in
      let operation_matches =
        is_empty controls.canary_operations
        || contains plan.operation_ref controls.canary_operations in
      if not role_matches || not operation_matches
      then none
      else some (policy_fingerprint_key plan.role plan.operation_ref)

  unfoldable pub policy_fingerprint_matches : RolloutControls → Option Bool
  unfolding lookup policy_fingerprint_key
  policy_fingerprint_matches controls =
      elim (lookup (policy_fingerprint_key plan.role plan.operation_ref)
        controls.expected_policy_fingerprints) [
          | none ↦ none
          | some expected ↦ some (expected == plan.policy_fingerprint)
        ]

module _ {W : Type 0} (plan : InvocationPlan W) (controls : RolloutControls) where
  -- from the candidates and those that are suppressed on
  decide : InvocationPlan W → Dict String → RolloutAnswer W
  unfolding failure plan_context nat_str canary_id policy_fingerprint_matches
  decide effective suppressed =
      if nat_eq (length suppressed) (length effective.endpoint_uids)
      then stopped (
          failure FailureCode.no_eligible_candidate
            "rollout controls disabled every candidate endpoint" (plan_context plan)
            (("disabled_endpoint_count", nat_str (length suppressed)) ∷ []))
      else decided (record {
        plan = effective;
        suppressed_endpoint_reasons = suppressed;
        canary_id = canary_id effective controls;
        policy_fingerprint_matches = policy_fingerprint_matches effective controls;
      })

  unfoldable pub apply_rollout_controls : RolloutAnswer W
  unfolding validate_forced_endpoint suppressed_endpoints decide
  apply_rollout_controls = elim (validate_forced_endpoint plan controls) [
    | some f ↦ stopped f
    | none ↦
        let effective = candidates plan controls.forced_endpoint_uid in
        decide effective
          (suppressed_endpoints controls.disabled_endpoint_uids effective.endpoint_uids)
  ]
