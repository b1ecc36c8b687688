-- ===== src/Policy/Effective.antt =====
-- policy.py: the effective configuration of an operation, its provenance and its fingerprint.
use llm_endpoint.Prelude.{
  String, Option, none, some, List, [], ◌∷◌, map, value_or, is_some, if◌then◌else◌,
}
use llm_endpoint.Prelude.Dict.{Dict}
use llm_endpoint.Prelude.Sort.{sort_by}
use llm_endpoint.Values.{Value, bool, int, str, tuple}
use llm_endpoint.Platform.{Platform}
use llm_endpoint.Config.{
  OperationRuntimePolicy, reasoning_mode_value, output_mode_value, retry_class_value,
}
use llm_endpoint.Config.Identity.{dict_value, tuple_of, option_value}
use llm_endpoint.Policy.{
  CallerPolicyOverrides, EffectiveRuntimeConfig, PolicyField, policy_field_value, PolicySource,
  policy_source_value,
}

-- `CallerPolicyOverrides()`
abbrev pub no_overrides : CallerPolicyOverrides
no_overrides = record {
  deadline_ms = none;
  max_output_tokens = none;
  reasoning_mode = none;
  candidate_budget_ms = none;
}

-- the budgets of single endpoints, in the order of their uids, or None if there are none
sorted_overrides : Option (Dict Value) → Option (Dict Value)
unfolding sort_by
sorted_overrides none = none
sorted_overrides (some []) = none
sorted_overrides (some (entry ∷ entries)) =
    some (sort_by (λ (e : String × Value). e.0) (entry ∷ entries))

-- `_effective_config`
unfoldable pub effective_config :
    OperationRuntimePolicy → CallerPolicyOverrides → EffectiveRuntimeConfig
unfolding sorted_overrides retry_class_value
effective_config policy overrides =
    let deadline = value_or overrides.deadline_ms policy.deadline_ms in
    record {
      deadline_ms = deadline;
      max_output_tokens = value_or overrides.max_output_tokens policy.max_output_tokens;
      reasoning_mode = value_or overrides.reasoning_mode policy.reasoning_mode;
      candidate_budget_ms =
          value_or overrides.candidate_budget_ms (value_or policy.candidate_budget_ms deadline);
      candidate_budget_overrides_ms = sorted_overrides policy.candidate_budget_overrides_ms;
      protect_last_eligible = policy.protect_last_eligible;
      structured_output_mode = policy.structured_output_mode;
      retry_class = retry_class_value policy.retry_policy.retry_class;
      max_attempts = policy.retry_policy.max_attempts;
    }

-- the source of a value that a caller may set
overridable : {A : Type 0} → Option A → PolicySource
overridable o = if is_some o then PolicySource.caller_override else PolicySource.policy

-- `_provenance`
unfoldable pub provenance : OperationRuntimePolicy → CallerPolicyOverrides → Dict PolicySource
unfolding overridable policy_field_value
provenance policy overrides =
    let budget =
      if is_some overrides.candidate_budget_ms
      then PolicySource.caller_override
      else (if is_some policy.candidate_budget_ms
          then PolicySource.policy
          else PolicySource.derived) in
    let budgets =
      if is_some policy.candidate_budget_overrides_ms
      then PolicySource.policy
      else PolicySource.not_set in
    (policy_field_value PolicyField.deadline_ms, overridable overrides.deadline_ms)
    ∷ (policy_field_value PolicyField.max_output_tokens, overridable overrides.max_output_tokens)
    ∷ (policy_field_value PolicyField.reasoning_mode, overridable overrides.reasoning_mode)
    ∷ (policy_field_value PolicyField.candidate_budget_ms, budget)
    ∷ (policy_field_value PolicyField.candidate_budget_overrides_ms, budgets)
    ∷ (policy_field_value PolicyField.protect_last_eligible, PolicySource.policy)
    ∷ (policy_field_value PolicyField.structured_output_mode, PolicySource.policy)
    ∷ (policy_field_value PolicyField.retry_class, PolicySource.policy)
    ∷ (policy_field_value PolicyField.max_attempts, PolicySource.policy)
    ∷ []

-- `asdict(effective_config)`
effective_value : EffectiveRuntimeConfig → Value
unfolding reasoning_mode_value output_mode_value
effective_value e = dict_value (
    ("deadline_ms", int e.deadline_ms)
    ∷ ("max_output_tokens", int e.max_output_tokens)
    ∷ ("reasoning_mode", str (reasoning_mode_value e.reasoning_mode))
    ∷ ("candidate_budget_ms", int e.candidate_budget_ms)
    ∷ (
      "candidate_budget_overrides_ms",
      option_value
          (λ (d : Dict Value). tuple (
            tuple_of
              (map (λ (entry : String × Value). tuple (tuple_of (str entry.0 ∷ entry.1 ∷ []))) d)))
          e.candidate_budget_overrides_ms,
    )
    ∷ ("protect_last_eligible", bool e.protect_last_eligible)
    ∷ ("structured_output_mode", str (output_mode_value e.structured_output_mode))
    ∷ ("retry_class", str e.retry_class)
    ∷ ("max_attempts", int e.max_attempts)
    ∷ [])

unfoldable pub policy_fingerprint :
    Platform
    → EffectiveRuntimeConfig
    → Dict PolicySource
    → String
    → String
    → String
    → List String
    → String
unfolding effective_value policy_source_value sort_by
policy_fingerprint platform effective sources identity role operation_ref uids = platform.digest (
    dict_value (
      ("config_identity", str identity)
      ∷ ("effective_config", effective_value effective)
      ∷ ("endpoint_uids", tuple (tuple_of (map str uids)))
      ∷ ("operation_ref", str operation_ref)
      ∷ (
        "provenance",
        dict_value (
            map (λ (s : String × PolicySource). (s.0, str (policy_source_value s.1)))
              (sort_by (λ (s : String × PolicySource). s.0) sources)),
      )
      ∷ ("role", str role)
      ∷ []))
