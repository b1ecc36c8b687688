-- ===== src/Samples/Rollouts.antt =====
-- A rollout on the sample plan.
use llm_endpoint.Prelude.{◌≡◌, refl, ℕ, true, none, some, [], ◌∷◌}
use llm_endpoint.Config.{StructuredOutputMode}
use llm_endpoint.Prelude.Dict.{lookup}
use llm_endpoint.Rollout.{RolloutControls, RolloutDecision, decided, apply_rollout_controls}
use llm_endpoint.Rollout.Decided.{IsDecision, apply_rollout_controls-IsDecision}
use llm_endpoint.Samples.{plan_of}

-- the first candidate is disabled
abbrev controls : RolloutControls
controls = record {
  disabled_endpoint_uids = "a" ∷ [];
  forced_endpoint_uid = none;
  test_mode = true;
  canary_roles = [];
  canary_operations = "summary" ∷ [];
  expected_policy_fingerprints = ("writer:summary", "sha256:policy") ∷ [];
}

abbrev decision : RolloutDecision ℕ
decision = record {
  plan = plan_of StructuredOutputMode.none;
  suppressed_endpoint_reasons = ("a", "rollout_disabled") ∷ [];
  canary_id = some "writer:summary";
  policy_fingerprint_matches = some true;
}

decides : apply_rollout_controls (plan_of StructuredOutputMode.none) controls ≡ decided decision
unfolding apply_rollout_controls lookup
decides = refl

apply_rollout_controls-IsDecision_example :
    IsDecision (plan_of StructuredOutputMode.none) controls decision
apply_rollout_controls-IsDecision_example =
    apply_rollout_controls-IsDecision (plan_of StructuredOutputMode.none) controls decision
      (refl, (refl, (refl, tt))) decides
