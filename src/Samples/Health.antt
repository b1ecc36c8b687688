-- ===== src/Samples/Health.antt =====
-- The health of the sample role.
use llm_endpoint.Prelude.{◌≡◌, ◌≢◌, ◌↔◌, refl, [], ◌∷◌, All}
use llm_endpoint.Prelude.Dict.{lookup}
use llm_endpoint.Prelude.Outcome.{ok}
use llm_endpoint.RoleHealth.{
  RoleHealthState, EndpointHealth, HealthInputs, endpoint_health, role_state,
}
use llm_endpoint.RoleHealth.Available.{
  IsBlameless, IsAvailable, endpoint_health-IsBlameless, role_state-available,
}
use llm_endpoint.RoleHealth.Degraded.{role_state-degraded}
use llm_endpoint.Samples.Configs.{registry_at}

-- the secret is missing, and the first endpoint is suppressed
abbrev inputs : HealthInputs
inputs = record {
  adapters = "fake" ∷ [];
  suppressed_endpoint_reasons = ("a", "rollout_disabled") ∷ [];
  missing_secret_refs = "secret/fake" ∷ [];
  failing_smoke_endpoint_uids = [];
  uncertified_endpoint_uids = [];
}

abbrev ill : EndpointHealth
ill = record {
  endpoint_uid = "a";
  state = RoleHealthState.missing_secret;
  reasons = "missing_secret" ∷ "suppressed:rollout_disabled" ∷ [];
}

abbrev well : EndpointHealth
well = record { endpoint_uid = "b"; state = RoleHealthState.available; reasons = [] }

found : endpoint_health (registry_at "1") inputs "a" ≡ ok ill
unfolding endpoint_health lookup
found = refl

endpoint_health-IsBlameless_example : IsBlameless ill.state ill.reasons
endpoint_health-IsBlameless_example =
    endpoint_health-IsBlameless (registry_at "1") inputs "a" ill found

-- one of two endpoints is available, and it is the last
last_of_two : role_state (ill ∷ well ∷ []) ≡ RoleHealthState.fallback_only
unfolding role_state
last_of_two = refl

role_state-available_example :
    (role_state (ill ∷ well ∷ []) ≡ RoleHealthState.available)
    ↔ (((ill ∷ well ∷ []) ≢ []) × All IsAvailable (ill ∷ well ∷ []))
role_state-available_example = role_state-available (ill ∷ well ∷ [])

ill_not_available : All IsAvailable (ill ∷ []) → ⊥
ill_not_available (h, _) = cc

-- one of two endpoints is available, and it is the first
role_state-degraded_example : role_state (well ∷ ill ∷ []) ≡ RoleHealthState.degraded
role_state-degraded_example = role_state-degraded well (ill ∷ []) refl ill_not_available
