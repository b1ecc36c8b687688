-- ===== src/Samples/Configs.antt =====
-- A configuration, its registry and its life cycle, and a policy's resolution on it.
use Prim.Native.String.{◌++◌ as ◌+++◌}
use llm_endpoint.Prelude.{
  ◌≡◌, ◌≢◌, refl, ◌↔◌, String, true, Option, none, some, [], ◌∷◌, eq_iff, arith,
}
use llm_endpoint.Prelude.Int.{pos}
use llm_endpoint.Prelude.Dict.{lookup}
use llm_endpoint.Prelude.Outcome.{ok}
use llm_endpoint.Values.{Value, str, mapping, fields}
use llm_endpoint.Platform.{Platform}
use llm_endpoint.Config.{
  EndpointConfig, RoleConfig, OperationConfig, OperationRuntimePolicy, LlmEndpointConfig, Registry,
  ProviderFormat, member, ReasoningMode, StructuredOutputMode, RetryClass,
}
use llm_endpoint.Capabilities.{default_catalog}
use llm_endpoint.Config.Validation.{validate_config}
use llm_endpoint.Config.Validation.Decides.{validate_config-IsWellFormed}
use llm_endpoint.Config.WellFormed.{IsWellFormed}
use llm_endpoint.Config.Building.{build_registry}
use llm_endpoint.Config.Building.Built.{IsClosed, build_registry-IsClosed}
use llm_endpoint.Config.Lifecycle.{
  RegistryLifecycle, lifecycle, activated, replace_active, rollback_to_identity,
}
use llm_endpoint.Config.Lifecycle.Replaced.{
  IsReplacement, replace_active-IsReplacement, found_result, rollback-activate,
}
use llm_endpoint.Config.Lifecycle.Reached.{here, next, activation, rollback, IsSound, Reach-IsSound}

-- the text of an entry
abbrev text_at : String → Option Value → String
text_at otherwise (some (str s)) = s
text_at otherwise _ = otherwise

-- a digest that tells configurations apart by the revision in their metadata
abbrev revision_digest : Value → String
revision_digest (mapping fs) = elim (lookup "metadata" (fields fs)) [
  | some (mapping ms) ↦ "sha256:" +++ text_at "none" (lookup "revision" (fields ms))
  | _ ↦ "sha256:policy"
]
revision_digest _ = "sha256:other"

abbrev pub platform : Platform
platform = record { digest = revision_digest; text_repr = λ s. "'" +++ (s +++ "'") }

abbrev pub fake_endpoint : String → EndpointConfig
fake_endpoint uid = record {
  uid = uid;
  provider_format = member ProviderFormat.fake;
  model_family = "fake-family";
  model = "fake-1";
  credential_ref = "secret/fake";
  capability_refs = [];
  endpoint_url = none;
  deployment = none;
  metadata = [];
}

abbrev pub writer : RoleConfig
writer = record { name = "writer"; endpoint_uid = none; pool = some ("a" ∷ "b" ∷ []) }

abbrev pub summary : OperationConfig
summary = record { ref = "summary"; policy_ref = "standard"; schema_contract_ref = none }

abbrev pub standard : OperationRuntimePolicy
standard = record {
  ref = "standard";
  deadline_ms = pos 1000;
  max_output_tokens = pos 100;
  reasoning_mode = ReasoningMode.disabled;
  candidate_budget_ms = some (pos 400);
  candidate_budget_overrides_ms = none;
  protect_last_eligible = true;
  structured_output_mode = StructuredOutputMode.none;
  allow_caller_overrides = true;
  retry_policy = record {
    retry_class = RetryClass.retryable_availability_only;
    max_attempts = pos 2;
  };
}

abbrev pub config_of : String → LlmEndpointConfig
config_of revision = record {
  endpoints = fake_endpoint "a" ∷ fake_endpoint "b" ∷ [];
  roles = writer ∷ [];
  operations = summary ∷ [];
  policies = standard ∷ [];
  config_schema_version = "v1";
  metadata = ("revision", revision) ∷ [];
}

abbrev pub registry_at : String → Registry
registry_at revision = record {
  config = config_of revision;
  config_identity = "sha256:" +++ revision;
  endpoints_by_uid = ("a", fake_endpoint "a") ∷ ("b", fake_endpoint "b") ∷ [];
  roles_by_name = ("writer", writer) ∷ [];
  operations_by_ref = ("summary", summary) ∷ [];
  policies_by_ref = ("standard", standard) ∷ [];
}

validate_config-IsWellFormed_example :
    ((validate_config platform (config_of "1") none).ok ≡ true)
    ↔ IsWellFormed default_catalog (config_of "1")
validate_config-IsWellFormed_example = validate_config-IsWellFormed platform (config_of "1") none

validated : (validate_config platform (config_of "1") none).ok ≡ true
unfolding validate_config
validated = refl

pub built_first : build_registry platform (config_of "1") none ≡ ok (registry_at "1")
unfolding build_registry lookup
built_first = refl

built_second : build_registry platform (config_of "2") none ≡ ok (registry_at "2")
unfolding build_registry lookup
built_second = refl

build_registry-IsClosed_example : IsClosed (registry_at "1")
build_registry-IsClosed_example =
    build_registry-IsClosed platform (config_of "1") none (registry_at "1") built_first

abbrev new_lifecycle : RegistryLifecycle
new_lifecycle = lifecycle none

replace_active-IsReplacement_example :
    IsReplacement platform new_lifecycle
      (config_of "1")
      (replace_active platform new_lifecycle (config_of "1")).0
      (replace_active platform new_lifecycle (config_of "1")).1
replace_active-IsReplacement_example =
    replace_active-IsReplacement platform new_lifecycle (config_of "1")

identities_apart : (registry_at "1").config_identity ≢ (registry_at "2").config_identity
identities_apart = ground (arith, eq_iff "sha256:1" "sha256:2")

rollback-activate_example :
    rollback_to_identity
      (replace_active platform
        (replace_active platform new_lifecycle (config_of "1")).1
        (config_of "2")).1
      "sha256:1"
    ≡ (
      found_result "sha256:1" (registry_at "1"),
      record (activated (activated new_lifecycle (registry_at "1")) (registry_at "2")) {
        active_registry = some (registry_at "1");
      },
    )
rollback-activate_example =
    rollback-activate platform new_lifecycle (config_of "1") (config_of "2") (registry_at "1")
      (registry_at "2") built_first built_second identities_apart

Reach-IsSound_example :
    IsSound platform none
      (rollback_to_identity (replace_active platform new_lifecycle (config_of "1")).1 "sha256:1").1
Reach-IsSound_example =
    Reach-IsSound platform none
      (next (next here (activation (config_of "1") refl)) (rollback "sha256:1" refl))
