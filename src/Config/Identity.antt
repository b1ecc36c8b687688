-- ===== src/Config/Identity.antt =====
-- config.py: `config_identity`, the digest of the configuration as a value.
use llm_endpoint.Prelude.{String, Option, none, some, List, [], ◌∷◌, map}
use llm_endpoint.Prelude.Dict.{Dict}
use llm_endpoint.Values.{
  Value, null, bool, int, str, tuple, mapping, Items, nil, cons, Fields, end, field,
}
use llm_endpoint.Platform.{Platform}
use llm_endpoint.Config.{
  EndpointConfig, RoleConfig, OperationRuntimePolicy, OperationConfig, LlmEndpointConfig,
  reasoning_mode_value, output_mode_value, retry_class_value,
}
use llm_endpoint.Capabilities.{format_text}

abbrev pub tuple_of : List Value → Items
tuple_of [] = nil
tuple_of (v ∷ vs) = cons v (tuple_of vs)

abbrev pub fields_of : Dict Value → Fields
fields_of [] = end
fields_of ((k, v) ∷ d) = field k v (fields_of d)

-- a value or None
abbrev pub option_value {ℓ} : {A : Type ℓ} → (A → Value) → Option A → Value
option_value f none = null
option_value f (some a) = f a

abbrev pub dict_value : List (String × Value) → Value
dict_value d = mapping (fields_of d)

abbrev texts : List String → Value
texts ts = tuple (tuple_of (map str ts))

abbrev text_dict : Dict String → Value
text_dict d = dict_value (map (λ (entry : String × String). (entry.0, str entry.1)) d)

-- The results of `asdict`; a member of an enumeration is its text.
endpoint_value : EndpointConfig → Value
unfolding format_text
endpoint_value e = dict_value (
    ("uid", str e.uid)
    ∷ ("provider_format", str (format_text e.provider_format))
    ∷ ("model_family", str e.model_family)
    ∷ ("model", str e.model)
    ∷ ("credential_ref", str e.credential_ref)
    ∷ ("capability_refs", texts e.capability_refs)
    ∷ ("endpoint_url", option_value str e.endpoint_url)
    ∷ ("deployment", option_value str e.deployment)
    ∷ ("metadata", text_dict e.metadata)
    ∷ [])

role_value : RoleConfig → Value
role_value r = dict_value (
    ("name", str r.name)
    ∷ ("endpoint_uid", option_value str r.endpoint_uid)
    ∷ ("pool", option_value (λ members. dict_value (("members", texts members) ∷ [])) r.pool)
    ∷ [])

policy_value : OperationRuntimePolicy → Value
unfolding reasoning_mode_value output_mode_value retry_class_value
policy_value p = dict_value (
    ("ref", str p.ref)
    ∷ ("deadline_ms", int p.deadline_ms)
    ∷ ("max_output_tokens", int p.max_output_tokens)
    ∷ ("reasoning_mode", str (reasoning_mode_value p.reasoning_mode))
    ∷ ("candidate_budget_ms", option_value int p.candidate_budget_ms)
    ∷ ("candidate_budget_overrides_ms", option_value dict_value p.candidate_budget_overrides_ms)
    ∷ ("protect_last_eligible", bool p.protect_last_eligible)
    ∷ ("structured_output_mode", str (output_mode_value p.structured_output_mode))
    ∷ ("allow_caller_overrides", bool p.allow_caller_overrides)
    ∷ (
      "retry_policy",
      dict_value (
          ("retry_class", str (retry_class_value p.retry_policy.retry_class))
          ∷ ("max_attempts", int p.retry_policy.max_attempts)
          ∷ []),
    )
    ∷ [])

operation_value : OperationConfig → Value
operation_value op = dict_value (
    ("ref", str op.ref)
    ∷ ("policy_ref", str op.policy_ref)
    ∷ ("schema_contract_ref", option_value str op.schema_contract_ref)
    ∷ [])

-- `asdict(config)`
unfoldable pub config_value : LlmEndpointConfig → Value
unfolding endpoint_value role_value policy_value operation_value
config_value c = dict_value (
    ("endpoints", tuple (tuple_of (map endpoint_value c.endpoints)))
    ∷ ("roles", tuple (tuple_of (map role_value c.roles)))
    ∷ ("operations", tuple (tuple_of (map operation_value c.operations)))
    ∷ ("policies", tuple (tuple_of (map policy_value c.policies)))
    ∷ ("config_schema_version", str c.config_schema_version)
    ∷ ("metadata", text_dict c.metadata)
    ∷ [])

unfoldable pub config_identity : Platform → LlmEndpointConfig → String
unfolding config_value
config_identity platform c = platform.digest (config_value c)
