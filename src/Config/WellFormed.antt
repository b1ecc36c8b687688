-- ===== src/Config/WellFormed.antt =====
-- What a configuration must be, said of its data and not of a validation's errors.
pub mod Silence
use llm_endpoint.Prelude.{
  ◌≡◌, String, Bool, true, false, Option, none, some, List, [], ◌∷◌, map, contains, All, ◌≢◌,
}
use llm_endpoint.Prelude.Int.{ℤ, pos, ◌≤ℤ◌}
use llm_endpoint.Prelude.Text.{truthy}
use llm_endpoint.Prelude.Dict.{Dict}
use llm_endpoint.Values.{Value, int}
use llm_endpoint.Config.{
  LlmEndpointConfig, EndpointConfig, RoleConfig, OperationConfig, OperationRuntimePolicy,
  ProviderFormat, member,
}
use llm_endpoint.Capabilities.{CapabilityCatalog, CapabilityProfile, get}
use llm_endpoint.Config.Validation.{endpoint_uids, policy_refs}
use llm_endpoint.Config.Validation.Endpoints.{provider_format_of}

-- Each name is not empty, and differs from those before it and from those seen.
abbrev pub Named : List String → List String → Type 0
Named seen [] = Unit
Named seen (n ∷ ns) = ((truthy n ≡ true) × (contains n seen ≡ false)) × Named (n ∷ seen) ns

-- A value that is set is positive.
abbrev pub IsPositive : Option ℤ → Type 0
IsPositive none = Unit
IsPositive (some n) = pos 1 ≤ℤ n

-- The format is known, the catalog has a profile, a credential is named, and no capability's reference is empty.
abbrev pub IsEndpoint : CapabilityCatalog → EndpointConfig → Type 0
IsEndpoint catalog e =
    ((f : ProviderFormat) × (provider_format_of e.provider_format ≡ some f)
      × ((p : CapabilityProfile) × (get catalog (member f) e.model_family ≡ some p)))
    × ((truthy e.credential_ref ≡ true) × All (λ ref. truthy ref ≡ true) e.capability_refs)

-- Members of a pool are known endpoints, each once.
abbrev pub AreMembers : List String → List String → List String → Type 0
AreMembers uids seen [] = Unit
AreMembers uids seen (uid ∷ members) =
    (contains uid seen ≡ false)
    × ((contains uid uids ≡ true) × AreMembers uids (uid ∷ seen) members)

-- Either one known endpoint, or a pool with members.
abbrev pub IsTarget : List String → Option String → Option (List String) → Type 0
IsTarget uids (some uid) none = contains uid uids ≡ true
IsTarget uids none (some (uid ∷ members)) = AreMembers uids [] (uid ∷ members)
IsTarget uids _ _ = ⊥

-- A budget of one endpoint is a positive integer, and not above a deadline that is positive.
abbrev pub IsOverride : ℤ → Value → Type 0
IsOverride deadline (int n) = (pos 1 ≤ℤ n) × (pos 1 ≤ℤ deadline → n ≤ℤ deadline)
IsOverride deadline _ = ⊥

abbrev pub AreOverrides : ℤ → Option (Dict Value) → Type 0
AreOverrides deadline none = Unit
AreOverrides deadline (some d) = All (λ (entry : String × Value). IsOverride deadline entry.1) d

-- Deadline, tokens, budgets and attempts are positive.
abbrev pub IsPolicy : OperationRuntimePolicy → Type 0
IsPolicy p =
    (pos 1 ≤ℤ p.deadline_ms)
    × ((pos 1 ≤ℤ p.max_output_tokens)
        × (IsPositive p.candidate_budget_ms
            × (AreOverrides p.deadline_ms p.candidate_budget_overrides_ms
                × (pos 1 ≤ℤ p.retry_policy.max_attempts))))

-- The policy is known, and a schema's reference is not empty.
abbrev pub IsOperation : List String → OperationConfig → Type 0
IsOperation refs op = (contains op.policy_ref refs ≡ true) × (op.schema_contract_ref ≢ some "")

pub record IsWellFormed (catalog : CapabilityCatalog) (c : LlmEndpointConfig) : Type 0 where
  pub version : c.config_schema_version ≡ "v1"
  pub any_endpoint : c.endpoints ≢ []
  pub endpoints_named : Named [] (map (λ (e : EndpointConfig). e.uid) c.endpoints)
  pub endpoints : All (IsEndpoint catalog) c.endpoints
  pub roles_named : Named [] (map (λ (r : RoleConfig). r.name) c.roles)
  pub roles : All (λ (r : RoleConfig). IsTarget (endpoint_uids c) r.endpoint_uid r.pool) c.roles
  pub policies_named : Named [] (map (λ (p : OperationRuntimePolicy). p.ref) c.policies)
  pub policies : All IsPolicy c.policies
  pub operations_named : Named [] (map (λ (op : OperationConfig). op.ref) c.operations)
  pub operations : All (IsOperation (policy_refs c)) c.operations
