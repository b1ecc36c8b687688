-- ===== src/Config/Building/Built.antt =====
-- What a built registry is, and what its roles and operations resolve to.
use Prim.Native.String.{◌++◌ as ◌+++◌}
use llm_endpoint.Prelude.{
  ◌≡◌, ◌≢◌, refl, sym, ◌∙◌, subst, inl, inr, String, true, Option, none, some, List, [], ◌∷◌,
  value_or, contains, All, Bool-cases,
}
use llm_endpoint.Prelude.Dict.{lookup}
use llm_endpoint.Prelude.Outcome.{ok, raise, Error, ok-injective}
use llm_endpoint.Platform.{Platform}
use llm_endpoint.Config.{
  LlmEndpointConfig, EndpointConfig, RoleConfig, OperationConfig, OperationRuntimePolicy,
  ResolvedRole, Registry,
}
use llm_endpoint.Capabilities.{CapabilityCatalog, default_catalog}
use llm_endpoint.Config.Errors.{ConfigValidationReport}
use llm_endpoint.Config.Identity.{config_identity}
use llm_endpoint.Config.Validation.{validate_config, endpoint_uids, policy_refs}
use llm_endpoint.Config.Validation.Decides.{validate_config-IsWellFormed, validate_config-identity}
use llm_endpoint.Config.WellFormed.{
  IsWellFormed, IsEndpoint, AreMembers, IsTarget, IsPolicy, IsOperation,
}
use llm_endpoint.Config.Building.{
  role_endpoints, resolve_role, resolve_operation_policy, registry_of, from_report, invalid_config,
  build_registry,
}
use llm_endpoint.Config.Building.Index.{index_by-Holds, index_by-Finds, empty-Holds, empty-Finds}

from_report-ok :
    (c : LlmEndpointConfig) (report : ConfigValidationReport) (identity : String)
    → report.ok ≡ true
    → report.config_identity ≡ some identity
    → from_report c report ≡ ok (registry_of c identity)
unfolding from_report
from_report-ok c report identity valid named = rw (valid, named) refl

ok_from-from_report :
    (c : LlmEndpointConfig) (report : ConfigValidationReport) (r : Registry)
    → from_report c report ≡ ok r
    → report.ok ≡ true
unfolding from_report invalid_config
ok_from-from_report c report r built = elim (Bool-cases report.ok) [
  | inl valid ↦ valid
  | inr wrong ↦ cc (rw wrong at built)
]

module _ (platform : Platform) (c : LlmEndpointConfig) (catalog : Option CapabilityCatalog) where
  pub build_registry-ok :
      IsWellFormed (value_or catalog default_catalog) c
      → build_registry platform c catalog ≡ ok (registry_of c (config_identity platform c))
  unfolding build_registry
  build_registry-ok w =
      let valid = (validate_config-IsWellFormed platform c catalog).1 w in
      from_report-ok c (validate_config platform c catalog) (config_identity platform c) valid
        (validate_config-identity platform c catalog valid)

  pub built-IsWellFormed :
      (r : Registry)
      → build_registry platform c catalog ≡ ok r
      → IsWellFormed (value_or catalog default_catalog) c
  unfolding build_registry
  built-IsWellFormed r built =
      (validate_config-IsWellFormed platform c catalog).0
        (ok_from-from_report c (validate_config platform c catalog) r built)

  pub built_eq :
      (r : Registry)
      → build_registry platform c catalog ≡ ok r
      → registry_of c (config_identity platform c) ≡ r
  built_eq r built = ok-injective (sym (build_registry-ok (built-IsWellFormed r built)) ∙ built)

resolve_role-found :
    (r : Registry) (role_name : String) (role : RoleConfig) (uids : List String)
    → lookup role_name r.roles_by_name ≡ some role
    → role_endpoints role ≡ some uids
    → resolve_role r role_name
      ≡ ok (record { name = role.name; endpoint_uids = uids; config_identity = r.config_identity })
unfolding resolve_role
resolve_role-found r role_name role uids found at_uids = rw (found, at_uids, resolve_role) refl

resolve_operation_policy-found :
    (r : Registry) (ref : String) (op : OperationConfig) (p : OperationRuntimePolicy)
    → lookup ref r.operations_by_ref ≡ some op
    → lookup op.policy_ref r.policies_by_ref ≡ some p
    → resolve_operation_policy r ref ≡ ok p
unfolding resolve_operation_policy
resolve_operation_policy-found r ref op p found at_policy =
    rw (found, at_policy, resolve_operation_policy) refl

-- An endpoint of a resolved role, which the registry has under its name.
abbrev pub IsListed : Registry → String → Type 0
IsListed r uid = (e : EndpointConfig) × ((lookup uid r.endpoints_by_uid ≡ some e) × (e.uid ≡ uid))

-- A registry is closed: it resolves every role that it has, to endpoints that it has, and at least one; and every
-- operation that it has, to a policy with positive numbers.
pub record IsClosed (r : Registry) : Type 0 where
  pub roles :
      (role_name : String) (role : RoleConfig)
      → lookup role_name r.roles_by_name ≡ some role
      → (resolved : ResolvedRole) × ((resolve_role r role_name ≡ ok resolved)
          × ((resolved.name ≡ role_name)
              × ((resolved.endpoint_uids ≢ []) × All (IsListed r) resolved.endpoint_uids)))
  pub operations :
      (ref : String) (op : OperationConfig)
      → lookup ref r.operations_by_ref ≡ some op
      → (p : OperationRuntimePolicy) × ((resolve_operation_policy r ref ≡ ok p)
          × ((p.ref ≡ op.policy_ref) × IsPolicy p))

module _ (catalog : CapabilityCatalog) (c : LlmEndpointConfig) (identity : String)
    (w : IsWellFormed catalog c) where
  uid-IsListed :
      (uid : String) → contains uid (endpoint_uids c) ≡ true → IsListed (registry_of c identity) uid
  unfolding registry_of
  uid-IsListed uid h =
      let (e, found) =
        index_by-Finds (λ (e : EndpointConfig). e.uid) c.endpoints [] [] uid
          (empty-Finds (λ (e : EndpointConfig). e.uid) uid) h in
      (
        e,
        (
          found,
          (index_by-Holds (λ (e : EndpointConfig). e.uid) (IsEndpoint catalog) c.endpoints []
              w.endpoints (empty-Holds (λ (e : EndpointConfig). e.uid) (IsEndpoint catalog)) uid e
              found).1,
        ),
      )

  members-IsListed :
      (seen members : List String)
      → AreMembers (endpoint_uids c) seen members
      → All (IsListed (registry_of c identity)) members
  members-IsListed seen [] h = tt
  members-IsListed seen (uid ∷ members) (fresh, (known, rest)) =
      (uid-IsListed uid known, members-IsListed (uid ∷ seen) members rest)

  role_endpoints-IsListed :
      (name : String) (uid : Option String) (pool : Option (List String))
      → IsTarget (endpoint_uids c) uid pool
      → (uids : List String) × ((role_endpoints
              (record { name = name; endpoint_uid = uid; pool = pool })
            ≡ some uids)
          × ((uids ≢ []) × All (IsListed (registry_of c identity)) uids))
  unfolding role_endpoints
  role_endpoints-IsListed name (some uid) none h =
      (uid ∷ [], (refl, (λ k. cc, (uid-IsListed uid h, tt))))
  role_endpoints-IsListed name none (some (uid ∷ members)) h =
      (uid ∷ members, (refl, (λ k. cc, members-IsListed [] (uid ∷ members) h)))
  role_endpoints-IsListed name none none h = elim h [ ]
  role_endpoints-IsListed name none (some []) h = elim h [ ]
  role_endpoints-IsListed name (some uid) (some pool) h = elim h [ ]

  pub registry_of-IsClosed : IsClosed (registry_of c identity)
  unfolding registry_of
  registry_of-IsClosed = record {
    roles = λ role_name role found.
        let (target, same) =
          index_by-Holds (λ (r : RoleConfig). r.name)
            (λ (r : RoleConfig). IsTarget (endpoint_uids c) r.endpoint_uid r.pool) c.roles []
            w.roles
            (empty-Holds (λ (r : RoleConfig). r.name)
              (λ (r : RoleConfig). IsTarget (endpoint_uids c) r.endpoint_uid r.pool))
            role_name role found in
        let (uids, (at_uids, (some_uid, all))) =
          role_endpoints-IsListed role.name role.endpoint_uid role.pool target in
        (
          record { name = role.name; endpoint_uids = uids; config_identity = identity },
          (
            resolve_role-found (registry_of c identity) role_name role uids found at_uids,
            (same, (some_uid, all)),
          ),
        );
    operations = λ ref op found.
        let ((known, named), same) =
          index_by-Holds (λ (op : OperationConfig). op.ref) (IsOperation (policy_refs c))
            c.operations [] w.operations
            (empty-Holds (λ (op : OperationConfig). op.ref) (IsOperation (policy_refs c))) ref op
            found in
        let (p, at_policy) =
          index_by-Finds (λ (p : OperationRuntimePolicy). p.ref) c.policies [] [] op.policy_ref
            (empty-Finds (λ (p : OperationRuntimePolicy). p.ref) op.policy_ref) known in
        let (positive, at_ref) =
          index_by-Holds (λ (p : OperationRuntimePolicy). p.ref) IsPolicy c.policies [] w.policies
            (empty-Holds (λ (p : OperationRuntimePolicy). p.ref) IsPolicy) op.policy_ref p
            at_policy in
        (
          p,
          (
            resolve_operation_policy-found (registry_of c identity) ref op p found at_policy,
            (at_ref, positive),
          ),
        );
  }

-- A registry that is built is closed.
pub build_registry-IsClosed :
    (platform : Platform) (c : LlmEndpointConfig) (catalog : Option CapabilityCatalog)
    (r : Registry)
    → build_registry platform c catalog ≡ ok r
    → IsClosed r
build_registry-IsClosed platform c catalog r built =
    subst IsClosed (built_eq platform c catalog r built) (
      registry_of-IsClosed (value_or catalog default_catalog) c (config_identity platform c)
        (built-IsWellFormed platform c catalog r built))

-- What a registry does not have raises a KeyError.
pub resolve_role-missing :
    (r : Registry) (role_name : String)
    → lookup role_name r.roles_by_name ≡ none
    → resolve_role r role_name ≡ raise (Error.key_error ("unknown role: " +++ role_name))
unfolding resolve_role
resolve_role-missing r role_name missing = rw (missing, resolve_role) refl

pub resolve_operation_policy-missing :
    (r : Registry) (ref : String)
    → lookup ref r.operations_by_ref ≡ none
    → resolve_operation_policy r ref ≡ raise (Error.key_error ("unknown operation: " +++ ref))
unfolding resolve_operation_policy
resolve_operation_policy-missing r ref missing = rw (missing, resolve_operation_policy) refl
