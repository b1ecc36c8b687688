-- ===== src/Config/Validation/Decides.antt =====
-- Validation decides whether a configuration is well-formed.
use llm_endpoint.Prelude.{
  ◌≡◌, ◌≢◌, refl, ◌↔◌, String, true, false, Option, some, List, [], ◌∷◌, is_empty, value_or, ◌==◌,
  eq_iff,
}
use llm_endpoint.Platform.{Platform}
use llm_endpoint.Config.{LlmEndpointConfig, EndpointConfig}
use llm_endpoint.Capabilities.{CapabilityCatalog, default_catalog}
use llm_endpoint.Config.Errors.{ConfigValidationError}
use llm_endpoint.Config.Identity.{config_identity}
use llm_endpoint.Config.Validation.{
  endpoint_uids, policy_refs, shape_errors, config_errors, report_of, validate_config,
}
use llm_endpoint.Config.Validation.Endpoints.Silent.{endpoints_errors-nil}
use llm_endpoint.Config.Validation.Roles.Silent.{roles_errors-nil}
use llm_endpoint.Config.Validation.Policies.Silent.{policies_errors-nil}
use llm_endpoint.Config.Validation.Operations.Silent.{operations_errors-nil}
use llm_endpoint.Config.WellFormed.{IsWellFormed}
use llm_endpoint.Config.WellFormed.Silence.{error_if-nil, error_unless-nil, both, reorder}

is_empty_iff : (es : List EndpointConfig) → (is_empty es ≡ false) ↔ (es ≢ [])
is_empty_iff [] = (λ h. cc, λ h. elim (h refl) [ ])
is_empty_iff (e ∷ es) = (λ h k. cc, λ h. refl)

shape_errors-nil :
    (c : LlmEndpointConfig)
    → (shape_errors c ≡ []) ↔ ((c.config_schema_version ≡ "v1") × (c.endpoints ≢ []))
unfolding shape_errors
shape_errors-nil c =
    both
      (reorder (error_unless-nil (c.config_schema_version == "v1") _ _ _)
        (eq_iff c.config_schema_version "v1"))
      (reorder (error_if-nil (is_empty c.endpoints) _ _ _) (is_empty_iff c.endpoints))

module _ (platform : Platform) where
  config_errors-nil :
      (catalog : CapabilityCatalog) (c : LlmEndpointConfig)
      → (config_errors platform catalog c ≡ []) ↔ IsWellFormed catalog c
  unfolding config_errors
  config_errors-nil catalog c =
      reorder
        (both (shape_errors-nil c) (
          both (endpoints_errors-nil catalog 0 [] c.endpoints) (
            both (roles_errors-nil (endpoint_uids c) 0 [] c.roles) (
              both (policies_errors-nil platform 0 [] c.policies)
                (operations_errors-nil (policy_refs c) 0 [] c.operations)))))
        (
          λ ((version, any), ((en, e), ((rn, r), ((pn, p), (on, o))))). record {
            version = version;
            any_endpoint = any;
            endpoints_named = en;
            endpoints = e;
            roles_named = rn;
            roles = r;
            policies_named = pn;
            policies = p;
            operations_named = on;
            operations = o;
          },
          λ w. (
            (w.version, w.any_endpoint),
            (
              (w.endpoints_named, w.endpoints),
              (
                (w.roles_named, w.roles),
                ((w.policies_named, w.policies), (w.operations_named, w.operations)),
              ),
            ),
          ),
        )

  report_of-ok :
      (identity : String) (es : List ConfigValidationError)
      → ((report_of platform identity es).ok ≡ true) ↔ (es ≡ [])
  unfolding report_of
  report_of-ok identity [] = (λ h. refl, λ h. refl)
  report_of-ok identity (e ∷ es) = (λ h. cc, λ h. cc)

  -- A configuration's report is ok exactly if the configuration is well-formed for the catalog that is given, or
  -- for the default one: version "v1", endpoints with distinct names, known formats and profiles, and credentials;
  -- roles with known endpoints; policies with positive numbers, whose single budgets are integers within the
  -- deadline; operations with known policies.
  pub validate_config-IsWellFormed :
      (c : LlmEndpointConfig) (catalog : Option CapabilityCatalog)
      → ((validate_config platform c catalog).ok ≡ true)
        ↔ IsWellFormed (value_or catalog default_catalog) c
  unfolding validate_config
  validate_config-IsWellFormed c catalog =
      let silent = config_errors-nil (value_or catalog default_catalog) c in
      let decided =
        report_of-ok (config_identity platform c)
          (config_errors platform (value_or catalog default_catalog) c) in
      (λ h. silent.0 (decided.0 h), λ w. decided.1 (silent.1 w))

  report_of-identity :
      (identity : String) (es : List ConfigValidationError)
      → (report_of platform identity es).ok ≡ true
      → (report_of platform identity es).config_identity ≡ some identity
  unfolding report_of
  report_of-identity identity [] h = refl
  report_of-identity identity (e ∷ es) h = cc

  pub validate_config-identity :
      (c : LlmEndpointConfig) (catalog : Option CapabilityCatalog)
      → (validate_config platform c catalog).ok ≡ true
      → (validate_config platform c catalog).config_identity ≡ some (config_identity platform c)
  unfolding validate_config
  validate_config-identity c catalog h =
      report_of-identity (config_identity platform c)
        (config_errors platform (value_or catalog default_catalog) c) h
