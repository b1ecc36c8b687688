-- ===== src/Config/Lifecycle/Replaced.antt =====
-- What a replacement of the active registry does, and what a rollback undoes.
use Prim.Native.String.{◌++◌ as ◌+++◌}
use llm_endpoint.Prelude.{
  ◌≡◌, ◌≢◌, refl, ap, ◌∙◌, inl, inr, String, true, false, none, some, value_or, Bool-cases, eq_iff,
  eq_refl, [], ◌∷◌, arith,
}
use llm_endpoint.Prelude.Dict.{lookup, lookup-insert}
use llm_endpoint.Prelude.Outcome.{Result, ok}
use llm_endpoint.Platform.{Platform}
use llm_endpoint.Config.{LlmEndpointConfig, Registry}
use llm_endpoint.Capabilities.{default_catalog}
use llm_endpoint.Config.Errors.{ConfigErrorCode, error}
use llm_endpoint.Config.Identity.{config_identity}
use llm_endpoint.Config.Validation.{validate_config}
use llm_endpoint.Config.Validation.Decides.{validate_config-IsWellFormed}
use llm_endpoint.Config.WellFormed.{IsWellFormed}
use llm_endpoint.Config.Building.{build_registry, registry_of}
use llm_endpoint.Config.Building.Built.{build_registry-ok, built-IsWellFormed}
use llm_endpoint.Config.Lifecycle.{
  ConfigActivationResult, RegistryLifecycle, active_config_identity, activated, replaced,
  replace_active, rollback_to_identity,
}

module _ (platform : Platform) (l : RegistryLifecycle) (c : LlmEndpointConfig) where
  -- the answer to a well-formed configuration, and to another
  abbrev pub accepted_result : Registry → ConfigActivationResult
  accepted_result r = record {
    ok = true;
    active_config_identity = some r.config_identity;
    attempted_config_identity = some (config_identity platform c);
    validation_report = validate_config platform c l.capability_catalog;
    registry = some r;
  }

  abbrev pub rejected_result : ConfigActivationResult
  rejected_result = record {
    ok = false;
    active_config_identity = active_config_identity l;
    attempted_config_identity = some (config_identity platform c);
    validation_report = validate_config platform c l.capability_catalog;
    registry = none;
  }

  valid_replacement :
      (r : Registry)
      → (validate_config platform c l.capability_catalog).ok ≡ true
      → build_registry platform c l.capability_catalog ≡ ok r
      → replace_active platform l c ≡ (ok (accepted_result r), activated l r)
  unfolding replace_active replaced config_identity validate_config
  valid_replacement r valid built = rw (valid, built, replace_active, replaced) refl

  invalid_replacement :
      (validate_config platform c l.capability_catalog).ok ≡ false
      → replace_active platform l c ≡ (ok rejected_result, l)
  unfolding replace_active
  invalid_replacement wrong = rw (wrong, replace_active) refl

  -- A well-formed configuration's registry becomes active and part of the history; another configuration is
  -- refused, and changes nothing.
  pub data IsReplacement (result : Result ConfigActivationResult) (after : RegistryLifecycle)
      : Type 0 where
    taken :
        (r : Registry)
        → build_registry platform c l.capability_catalog ≡ ok r
        → result ≡ ok (accepted_result r)
        → after ≡ activated l r
        → IsReplacement result after
    refused :
        ¬ IsWellFormed (value_or l.capability_catalog default_catalog) c
        → result ≡ ok rejected_result
        → after ≡ l
        → IsReplacement result after

  pub replace_active-IsReplacement :
      IsReplacement (replace_active platform l c).0 (replace_active platform l c).1
  replace_active-IsReplacement =
      let decided = validate_config-IsWellFormed platform c l.capability_catalog in
      elim (Bool-cases (validate_config platform c l.capability_catalog).ok) [
        | inl valid ↦
            let r = registry_of c (config_identity platform c) in
            let built = build_registry-ok platform c l.capability_catalog (decided.0 valid) in
            let same = valid_replacement r valid built in
            taken r built (ap (λ x. x.0) same) (ap (λ x. x.1) same)
        | inr wrong ↦
            let same = invalid_replacement wrong in
            refused (λ w. cc (wrong, decided.1 w)) (ap (λ x. x.0) same) (ap (λ x. x.1) same)
      ]

-- the answer of a rollback that finds a registry
abbrev pub found_result : String → Registry → ConfigActivationResult
found_result identity r = record {
  ok = true;
  active_config_identity = some r.config_identity;
  attempted_config_identity = some identity;
  validation_report = record { ok = true; config_identity = some r.config_identity; errors = [] };
  registry = some r;
}

pub rollback_found :
    (l : RegistryLifecycle) (identity : String) (r : Registry)
    → lookup identity l.registry_history ≡ some r
    → rollback_to_identity l identity
      ≡ (found_result identity r, record l { active_registry = some r })
unfolding rollback_to_identity
rollback_found l identity r found = rw (found, rollback_to_identity) refl

pub rollback_unknown :
    (l : RegistryLifecycle) (identity : String)
    → lookup identity l.registry_history ≡ none
    → rollback_to_identity l identity ≡ (
      record {
        ok = false;
        active_config_identity = active_config_identity l;
        attempted_config_identity = some identity;
        validation_report = record {
          ok = false;
          config_identity = none;
          errors =
              error ConfigErrorCode.config_identity_not_found "config_identity"
                ("unknown validated config identity: " +++ identity)
              ∷ [];
        };
        registry = none;
      },
      l,
    )
unfolding rollback_to_identity
rollback_unknown l identity missing = rw (missing, rollback_to_identity) refl

module _ (platform : Platform) (l : RegistryLifecycle) (c : LlmEndpointConfig) (r : Registry) where
  -- A configuration whose registry is built is taken.
  pub replace_active-built :
      build_registry platform c l.capability_catalog ≡ ok r
      → replace_active platform l c ≡ (ok (accepted_result platform l c r), activated l r)
  replace_active-built built =
      valid_replacement platform l c r
        ((validate_config-IsWellFormed platform c l.capability_catalog).1
          (built-IsWellFormed platform c l.capability_catalog r built))
        built

module _ (platform : Platform) (l : RegistryLifecycle) (c d : LlmEndpointConfig)
    (r s : Registry) where
  kept_registry :
      r.config_identity ≢ s.config_identity
      → lookup r.config_identity (activated (activated l r) s).registry_history ≡ some r
  kept_registry apart =
      rw
        (
          lookup-insert s.config_identity r.config_identity s (activated l r).registry_history,
          lookup-insert r.config_identity r.config_identity r l.registry_history,
          eq_refl r.config_identity,
        )
        (ground (arith, eq_iff s.config_identity r.config_identity))

  -- After two configurations with different identities have been activated, a rollback to the identity of the
  -- first makes its registry active again, and keeps both in the history.
  pub rollback-activate :
      (first : build_registry platform c l.capability_catalog ≡ ok r)
      (second : build_registry platform d l.capability_catalog ≡ ok s)
      → r.config_identity ≢ s.config_identity
      → rollback_to_identity
          (replace_active platform (replace_active platform l c).1 d).1
          r.config_identity
        ≡ (
          found_result r.config_identity r,
          record (activated (activated l r) s) { active_registry = some r },
        )
  rollback-activate first second apart =
      let once = ap (λ x. x.1) (replace_active-built platform l c r first) in
      let twice =
        ap (λ m. (replace_active platform m d).1) once
        ∙ ap (λ x. x.1) (replace_active-built platform (activated l r) d s second) in
      ap (λ m. rollback_to_identity m r.config_identity) twice
      ∙ rollback_found (activated (activated l r) s) r.config_identity r (kept_registry apart)
