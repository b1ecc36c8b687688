-- ===== src/Config/Lifecycle.antt =====
-- config.py: `RegistryLifecycle`.
pub mod Replaced
pub mod Reached
use Prim.Native.String.{◌++◌ as ◌+++◌}
use llm_endpoint.Prelude.{String, Bool, true, false, Option, none, some, List, [], ◌∷◌}
use llm_endpoint.Prelude.Dict.{Dict, lookup, insert}
use llm_endpoint.Prelude.Outcome.{Result, ok, raise}
use llm_endpoint.Platform.{Platform}
use llm_endpoint.Config.{LlmEndpointConfig, Registry}
use llm_endpoint.Capabilities.{CapabilityCatalog}
use llm_endpoint.Config.Errors.{ConfigErrorCode, ConfigValidationReport, error}
use llm_endpoint.Config.Identity.{config_identity}
use llm_endpoint.Config.Validation.{validate_config}
use llm_endpoint.Config.Building.{build_registry}

pub record ConfigActivationResult : Type 0 where
  pub ok : Bool
  pub active_config_identity : Option String
  pub attempted_config_identity : Option String
  pub validation_report : ConfigValidationReport
  pub registry : Option Registry

pub record RegistryLifecycle : Type 0 where
  pub capability_catalog : Option CapabilityCatalog
  pub active_registry : Option Registry
  pub registry_history : Dict Registry

-- a new lifecycle
abbrev pub lifecycle : Option CapabilityCatalog → RegistryLifecycle
lifecycle catalog = record {
  capability_catalog = catalog;
  active_registry = none;
  registry_history = [];
}

-- `active_config_identity`
unfoldable pub active_config_identity : RegistryLifecycle → Option String
active_config_identity l = elim l.active_registry [ none ↦ none | some r ↦ some r.config_identity ]

-- the assignments of a successful replacement
abbrev pub activated : RegistryLifecycle → Registry → RegistryLifecycle
activated l r = record l {
  active_registry = some r;
  registry_history = insert r.config_identity r l.registry_history;
}

module _ (platform : Platform) where
  -- what follows a report that is ok
  replaced :
      RegistryLifecycle
      → LlmEndpointConfig
      → ConfigValidationReport
      → Result Registry
      → Result ConfigActivationResult × RegistryLifecycle
  unfolding config_identity
  replaced l c report (raise e) = (raise e, l)
  replaced l c report (ok r) = (
    ok (record {
      ok = true;
      active_config_identity = some r.config_identity;
      attempted_config_identity = some (config_identity platform c);
      validation_report = report;
      registry = some r;
    }),
    activated l r,
  )

  unfoldable pub replace_active :
      RegistryLifecycle → LlmEndpointConfig → Result ConfigActivationResult × RegistryLifecycle
  unfolding validate_config build_registry config_identity active_config_identity replaced
  replace_active l c =
      let report = validate_config platform c l.capability_catalog in
      elim report.ok [
        | false ↦ (
          ok (record {
            ok = false;
            active_config_identity = active_config_identity l;
            attempted_config_identity = some (config_identity platform c);
            validation_report = report;
            registry = none;
          }),
          l,
        )
        | true ↦ replaced l c report (build_registry platform c l.capability_catalog)
      ]

  -- `activate`
  abbrev pub activate :
      RegistryLifecycle → LlmEndpointConfig → Result ConfigActivationResult × RegistryLifecycle
  unfolding replace_active
  activate l c = replace_active l c

unfoldable pub rollback_to_identity :
    RegistryLifecycle → String → ConfigActivationResult × RegistryLifecycle
unfolding lookup active_config_identity
rollback_to_identity l identity = elim (lookup identity l.registry_history) [
  | none ↦ (
    record {
      ok = false;
      active_config_identity = active_config_identity l;
      attempted_config_identity = some identity;
      validation_report = record {
        ok = false;
        config_identity = none;
        errors =
            error ConfigErrorCode.config_identity_not_found "config_identity"
              ("unknown validated config identity: " +++ identity)
            ∷ [];
      };
      registry = none;
    },
    l,
  )
  | some r ↦ (
    record {
      ok = true;
      active_config_identity = some r.config_identity;
      attempted_config_identity = some identity;
      validation_report = record {
        ok = true;
        config_identity = some r.config_identity;
        errors = [];
      };
      registry = some r;
    },
    record l { active_registry = some r },
  )
]
