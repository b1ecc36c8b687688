-- ===== src/Config/Lifecycle/Reached.antt =====
-- The lifecycles that a new one reaches by activations and rollbacks.
use llm_endpoint.Prelude.{
  ◌≡◌, refl, sym, subst, ap, ◌∙◌, inl, inr, String, Option, none, some, Bool-cases, Option-cases,
  ◌==◌, eq_iff, eq_refl,
}
use llm_endpoint.Prelude.Dict.{lookup, insert, lookup-insert}
use llm_endpoint.Prelude.Outcome.{ok}
use llm_endpoint.Platform.{Platform}
use llm_endpoint.Config.{LlmEndpointConfig, Registry}
use llm_endpoint.Capabilities.{CapabilityCatalog}
use llm_endpoint.Config.Building.{build_registry}
use llm_endpoint.Config.Lifecycle.{
  RegistryLifecycle, lifecycle, activated, replace_active, rollback_to_identity,
}
use llm_endpoint.Config.Lifecycle.Replaced.{
  taken, refused, replace_active-IsReplacement, rollback_unknown, rollback_found,
}

none-not-some : {r : Registry} → none ≡ some r → ⊥
none-not-some h = cc

some-injective : {r s : Registry} → some r ≡ some s → r ≡ s
some-injective h = cc

-- one call of a host
pub data Step (platform : Platform) (l : RegistryLifecycle) (after : RegistryLifecycle)
    : Type 0 where
  activation :
      (c : LlmEndpointConfig) → after ≡ (replace_active platform l c).1 → Step platform l after
  rollback :
      (identity : String) → after ≡ (rollback_to_identity l identity).1 → Step platform l after

pub data Reach (platform : Platform) (start : RegistryLifecycle) : RegistryLifecycle → Type 0 where
  here : Reach platform start start
  next :
      {l after : RegistryLifecycle}
      → Reach platform start l
      → Step platform l after
      → Reach platform start after

module _ (platform : Platform) (catalog : Option CapabilityCatalog) where
  -- a registry under its own identity, built from a configuration for the catalog
  abbrev pub IsValidated : String → Registry → Type 0
  IsValidated identity r =
      (r.config_identity ≡ identity)
      × ((c : LlmEndpointConfig) × (build_registry platform c catalog ≡ ok r))

  -- The history holds registries that were built, under their identities, and the active registry is in it.
  pub record IsSound (l : RegistryLifecycle) : Type 0 where
    pub same_catalog : l.capability_catalog ≡ catalog
    pub history :
        (identity : String) (r : Registry)
        → lookup identity l.registry_history ≡ some r
        → IsValidated identity r
    pub active :
        (r : Registry)
        → l.active_registry ≡ some r
        → lookup r.config_identity l.registry_history ≡ some r

  new-IsSound : IsSound (lifecycle catalog)
  unfolding lookup
  new-IsSound = record {
    same_catalog = refl;
    history = λ identity r h. elim (none-not-some h) [ ];
    active = λ r h. elim (none-not-some h) [ ];
  }

  activated-IsSound :
      (l : RegistryLifecycle) (c : LlmEndpointConfig) (r : Registry)
      → IsSound l
      → build_registry platform c l.capability_catalog ≡ ok r
      → IsSound (activated l r)
  activated-IsSound l c r sound built = record {
    same_catalog = sound.same_catalog;
    history = λ identity s h.
        let found = sym (lookup-insert r.config_identity identity r l.registry_history) ∙ h in
        elim (Bool-cases (r.config_identity == identity)) [
          | inl same ↦ subst (IsValidated identity) (some-injective (rw same at found)) (
            (eq_iff r.config_identity identity).0 same,
            (c, subst (λ o. build_registry platform c o ≡ ok r) sound.same_catalog built),
          )
          | inr other ↦ sound.history identity s (rw other at found)
        ];
    active = λ s h.
        subst
          (λ t. lookup t.config_identity (insert r.config_identity r l.registry_history) ≡ some t)
          (some-injective h)
          (rw
            (
              lookup-insert r.config_identity r.config_identity r l.registry_history,
              eq_refl r.config_identity,
            )
            refl);
  }

  replaced-IsSound :
      (l after : RegistryLifecycle) (c : LlmEndpointConfig)
      → IsSound l
      → after ≡ (replace_active platform l c).1
      → IsSound after
  replaced-IsSound l after c sound same = elim (replace_active-IsReplacement platform l c) [
    | taken r built _ now ↦ subst IsSound (sym (same ∙ now)) (activated-IsSound l c r sound built)
    | refused _ _ now ↦ subst IsSound (sym (same ∙ now)) sound
  ]

  rolled_back-IsSound :
      (l : RegistryLifecycle) (identity : String)
      → IsSound l
      → IsSound (rollback_to_identity l identity).1
  rolled_back-IsSound l identity sound = elim (Option-cases (lookup identity l.registry_history)) [
    | inl unknown ↦ subst IsSound (sym (ap (λ x. x.1) (rollback_unknown l identity unknown))) sound
    | inr (r, found) ↦
        subst IsSound (sym (ap (λ x. x.1) (rollback_found l identity r found))) (record {
          same_catalog = sound.same_catalog;
          history = sound.history;
          active = λ s h.
              let (same, _) = sound.history identity r found in
              subst (λ t. lookup t.config_identity l.registry_history ≡ some t) (some-injective h)
                (subst (λ k. lookup k l.registry_history ≡ some r) (sym same) found);
        })
  ]

  -- Whatever is activated and rolled back, the active registry is one that was built from a well-formed
  -- configuration and is in the history, and every registry of the history stands under its own identity.
  pub Reach-IsSound : {l : RegistryLifecycle} → Reach platform (lifecycle catalog) l → IsSound l
  Reach-IsSound here = new-IsSound
  Reach-IsSound (next {l} {after} reached (activation c same)) =
      replaced-IsSound l after c (Reach-IsSound reached) same
  Reach-IsSound (next {l} {after} reached (rollback identity same)) =
      subst IsSound (sym same) (rolled_back-IsSound l identity (Reach-IsSound reached))
