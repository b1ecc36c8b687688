-- ===== src/Config/Validation/Endpoints/Silent.antt =====
-- When the checks of endpoints add no error.
use llm_endpoint.Prelude.{
  ◌≡◌, refl, sym, subst, ◌↔◌, ℕ, suc, String, true, false, Option, none, some, List, [], ◌∷◌,
  contains, is_none, map, All, inl, inr, Option-cases,
}
use llm_endpoint.Prelude.Text.{truthy}
use llm_endpoint.Config.{EndpointConfig, ProviderFormat, member}
use llm_endpoint.Capabilities.{CapabilityCatalog, CapabilityProfile, get}
use llm_endpoint.Config.Validation.Endpoints.{
  provider_format_of, format_errors, uid_errors, capability_ref_errors, endpoint_errors,
  endpoints_errors,
}
use llm_endpoint.Config.WellFormed.{Named, IsEndpoint}
use llm_endpoint.Config.WellFormed.Silence.{
  error_if-nil, error_unless-nil, named-nil, both, loop-nil, reorder,
}

some-injective : {f g : ProviderFormat} → some f ≡ some g → f ≡ g
some-injective h = cc

is_some-profile :
    (o : Option CapabilityProfile) → (is_none o ≡ false) ↔ ((p : CapabilityProfile) × (o ≡ some p))
is_some-profile none = (λ h. cc, λ (p, h). cc)
is_some-profile (some p) = (λ h. (p, refl), λ h. refl)

module _ (catalog : CapabilityCatalog) where
  capability_ref_errors-nil :
      (path : String) (index : ℕ) (refs : List String)
      → (capability_ref_errors catalog path index refs ≡ []) ↔ All (λ ref. truthy ref ≡ true) refs
  unfolding capability_ref_errors
  capability_ref_errors-nil path index [] = (λ h. tt, λ h. refl)
  capability_ref_errors-nil path index (ref ∷ refs) =
      both (error_unless-nil (truthy ref) _ _ _) (capability_ref_errors-nil path (suc index) refs)

  format_errors-nil :
      (path : String) (e : EndpointConfig)
      → (format_errors catalog path e ≡ []) ↔ (
          (f : ProviderFormat) × (provider_format_of e.provider_format ≡ some f)
          × ((p : CapabilityProfile) × (get catalog (member f) e.model_family ≡ some p)))
  unfolding format_errors
  format_errors-nil path e = elim (Option-cases (provider_format_of e.provider_format)) [
    | inl unknown ↦ (λ h. cc (rw (unknown, format_errors) at h), λ (f, known, found). cc)
    | inr (f, known) ↦
        rw (known, format_errors)
          (
            λ h. (
              f,
              refl,
              (is_some-profile (get catalog (member f) e.model_family)).0
                  ((error_if-nil _ _ _ _).0 h),
            ),
            λ (g, same, found). (error_if-nil _ _ _ _).1 (
                (is_some-profile _).1 (
                  subst
                    (λ k.
                      (p : CapabilityProfile) × (get catalog (member k) e.model_family ≡ some p))
                    (some-injective (sym same)) found)),
          )
  ]

  endpoint_errors-nil :
      (index : ℕ) (seen : List String) (e : EndpointConfig)
      → (endpoint_errors catalog index seen e ≡ [])
        ↔ (((truthy e.uid ≡ true) × (contains e.uid seen ≡ false)) × IsEndpoint catalog e)
  unfolding endpoint_errors uid_errors
  endpoint_errors-nil index seen e =
      reorder
        (both (format_errors-nil _ e) (
          both (named-nil (truthy e.uid) (contains e.uid seen) _ _ _ _) (
            both (error_unless-nil (truthy e.credential_ref) _ _ _)
              (capability_ref_errors-nil _ 0 e.capability_refs))))
        (λ (f, (u, r)). (u, (f, r)), λ (u, (f, r)). (f, (u, r)))

  pub endpoints_errors-nil :
      (index : ℕ) (seen : List String) (es : List EndpointConfig)
      → (endpoints_errors catalog index seen es ≡ [])
        ↔ (Named seen (map (λ (e : EndpointConfig). e.uid) es) × All (IsEndpoint catalog) es)
  unfolding endpoints_errors
  endpoints_errors-nil index seen [] = (λ h. (tt, tt), λ h. refl)
  endpoints_errors-nil index seen (e ∷ es) =
      loop-nil (λ s. endpoints_errors catalog (suc index) s es) e.uid
        (map (λ (e : EndpointConfig). e.uid) es) seen (endpoint_errors-nil index seen e)
        (endpoints_errors-nil (suc index) (e.uid ∷ seen) es)
