-- ===== src/Config/Validation/Roles/Silent.antt =====
-- When the checks of roles add no error.
use llm_endpoint.Prelude.{
  ◌≡◌, refl, ◌↔◌, ℕ, suc, String, true, false, Option, none, some, List, [], ◌∷◌, contains, map,
  All,
}
use llm_endpoint.Prelude.Text.{truthy}
use llm_endpoint.Config.{RoleConfig}
use llm_endpoint.Config.Validation.Roles.{
  members_errors, pool_errors, role_name_errors, target_errors, role_errors, roles_errors,
}
use llm_endpoint.Config.WellFormed.{Named, AreMembers, IsTarget}
use llm_endpoint.Config.WellFormed.Silence.{
  error_if-nil, error_unless-nil, named-nil, both, loop-nil, never,
}

module _ (uids : List String) where
  members_errors-nil :
      (path : String) (index : ℕ) (seen members : List String)
      → (members_errors uids path index seen members ≡ []) ↔ AreMembers uids seen members
  unfolding members_errors
  members_errors-nil path index seen [] = (λ h. tt, λ h. refl)
  members_errors-nil path index seen (uid ∷ members) =
      both (error_if-nil (contains uid seen) _ _ _) (
        both (error_unless-nil (contains uid uids) _ _ _)
          (members_errors-nil path (suc index) (uid ∷ seen) members))

  target_errors-nil :
      (path : String) (uid : Option String) (pool : Option (List String))
      → (target_errors uids path uid pool ≡ []) ↔ IsTarget uids uid pool
  unfolding target_errors pool_errors
  target_errors-nil path none none = never _ _
  target_errors-nil path (some uid) (some pool) = never _ _
  target_errors-nil path (some uid) none = error_unless-nil (contains uid uids) _ _ _
  target_errors-nil path none (some []) = never _ _
  target_errors-nil path none (some (uid ∷ members)) = members_errors-nil path 0 [] (uid ∷ members)

  role_errors-nil :
      (index : ℕ) (seen : List String) (r : RoleConfig)
      → (role_errors uids index seen r ≡ []) ↔ (
          ((truthy r.name ≡ true) × (contains r.name seen ≡ false))
          × IsTarget uids r.endpoint_uid r.pool)
  unfolding role_errors role_name_errors
  role_errors-nil index seen r =
      both (named-nil (truthy r.name) (contains r.name seen) _ _ _ _)
        (target_errors-nil _ r.endpoint_uid r.pool)

  pub roles_errors-nil :
      (index : ℕ) (seen : List String) (rs : List RoleConfig)
      → (roles_errors uids index seen rs ≡ []) ↔ (
          Named seen (map (λ (r : RoleConfig). r.name) rs)
          × All (λ (r : RoleConfig). IsTarget uids r.endpoint_uid r.pool) rs)
  unfolding roles_errors
  roles_errors-nil index seen [] = (λ h. (tt, tt), λ h. refl)
  roles_errors-nil index seen (r ∷ rs) =
      loop-nil (λ s. roles_errors uids (suc index) s rs) r.name
        (map (λ (r : RoleConfig). r.name) rs) seen (role_errors-nil index seen r)
        (roles_errors-nil (suc index) (r.name ∷ seen) rs)
