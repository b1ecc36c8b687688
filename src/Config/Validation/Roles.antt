-- ===== src/Config/Validation/Roles.antt =====
-- config.py: the checks of `validate_config` on roles, and `_validate_pool`.
pub mod Silent
use Prim.Native.String.{◌++◌ as ◌+++◌}
use llm_endpoint.Prelude.{
  ℕ, suc, String, Bool, true, false, Option, none, some, List, [], ◌∷◌, ◌++◌, not, contains,
  if◌then◌else◌,
}
use llm_endpoint.Prelude.Text.{truthy}
use llm_endpoint.Config.{RoleConfig}
use llm_endpoint.Config.Errors.{ConfigErrorCode, ConfigValidationError, error, error_if, indexed}
use llm_endpoint.Config.Names.{add_name}

-- the loop over the members of a pool, with those seen before
pub members_errors :
    List String → String → ℕ → List String → List String → List ConfigValidationError
unfolding error_if indexed
members_errors uids path index seen [] = []
members_errors uids path index seen (uid ∷ members) =
    let member_path = indexed (path +++ ".pool.members") index in
    error_if (contains uid seen) ConfigErrorCode.duplicate_pool_member member_path
      "pool members must be unique"
    ++ (error_if (not (contains uid uids)) ConfigErrorCode.unknown_endpoint_ref member_path
          ("unknown endpoint uid: " +++ uid)
        ++ members_errors uids path (suc index) (uid ∷ seen) members)

-- `_validate_pool`
pub pool_errors : List String → String → List String → List ConfigValidationError
unfolding members_errors
pool_errors uids path [] =
    error ConfigErrorCode.empty_pool (path +++ ".pool.members") "pool cannot be empty" ∷ []
pool_errors uids path (uid ∷ members) = members_errors uids path 0 [] (uid ∷ members)

role_name_errors : String → List String → RoleConfig → List ConfigValidationError
unfolding error_if
role_name_errors path seen role =
    if truthy role.name
    then error_if (contains role.name seen) ConfigErrorCode.duplicate_role (path +++ ".name")
        "role name must be unique"
    else error ConfigErrorCode.empty_role (path +++ ".name") "role name is required" ∷ []

-- the two ways to name endpoints
pub target_errors :
    List String → String → Option String → Option (List String) → List ConfigValidationError
unfolding pool_errors error_if
target_errors uids path none none =
    error ConfigErrorCode.unknown_endpoint_ref path
      "role must reference exactly one endpoint_uid or one pool"
    ∷ []
target_errors uids path (some uid) (some pool) =
    error ConfigErrorCode.unknown_endpoint_ref path
      "role must reference exactly one endpoint_uid or one pool"
    ∷ []
target_errors uids path (some uid) none =
    error_if (not (contains uid uids)) ConfigErrorCode.unknown_endpoint_ref
      (path +++ ".endpoint_uid") ("unknown endpoint uid: " +++ uid)
target_errors uids path none (some pool) = pool_errors uids path pool

pub role_errors : List String → ℕ → List String → RoleConfig → List ConfigValidationError
unfolding role_name_errors target_errors indexed
role_errors uids index seen role =
    let path = indexed "roles" index in
    role_name_errors path seen role ++ target_errors uids path role.endpoint_uid role.pool

-- the loop over the roles, with the names seen before
unfoldable pub roles_errors :
    List String → ℕ → List String → List RoleConfig → List ConfigValidationError
unfolding role_errors add_name
roles_errors uids index seen [] = []
roles_errors uids index seen (role ∷ roles) =
    role_errors uids index seen role
    ++ roles_errors uids (suc index) (add_name role.name seen) roles
