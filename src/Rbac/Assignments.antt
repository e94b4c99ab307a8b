-- ===== src/Rbac/Assignments.antt =====
-- packages/rbac/src/rbac-policy.service.ts: `RbacPolicyService`, on the same tables. The rows of a query
-- without an order come as they were inserted.
use appspine_packages.Base.{
  Bool, ◌&&◌, not, Option, none, some, List, [], ◌∷◌, ◌++◌, map, all, find, flat_map, select,
  is_some, Text, text, same, say, Result, ok, ◌>>=◌, ◌>>◌, guard, need,
}
use appspine_packages.Rbac.Policy.{RoleGrant}
use appspine_packages.Rbac.Roles.{
  Role, UserRole, Database, RoleError, not_found, database_error, role_with_id, distinct,
}

abbrev system_user_role : Text
system_user_role = text "USER"

-- The columns of a role that the policy selects.
unfoldable pub grant_of : Role → RoleGrant
grant_of role = record {
  id = some role.id;
  name = role.name;
  display_name = some role.display_name;
  permission_policy = role.permission_policy;
  permissions = role.permissions;
}

-- A foreign key's row; the key says that there is one.
unfoldable pub granted : Option Role → List RoleGrant
granted none = []
granted (some role) = grant_of role ∷ []

unfoldable pub roles_for_user : Text → Database → List RoleGrant
roles_for_user user_id db =
    flat_map (λ a. granted (role_with_id a.role_id db))
      (select (λ a. same a.user_id user_id) db.user_roles)

unfoldable pub default_role_ids : Database → Result RoleError (List Text)
default_role_ids db = do
  role ←
      need (find (λ r. same r.name system_user_role) db.roles) (
        not_found
          (say (system_user_role ∷ text " system role not found — run the seed first" ∷ [])))
  ok (role.id ∷ [])

abbrev pub assigned_to : Text → Text → UserRole
assigned_to user_id role_id = record { user_id = user_id; role_id = role_id }

-- One transaction, which the database refuses if the user or a role is not there, or a role is given
-- twice.
unfoldable pub replace_user_roles :
    (Text → Bool) → Text → List Text → Database → Result RoleError Database
replace_user_roles is_user user_id [] db =
    ok (record db { user_roles = select (λ a. not (same a.user_id user_id)) db.user_roles })
replace_user_roles is_user user_id (first ∷ rest) db = do
  guard
      (is_user user_id
        && (all (λ id. is_some (role_with_id id db)) (first ∷ rest) && distinct (first ∷ rest)))
      database_error
  ok (record db {
    user_roles =
        select (λ a. not (same a.user_id user_id)) db.user_roles
        ++ map (assigned_to user_id) (first ∷ rest);
  })
