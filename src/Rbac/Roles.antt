-- ===== src/Rbac/Roles.antt =====
-- packages/rbac/src/roles/roles.service.ts: `RolesService`, on the tables of roles and assignments.
use appspine_packages.Base.{
  ℕ, Bool, true, false, ◌&&◌, ◌||◌, not, Option, none, some, List, [], ◌∷◌, ◌++◌, map,
  if◌then◌else◌, all, any, find, select, get_or, ltb, length, Text, text, same, includes, say,
  Result, ok, err, ◌>>=◌, ◌>>◌, guard, need,
}
use appspine_packages.Rbac.Policy.{system_admin_role}

-- A row with the rows of its permissions.
pub record Role : Type 0 where
  pub id : Text
  pub name : Text
  pub display_name : Text
  pub is_system : Bool
  pub permission_policy : Text
  pub permissions : List Text

pub record UserRole : Type 0 where
  pub user_id : Text
  pub role_id : Text

-- The roles, their users, and the role IDs of the API keys.
pub record Database : Type 0 where
  pub roles : List Role
  pub user_roles : List UserRole
  pub api_key_roles : List Text

pub record CreateRoleDto : Type 0 where
  pub name : Text
  pub display_name : Text
  pub permission_policy : Text
  pub permissions : List Text

pub record UpdateRoleDto : Type 0 where
  pub display_name : Option Text
  pub permission_policy : Option Text
  pub permissions : Option (List Text)

pub record RoleResponse : Type 0 where
  pub role : Role
  pub user_count : ℕ
  pub api_key_count : ℕ

-- The service's exceptions, and a write that the database refuses.
pub data RoleError : Type 0 where
  not_found : Text → RoleError
  conflict : Text → RoleError
  bad_request : Text → RoleError
  database_error : RoleError

-- `_count`
unfoldable pub user_count : Text → Database → ℕ
user_count id db = length (select (λ a. same a.role_id id) db.user_roles)

unfoldable pub api_key_count : Text → Database → ℕ
api_key_count id db = length (select (λ role_id. same role_id id) db.api_key_roles)

unfoldable pub map_role : Database → Role → RoleResponse
map_role db role = record {
  role = role;
  user_count = user_count role.id db;
  api_key_count = api_key_count role.id db;
}

-- `findUnique({ where: { id } })`
unfoldable pub role_with_id : Text → Database → Option Role
role_with_id id db = find (λ r. same r.id id) db.roles

unfoldable pub found_role : Text → Database → Result RoleError Role
found_role id db = need (role_with_id id db) (not_found (text "Role not found"))

unfoldable pub find_one : Text → Database → Result RoleError RoleResponse
find_one id db = do role ← found_role id db; ok (map_role db role)

unfoldable pub distinct : List Text → Bool
distinct [] = true
distinct (x ∷ xs) = not (includes xs x) && distinct xs

unfoldable pub assert_permissions_editable : Role → Result RoleError (Unit {0})
assert_permissions_editable role =
    guard (not (same role.name system_admin_role))
      (bad_request (text "ADMIN permissions are managed via guard bypass and cannot be set here"))

-- The `data` of an update, applied to a row.
unfoldable pub changed_role : UpdateRoleDto → Role → Role
changed_role dto role = record role {
  display_name = get_or dto.display_name role.display_name;
  permission_policy = get_or dto.permission_policy role.permission_policy;
}

-- The statements that replace the permissions of a row.
unfoldable pub with_permissions : List Text → Role → Role
with_permissions permissions role = record role { permissions = permissions }

unfoldable pub update_where : Text → (Role → Role) → Database → Database
update_where id change db = record db {
  roles = map (λ r. if same r.id id then change r else r) db.roles;
}

-- The row that `create` inserts.
unfoldable pub new_role : CreateRoleDto → Text → Role
new_role dto id = record {
  id = id;
  name = dto.name;
  display_name = dto.display_name;
  is_system = false;
  permission_policy = dto.permission_policy;
  permissions = dto.permissions;
}

-- The database takes the values of its enumeration of permissions, each once for a role.
module _ (is_permission : Text → Bool) where
  unfoldable pub check_rows : List Text → Result RoleError (Unit {0})
  check_rows permissions =
      guard (all is_permission permissions && distinct permissions) database_error

  -- `create`, with the new ID as an argument.
  unfoldable pub create :
      CreateRoleDto → Text → Database → Result RoleError (RoleResponse × Database)
  create dto id db = do
    guard (not (any (λ r. same r.name dto.name) db.roles))
        (conflict (say (text "Role \"" ∷ dto.name ∷ text "\" already exists" ∷ [])))
    guard (not (any (λ r. same r.id id) db.roles)) database_error
    check_rows dto.permissions
    let role = new_role dto id
    let left : Database = record db { roles = db.roles ++ role ∷ [] }
    ok (map_role left role, left)

  -- One transaction where the permissions are given: the row, then the permissions.
  unfoldable pub write_update :
      Text → UpdateRoleDto → Option (List Text) → Database → Result RoleError Database
  write_update id dto none db = do
    role ← found_role id db
    ok (update_where id (changed_role dto) db)
  write_update id dto (some permissions) db = do
    role ← found_role id db
    assert_permissions_editable role
    check_rows permissions
    ok (update_where id (λ r. with_permissions permissions (changed_role dto r)) db)

  unfoldable pub write_permissions : Text → List Text → Database → Result RoleError Database
  write_permissions id permissions db = do
    role ← found_role id db
    assert_permissions_editable role
    check_rows permissions
    ok (update_where id (with_permissions permissions) db)

  -- What a write leaves, and `return this.findOne(id)` behind it.
  unfoldable pub answered :
      Text → Database → Result RoleError Database → Result RoleError RoleResponse × Database
  answered id db (ok left) = (find_one id left, left)
  answered id db (err e) = (err e, db)

  unfoldable pub update : Text → UpdateRoleDto → Database → Result RoleError RoleResponse × Database
  update id dto db = answered id db (write_update id dto dto.permissions db)

  unfoldable pub replace_permissions :
      Text → List Text → Database → Result RoleError RoleResponse × Database
  replace_permissions id permissions db = answered id db (write_permissions id permissions db)

-- The deletion cascades to no assignment, since the counts are zero.
unfoldable pub remove : Text → Database → Result RoleError Database
remove id db = do
  role ← found_role id db
  guard (not role.is_system) (bad_request (text "System roles cannot be deleted"))
  guard (not (ltb 0 (user_count id db) || ltb 0 (api_key_count id db)))
      (bad_request (text "Cannot delete a role that is assigned to users or API keys"))
  ok (record db { roles = select (λ r. not (same r.id id)) db.roles })
