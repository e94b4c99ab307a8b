-- ===== src/Rbac/RoleSamples.antt =====
-- Requests that try to take the administrators' role away, and to change what it permits.
use appspine_packages.Base.{
  false, includes, Result, ok, ◌≡◌, refl, Bool, true, none, some, List, [], ◌∷◌, Text, text, same,
}
use appspine_packages.Rbac.Policy.{
  deny_all, read_all, system_admin_role, ForbiddenException, can_activate, user_of, flatten,
  required_of, ends_with,
}
use appspine_packages.Rbac.Roles.{Role, Database, role_with_id, distinct}
use appspine_packages.Rbac.Assignments.{
  assigned_to, replace_user_roles, roles_for_user, granted, grant_of,
}
use appspine_packages.Rbac.Assigned.{replace_user_roles-can_activate}
use appspine_packages.Rbac.Kept.{Kept}
use appspine_packages.Rbac.Protected.{
  Request, create_role, update_role, set_permissions, remove_role, act_all, act_all-Kept,
}

abbrev any_permission : Text → Bool
any_permission permission = true

abbrev administrators : Role
administrators = record {
  id = text "r1";
  name = system_admin_role;
  display_name = text "Administrators";
  is_system = true;
  permission_policy = deny_all;
  permissions = [];
}

abbrev database : Database
database = record { roles = administrators ∷ []; user_roles = []; api_key_roles = [] }

abbrev requests : List Request
requests =
    set_permissions (text "r1") (text "USER_READ" ∷ [])
    ∷ update_role (text "r1")
        (record { display_name = some (text "Root"); permission_policy = none; permissions = none })
    ∷ create_role
        (record {
          name = text "EDITOR";
          display_name = text "Editor";
          permission_policy = deny_all;
          permissions = text "POST_WRITE" ∷ [];
        })
        (text "r2")
    ∷ remove_role (text "r1")
    ∷ []

there : role_with_id (text "r1") database ≡ some administrators
unfolding role_with_id same text
there = refl

act_all-Kept_example :
    (after : Role) × (role_with_id (text "r1") (act_all any_permission requests database)
      ≡ some after)
    × Kept administrators after
act_all-Kept_example =
    act_all-Kept any_permission requests (text "r1") database administrators there refl

abbrev viewers : Role
viewers = record administrators {
  id = text "r2";
  name = text "VIEWER";
  is_system = false;
  permission_policy = read_all;
}

abbrev assigned : Database
assigned = record {
  roles = administrators ∷ viewers ∷ [];
  user_roles = assigned_to (text "ann") (text "r1") ∷ assigned_to (text "bob") (text "r1") ∷ [];
  api_key_roles = [];
}

abbrev reassigned : Database
reassigned = record assigned {
  user_roles = assigned_to (text "bob") (text "r1") ∷ assigned_to (text "ann") (text "r2") ∷ [];
}

replaced : replace_user_roles any_permission (text "ann") (text "r2" ∷ []) assigned ≡ ok reassigned
unfolding replace_user_roles role_with_id same text distinct includes
replaced = refl

replace_user_roles-can_activate_example :
    Path
      (Result ForbiddenException Bool)
      (can_activate
        (some (text "USER_READ" ∷ []))
        none
        (some (user_of (flatten (roles_for_user (text "ann") reassigned)))))
      (ok true)
    × (roles_for_user (text "bob") reassigned ≡ roles_for_user (text "bob") assigned)
unfolding required_of text same includes ends_with role_with_id granted grant_of
replace_user_roles-can_activate_example =
    replace_user_roles-can_activate any_permission (text "ann") (text "r2" ∷ []) assigned reassigned
      (some (text "USER_READ" ∷ [])) none (text "bob") replaced refl
