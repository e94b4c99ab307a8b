-- ===== src/Rbac/Samples.antt =====
-- A caller with two roles, at a handler that asks for either of two permissions.
use appspine_packages.Base.{
  Bool, true, none, some, List, [], ◌∷◌, Text, text, same, includes, Result, ok,
}
use appspine_packages.Rbac.Policy.{
  RoleGrant, ForbiddenException, deny_all, read_all, can_activate, user_of, flatten, required_of,
  ends_with,
}
use appspine_packages.Rbac.Grants.{can_activate-admits}

abbrev role : Text → Text → List Text → RoleGrant
role name policy permissions = record {
  id = none;
  name = name;
  display_name = none;
  permission_policy = policy;
  permissions = permissions;
}

abbrev roles : List RoleGrant
roles =
    role (text "EDITOR") deny_all (text "POST_WRITE" ∷ []) ∷ role (text "VIEWER") read_all [] ∷ []

abbrev required : List Text
required = text "USER_DELETE" ∷ text "USER_READ" ∷ []

can_activate-admits_example :
    Path
      (Result ForbiddenException Bool)
      (can_activate (some required) none (some (user_of (flatten roles))))
      (ok true)
unfolding required_of text same includes ends_with
can_activate-admits_example = can_activate-admits (some required) none roles
