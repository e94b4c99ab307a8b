-- ===== src/Rbac/Policy.antt =====
-- packages/rbac/src/user-context.util.ts, rbac-policy.service.ts and guards/permission.guard.ts: the
-- context of a caller with several roles, and `PermissionGuard`.
use appspine_packages.Base.{
  ℕ, Bool, true, false, ◌&&◌, Option, none, some, List, [], ◌∷◌, map, if◌then◌else◌, any, flat_map,
  is_empty, get_or, or_else, ltb, Text, text, same, includes, dedupe, Result, ok, err,
}

pub record RoleGrant : Type 0 where
  pub id : Option Text
  pub name : Text
  pub display_name : Option Text
  pub permission_policy : Text
  pub permissions : List Text

pub record PrincipalAuthorization : Type 0 where
  pub role_names : List Text
  pub permission_policy : Text
  pub permissions : List Text

-- `PermissionPolicy`
abbrev pub deny_all : Text
deny_all = text "DENY_ALL"

abbrev pub allow_all : Text
allow_all = text "ALLOW_ALL"

abbrev pub read_all : Text
read_all = text "READ_ALL"

abbrev pub system_admin_role : Text
system_admin_role = text "ADMIN"

-- `POLICY_ORDER`, undefined at any other text.
unfoldable pub policy_order : Text → Option ℕ
policy_order policy =
    if same policy allow_all
    then some 2
    else if same policy read_all
    then some 1
    else if same policy deny_all
    then some 0
    else none

-- `a > b`, false where one is undefined.
unfoldable pub above : Option ℕ → Option ℕ → Bool
above (some a) (some b) = ltb b a
above _ _ = false

unfoldable pub best_of : Text → List RoleGrant → Text
best_of best [] = best
best_of best (r ∷ roles) =
    best_of
      (if above (policy_order r.permission_policy) (policy_order best)
        then r.permission_policy
        else best)
      roles

unfoldable pub build_user_context : List RoleGrant → PrincipalAuthorization
build_user_context roles = record {
  role_names = map (λ r. r.name) roles;
  permission_policy = best_of deny_all roles;
  permissions = dedupe (flat_map (λ r. r.permissions) roles);
}

-- `RbacPolicyService.flatten`
unfoldable pub flatten : List RoleGrant → PrincipalAuthorization
flatten roles = build_user_context roles

-- `p.endsWith(suffix)`
unfoldable pub ends_with : Text → Text → Bool
ends_with [] suffix = same [] suffix
ends_with (c ∷ t) suffix = if same (c ∷ t) suffix then true else ends_with t suffix

-- `request.user`, whose fields may be missing.
pub record RequestUser : Type 0 where
  pub role_names : Option (List Text)
  pub permission_policy : Option Text
  pub permissions : Option (List Text)

pub data ForbiddenException : Type 0 where
  forbidden : ForbiddenException

unfoldable pub has_policy : Option Text → Text → Bool
has_policy none policy = false
has_policy (some p) policy = same p policy

-- The metadata of the handler before that of the class.
unfoldable pub required_of : Option (List Text) → Option (List Text) → List Text
required_of handler class = get_or (or_else handler class) []

-- The four ways in which a user passes.
unfoldable pub check_user : List Text → RequestUser → Result ForbiddenException Bool
check_user required user =
    if includes (get_or user.role_names []) system_admin_role
    then ok true
    else if has_policy user.permission_policy allow_all
    then ok true
    else if has_policy user.permission_policy read_all
        && any (λ p. ends_with p (text "_READ")) required
    then ok true
    else if any (λ p. includes (get_or user.permissions []) p) required
    then ok true
    else err forbidden

unfoldable pub check_request : List Text → Option RequestUser → Result ForbiddenException Bool
check_request required none = err forbidden
check_request required (some user) = check_user required user

unfoldable pub can_activate :
    Option (List Text) → Option (List Text) → Option RequestUser → Result ForbiddenException Bool
can_activate handler class user =
    let required = required_of handler class in
    if is_empty required then ok true else check_request required user

-- A principal's authorization, as the guard finds it under the request.
unfoldable pub user_of : PrincipalAuthorization → RequestUser
user_of authorization = record {
  role_names = some authorization.role_names;
  permission_policy = some authorization.permission_policy;
  permissions = some authorization.permissions;
}
