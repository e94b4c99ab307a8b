-- ===== src/Rbac/Grants.antt =====
-- packages/rbac/src/user-context.util.ts and guards/permission.guard.ts together: what each single
-- role lets its holders do.
use appspine_packages.Base.{
  ◌≡◌, refl, ap, ◌∙◌, inl, inr, Bool, true, false, ◌&&◌, ◌||◌, Option, some, List, [], ◌∷◌, map,
  arith, if◌then◌else◌, any, any-or, any-ext, any-none, flat_map, Bool-cases, Text, text, same,
  same→eq, same_refl, includes, includes-append, includes-dedupe, dedupe, is_empty, ok, err,
}
use appspine_packages.Rbac.Policy.{
  RoleGrant, deny_all, allow_all, read_all, system_admin_role, policy_order, above, best_of,
  build_user_context, flatten, ends_with, has_policy, required_of, check_user, check_request,
  can_activate, user_of, forbidden,
}

abbrev has : Text → RoleGrant → Bool
has policy r = same r.permission_policy policy

-- What one role grants on its own.
abbrev pub admits : List Text → RoleGrant → Bool
admits required r =
    same r.name system_admin_role
    || (has allow_all r
        || (has read_all r && any (λ p. ends_with p (text "_READ")) required
            || any (λ p. includes r.permissions p) required))

above-two : (p : Text) → above (policy_order p) (some 2) ≡ false
unfolding policy_order above
above-two p = ground arith

above-one : (p : Text) → same p allow_all ≡ false → above (policy_order p) (some 1) ≡ false
unfolding policy_order above
above-one p h = ground arith

above-zero :
    (p : Text)
    → same p allow_all ≡ false
    → same p read_all ≡ false
    → above (policy_order p) (some 0) ≡ false
unfolding policy_order above
above-zero p h k = ground arith

policy_order-allow_all : policy_order allow_all ≡ some 2
unfolding policy_order same text
policy_order-allow_all = refl

policy_order-read_all : policy_order read_all ≡ some 1
unfolding policy_order same text
policy_order-read_all = refl

policy_order-deny_all : policy_order deny_all ≡ some 0
unfolding policy_order same text
policy_order-deny_all = refl

read_all-allow_all : same read_all allow_all ≡ false
unfolding same text
read_all-allow_all = refl

best_of-allow_all : (roles : List RoleGrant) → best_of allow_all roles ≡ allow_all
unfolding best_of
best_of-allow_all [] = refl
best_of-allow_all (r ∷ roles) =
    rw (policy_order-allow_all, above-two r.permission_policy) (best_of-allow_all roles)

best_of-read_all :
    (roles : List RoleGrant)
    → best_of read_all roles ≡ (if any (has allow_all) roles then allow_all else read_all)
unfolding best_of above
best_of-read_all [] = refl
best_of-read_all (r ∷ roles) = elim (Bool-cases (same r.permission_policy allow_all)) [
  | inl e ↦
      rw
        (
          same→eq r.permission_policy allow_all e,
          same_refl allow_all,
          policy_order-allow_all,
          policy_order-read_all,
        )
        (best_of-allow_all roles)
  | inr e ↦ rw (policy_order-read_all, above-one r.permission_policy e, e) (best_of-read_all roles)
]

best_of-deny_all :
    (roles : List RoleGrant)
    → best_of deny_all roles ≡ (
        if any (has allow_all) roles
        then allow_all
        else if any (has read_all) roles
        then read_all
        else deny_all)
unfolding best_of above
best_of-deny_all [] = refl
best_of-deny_all (r ∷ roles) = elim (Bool-cases (same r.permission_policy allow_all)) [
  | inl e ↦
      rw
        (
          same→eq r.permission_policy allow_all e,
          same_refl allow_all,
          policy_order-allow_all,
          policy_order-deny_all,
        )
        (best_of-allow_all roles)
  | inr e ↦ elim (Bool-cases (same r.permission_policy read_all)) [
    | inl k ↦
        rw
          (
            same→eq r.permission_policy read_all k,
            same_refl read_all,
            read_all-allow_all,
            policy_order-read_all,
            policy_order-deny_all,
          )
          (best_of-read_all roles)
    | inr k ↦
        rw (policy_order-deny_all, above-zero r.permission_policy e k, e, k)
          (best_of-deny_all roles)
  ]
]

-- The tests that the guard makes on the policy of a context.
best_of-tests :
    (a b : Bool)
    → (same (if a then allow_all else if b then read_all else deny_all) allow_all ≡ a)
      × ((a || same (if a then allow_all else if b then read_all else deny_all) read_all)
          ≡ (a || b))
unfolding same text
best_of-tests true b = (refl, refl)
best_of-tests false true = (refl, refl)
best_of-tests false false = (refl, refl)

names-includes :
    (roles : List RoleGrant) (name : Text)
    → includes (map (λ r. r.name) roles) name ≡ any (λ r. same r.name name) roles
unfolding includes
names-includes [] name = refl
names-includes (r ∷ roles) name = ap (λ b. same r.name name || b) (names-includes roles name)

-- Some role grants some of the required permissions: the same in either order.
permissions-includes :
    (roles : List RoleGrant) (required : List Text)
    → any (λ p. includes (flat_map (λ r. r.permissions) roles) p) required
      ≡ any (λ r. any (λ p. includes r.permissions p) required) roles
unfolding includes
permissions-includes [] required = any-none required
permissions-includes (r ∷ roles) required =
    any-ext _ _ required
      (λ p. includes-append r.permissions (flat_map (λ r. r.permissions) roles) p)
    ∙ (any-or (includes r.permissions) _ required
        ∙ ap (λ b. any (includes r.permissions) required || b)
            (permissions-includes roles required))

permissions-dedupe :
    (roles : List RoleGrant) (required : List Text)
    → any (λ p. includes (dedupe (flat_map (λ r. r.permissions) roles)) p) required
      ≡ any (λ r. any (λ p. includes r.permissions p) required) roles
permissions-dedupe roles required =
    any-ext _ _ required (λ p. includes-dedupe (flat_map (λ r. r.permissions) roles) p)
    ∙ permissions-includes roles required

any-admits :
    (required : List Text) (roles : List RoleGrant)
    → any (admits required) roles ≡ (
        any (λ r. same r.name system_admin_role) roles
        || (any (has allow_all) roles
            || (any (has read_all) roles && any (λ p. ends_with p (text "_READ")) required
                || any (λ r. any (λ p. includes r.permissions p) required) roles)))
any-admits required [] = refl
any-admits required (r ∷ roles) = ground (arith, any-admits required roles)

-- A caller whose authorization is flattened from roles passes PermissionGuard exactly if the
-- handler, or else its class, asks for no permission, or one of the roles alone admits them: it is
-- the administrators', its policy allows all, its policy allows reading and a required permission
-- ends in _READ, or it has a required permission. Otherwise the guard throws.
pub can_activate-admits :
    (handler class : Option (List Text)) (roles : List RoleGrant)
    → can_activate handler class (some (user_of (flatten roles))) ≡ (
        if is_empty (required_of handler class) || any (admits (required_of handler class)) roles
        then ok true
        else err forbidden)
unfolding can_activate check_request check_user user_of flatten build_user_context has_policy
can_activate-admits handler class roles =
    let required = required_of handler class in
    let (allows, reads) = best_of-tests (any (has allow_all) roles) (any (has read_all) roles) in
    rw
      (
        any-admits required roles,
        best_of-deny_all roles,
        names-includes roles system_admin_role,
        permissions-dedupe roles required,
      )
      (ground (arith, allows, reads))
