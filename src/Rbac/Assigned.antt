-- ===== src/Rbac/Assigned.antt =====
-- packages/rbac/src/rbac-policy.service.ts and guards/permission.guard.ts: what a user may do once roles
-- have been assigned.
use appspine_packages.Base.{
  ◌≡◌, refl, sym, ap, ◌∙◌, inl, inr, Bool, true, false, not, Option, some, List, [], ◌∷◌, ◌++◌, map,
  if◌then◌else◌, ◌||◌, any, flat_map, select, is_empty, Bool-cases, Text, same, same_refl, same→eq,
  ok, err, guard-eq-ok, ok-inj,
}
use appspine_packages.Rbac.Policy.{
  RoleGrant, flatten, required_of, can_activate, user_of, forbidden,
}
use appspine_packages.Rbac.Grants.{admits, can_activate-admits}
use appspine_packages.Rbac.Roles.{UserRole, Database, database_error, role_with_id}
use appspine_packages.Rbac.Assignments.{granted, roles_for_user, assigned_to, replace_user_roles}

append_nil : {A : Type 0} (xs : List A) → xs ++ [] ≡ xs
append_nil [] = refl
append_nil (x ∷ xs) = ap (λ ys. x ∷ ys) (append_nil xs)

select-append :
    {A : Type 0} (p : A → Bool) (xs ys : List A) → select p (xs ++ ys) ≡ select p xs ++ select p ys
select-append p [] ys = refl
select-append p (x ∷ xs) ys = elim (Bool-cases (p x)) [
  | inl e ↦ rw e (ap (λ zs. x ∷ zs) (select-append p xs ys))
  | inr e ↦ rw e (select-append p xs ys)
]

select-others :
    (user_id : Text) (rows : List UserRole)
    → select (λ a. same a.user_id user_id) (select (λ a. not (same a.user_id user_id)) rows) ≡ []
select-others user_id [] = refl
select-others user_id (a ∷ rows) = elim (Bool-cases (same a.user_id user_id)) [
  | inl e ↦ rw e (select-others user_id rows)
  | inr e ↦ rw (e, e) (select-others user_id rows)
]

select-assigned_to :
    (user_id : Text) (ids : List Text)
    → select (λ a. same a.user_id user_id) (map (assigned_to user_id) ids)
      ≡ map (assigned_to user_id) ids
select-assigned_to user_id [] = refl
select-assigned_to user_id (id ∷ ids) =
    rw (same_refl user_id)
      (ap (λ rows. assigned_to user_id id ∷ rows) (select-assigned_to user_id ids))

flat_map-map :
    {A B C : Type 0} (f : B → List C) (g : A → B) (xs : List A)
    → flat_map f (map g xs) ≡ flat_map (λ x. f (g x)) xs
flat_map-map f g [] = refl
flat_map-map f g (x ∷ xs) = ap (λ zs. f (g x) ++ zs) (flat_map-map f g xs)

-- What the roles with given IDs grant.
abbrev pub grants_of : Database → List Text → List RoleGrant
grants_of db ids = flat_map (λ id. granted (role_with_id id db)) ids

replaced_rows :
    (is_user : Text → Bool) (user_id : Text) (ids : List Text) (db left : Database)
    → replace_user_roles is_user user_id ids db ≡ ok left
    → left ≡ (record db {
      user_roles =
          select (λ a. not (same a.user_id user_id)) db.user_roles ++ map (assigned_to user_id) ids;
    })
unfolding replace_user_roles
replaced_rows is_user user_id [] db left h =
    sym (ok-inj h) ∙ ap (λ rows. record db { user_roles = rows }) (sym (append_nil _))
replaced_rows is_user user_id (first ∷ rest) db left h =
    let (_, done) = guard-eq-ok _ database_error _ h in sym (ok-inj done)

roles_for_user-replaced :
    (user_id : Text) (ids : List Text) (db : Database)
    → roles_for_user user_id (record db {
      user_roles =
          select (λ a. not (same a.user_id user_id)) db.user_roles ++ map (assigned_to user_id) ids;
    })
      ≡ grants_of db ids
unfolding roles_for_user role_with_id
roles_for_user-replaced user_id ids db =
    rw
      (
        select-append (λ a. same a.user_id user_id)
            (select (λ a. not (same a.user_id user_id)) db.user_roles)
            (map (assigned_to user_id) ids),
        select-others user_id db.user_roles,
        select-assigned_to user_id ids,
      )
      (flat_map-map _ (assigned_to user_id) ids)

select-kept :
    (user_id other : Text) (rows : List UserRole)
    → same user_id other ≡ false
    → select (λ a. same a.user_id other) (select (λ a. not (same a.user_id user_id)) rows)
      ≡ select (λ a. same a.user_id other) rows
select-kept user_id other [] h = refl
select-kept user_id other (a ∷ rows) h = elim (Bool-cases (same a.user_id user_id)) [
  | inl e ↦
      let away : same a.user_id other ≡ false = rw (same→eq a.user_id user_id e) h in
      rw (e, away) (select-kept user_id other rows h)
  | inr e ↦ rw e (elim (Bool-cases (same a.user_id other)) [
    | inl k ↦ rw k (ap (λ zs. a ∷ zs) (select-kept user_id other rows h))
    | inr k ↦ rw k (select-kept user_id other rows h)
  ])
]

select-foreign :
    (user_id other : Text) (ids : List Text)
    → same user_id other ≡ false
    → select (λ a. same a.user_id other) (map (assigned_to user_id) ids) ≡ []
select-foreign user_id other [] h = refl
select-foreign user_id other (id ∷ ids) h = rw h (select-foreign user_id other ids h)

others_kept :
    (user_id other : Text) (ids : List Text) (db : Database)
    → same user_id other ≡ false
    → roles_for_user other (record db {
      user_roles =
          select (λ a. not (same a.user_id user_id)) db.user_roles ++ map (assigned_to user_id) ids;
    })
      ≡ roles_for_user other db
unfolding roles_for_user role_with_id
others_kept user_id other ids db h =
    rw
      (
        select-append (λ a. same a.user_id other)
            (select (λ a. not (same a.user_id user_id)) db.user_roles)
            (map (assigned_to user_id) ids),
        select-kept user_id other db.user_roles h,
        select-foreign user_id other ids h,
        append_nil (select (λ a. same a.user_id other) db.user_roles),
      )
      refl

-- Once the roles of a user have been replaced, PermissionGuard lets the user in, with the
-- authorization that is flattened from the roles of the user, exactly if no permission is asked for
-- or one of the roles with the given IDs alone admits the user; and any other user has the roles
-- of before.
pub replace_user_roles-can_activate :
    (is_user : Text → Bool) (user_id : Text) (ids : List Text) (db left : Database)
    (handler class : Option (List Text)) (other : Text)
    → replace_user_roles is_user user_id ids db ≡ ok left
    → same user_id other ≡ false
    → (can_activate handler class (some (user_of (flatten (roles_for_user user_id left)))) ≡ (
        if is_empty (required_of handler class)
          || any (admits (required_of handler class)) (grants_of db ids)
        then ok true
        else err forbidden))
      × (roles_for_user other left ≡ roles_for_user other db)
replace_user_roles-can_activate is_user user_id ids db left handler class other h distinct_users =
    let rows = replaced_rows is_user user_id ids db left h in
    let roles = ap (roles_for_user user_id) rows ∙ roles_for_user-replaced user_id ids db in
    (
      ap (λ roles. can_activate handler class (some (user_of (flatten roles)))) roles
          ∙ can_activate-admits handler class (grants_of db ids),
      ap (roles_for_user other) rows ∙ others_kept user_id other ids db distinct_users,
    )
