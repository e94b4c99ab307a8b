-- ===== src/Rbac/Kept.antt =====
-- packages/rbac/src/roles/roles.service.ts: what a role keeps while the others change.
use appspine_packages.Base.{
  ◌≡◌, refl, sym, ap, ◌∙◌, Bool, true, false, ◌||◌, some, if◌then◌else◌, ltb, some-inj, find-true,
  find-map_same, Text, same, same→eq, Result, ok, need-eq-ok, ◌>>=◌,
}
use appspine_packages.Rbac.Policy.{system_admin_role}
use appspine_packages.Rbac.Roles.{
  Role, Database, RoleError, user_count, api_key_count, role_with_id, found_role,
  assert_permissions_editable, update_where,
}

-- A role of the system, or one that a user or an API key has.
abbrev pub is_protected : Database → Role → Bool
is_protected db r = r.is_system || (ltb 0 (user_count r.id db) || ltb 0 (api_key_count r.id db))

-- What a request may not change in a role.
pub record Kept (before after : Role) : Type 0 where
  pub id : after.id ≡ before.id
  pub name : after.name ≡ before.name
  pub is_system : after.is_system ≡ before.is_system
  pub permissions :
      same before.name system_admin_role ≡ true → after.permissions ≡ before.permissions

pub Kept-refl : (r : Role) → Kept r r
Kept-refl r = record { id = refl; name = refl; is_system = refl; permissions = λ h. refl }

pub Kept-trans : (a b c : Role) → Kept a b → Kept b c → Kept a c
Kept-trans a b c k l = record {
  id = l.id ∙ k.id;
  name = l.name ∙ k.name;
  is_system = l.is_system ∙ k.is_system;
  permissions = λ h. l.permissions (rw k.name h) ∙ k.permissions h;
}

-- The role is still there, with what it keeps, and the assignments are those before.
abbrev pub Stays : Text → Role → Database → Database → Type 0
Stays id r before left =
    (after : Role) × (role_with_id id left ≡ some after)
    × Kept r after
    × (left.user_roles ≡ before.user_roles)
    × (left.api_key_roles ≡ before.api_key_roles)

Kept-if : (b : Bool) (r s : Role) → (b ≡ true → Kept r s) → Kept r (if b then s else r)
Kept-if true r s h = h refl
Kept-if false r s h = Kept-refl r

changed_id :
    (change : Role → Role) (row : Role) (b : Bool) (id : Text)
    → (change row).id ≡ row.id
    → same (if b then change row else row).id id ≡ same row.id id
changed_id change row true id h = rw h refl
changed_id change row false id h = refl

-- A change of one row that keeps what a role keeps.
pub update_where-Stays :
    (id other : Text) (change : Role → Role) (db : Database) (r : Role)
    → ((row : Role) → (change row).id ≡ row.id)
    → (same r.id other ≡ true → Kept r (change r))
    → role_with_id id db ≡ some r
    → Stays id r db (update_where other change db)
unfolding role_with_id update_where
update_where-Stays id other change db r same_id keeps found = (
  _,
  find-map_same _ _ db.roles r (λ row. changed_id change row (same row.id other) id (same_id row))
      found,
  Kept-if (same r.id other) r (change r) keeps,
  refl,
  refl,
)

-- The role that an operation found is the role in question, where the IDs are the same.
pub found_role-eq :
    (id other : Text) (db : Database) (role r : Role)
    → role_with_id id db ≡ some r
    → role_with_id other db ≡ some role
    → same r.id other ≡ true
    → role ≡ r
unfolding role_with_id
found_role-eq id other db role r found here h =
    let own = same→eq r.id id (find-true _ db.roles r found) in
    let both = sym own ∙ same→eq r.id other h in
    some-inj (sym here ∙ (ap (λ k. role_with_id k db) (sym both) ∙ found))

pub found_role-some :
    {B : Type 0} (id : Text) (db : Database) (next : Role → Result RoleError B) {b : B}
    → (found_role id db >>= next) ≡ ok b
    → (role : Role) × (role_with_id id db ≡ some role) × (next role ≡ ok b)
unfolding found_role
found_role-some id db next h = need-eq-ok (role_with_id id db) _ next h

-- Permissions are set only in a role that is not the administrators'.
pub editable-Kept :
    (role r after : Role)
    → assert_permissions_editable role ≡ ok tt
    → role ≡ r
    → after.id ≡ r.id
    → after.name ≡ r.name
    → after.is_system ≡ r.is_system
    → Kept r after
unfolding assert_permissions_editable
editable-Kept role r after h e i n s = record {
  id = i;
  name = n;
  is_system = s;
  permissions = λ admin. cc (rw (e, admin) at h);
}
