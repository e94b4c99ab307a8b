-- ===== src/Rbac/Protected.antt =====
-- packages/rbac/src/roles/roles.service.ts: the roles that the service cannot take away.
use appspine_packages.Base.{
  ◌≡◌, refl, sym, ap, ◌∙◌, subst, inl, inr, Bool, true, false, ◌||◌, not, Option, none, some, List,
  [], ◌∷◌, arith, find, any, ltb, Bool-cases, find-true, find-append, find-select, Text, text, say,
  same, same→eq, Result, ok, err, Result-cases, >>-eq-ok, guard-eq-ok, ok-inj,
}
use appspine_packages.Rbac.Roles.{
  Role, Database, CreateRoleDto, UpdateRoleDto, RoleResponse, RoleError, conflict, bad_request,
  database_error, user_count, api_key_count, role_with_id, assert_permissions_editable,
  changed_role, with_permissions, new_role, check_rows, create, write_update, write_permissions,
  answered, update, replace_permissions, remove,
}
use appspine_packages.Rbac.Kept.{
  is_protected, Kept, Stays, Kept-refl, Kept-trans, update_where-Stays, found_role-eq,
  found_role-some, editable-Kept,
}

-- A request to the service.
pub data Request : Type 0 where
  create_role : CreateRoleDto → Text → Request
  update_role : Text → UpdateRoleDto → Request
  set_permissions : Text → List Text → Request
  remove_role : Text → Request

abbrev created : Database → Result RoleError (RoleResponse × Database) → Database
created db (ok answer) = answer.1
created db (err e) = db

abbrev removed : Database → Result RoleError Database → Database
removed db (ok left) = left
removed db (err e) = db

module _ (is_permission : Text → Bool) where
  write_update-Stays :
      (id other : Text) (dto : UpdateRoleDto) (permissions : Option (List Text))
      (db left : Database) (r : Role)
      → write_update is_permission other dto permissions db ≡ ok left
      → role_with_id id db ≡ some r
      → Stays id r db left
  unfolding write_update changed_role with_permissions
  write_update-Stays id other dto none db left r h found =
      let (role, there, rest) = found_role-some other db _ h in
      subst (Stays id r db) (ok-inj rest) (
        update_where-Stays id other (changed_role dto) db r (λ row. refl)
          (λ k. record { id = refl; name = refl; is_system = refl; permissions = λ a. refl }) found)
  write_update-Stays id other dto (some permissions) db left r h found =
      let (role, there, rest) = found_role-some other db _ h in
      let (editable, later) = >>-eq-ok (assert_permissions_editable role) _ rest in
      let (_, done) = >>-eq-ok (check_rows is_permission permissions) _ later in
      subst (Stays id r db) (ok-inj done) (
        update_where-Stays id other (λ r. with_permissions permissions (changed_role dto r)) db r
          (λ row. refl)
          (λ k.
            editable-Kept role r _ editable (found_role-eq id other db role r found there k) refl
              refl refl)
          found)

  write_permissions-Stays :
      (id other : Text) (permissions : List Text) (db left : Database) (r : Role)
      → write_permissions is_permission other permissions db ≡ ok left
      → role_with_id id db ≡ some r
      → Stays id r db left
  unfolding write_permissions with_permissions
  write_permissions-Stays id other permissions db left r h found =
      let (role, there, rest) = found_role-some other db _ h in
      let (editable, later) = >>-eq-ok (assert_permissions_editable role) _ rest in
      let (_, done) = >>-eq-ok (check_rows is_permission permissions) _ later in
      subst (Stays id r db) (ok-inj done) (
        update_where-Stays id other (with_permissions permissions) db r (λ row. refl)
          (λ k.
            editable-Kept role r _ editable (found_role-eq id other db role r found there k) refl
              refl refl)
          found)

  create-Stays :
      (id : Text) (dto : CreateRoleDto) (fresh : Text) (db : Database)
      (answer : RoleResponse × Database) (r : Role)
      → create is_permission dto fresh db ≡ ok answer
      → role_with_id id db ≡ some r
      → Stays id r db answer.1
  unfolding create role_with_id
  create-Stays id dto fresh db answer r h found =
      let name_free = not (any (λ r. same r.name dto.name) db.roles) in
      let id_free = not (any (λ r. same r.id fresh) db.roles) in
      let (_, later) =
        guard-eq-ok name_free
          (conflict (say (text "Role \"" ∷ dto.name ∷ text "\" already exists" ∷ []))) _ h in
      let (_, rest) = guard-eq-ok id_free database_error _ later in
      let (_, done) = >>-eq-ok (check_rows is_permission dto.permissions) _ rest in
      let rows = ap (λ a. a.1.roles) (ok-inj done) in
      (
        r,
        subst (λ roles. find (λ r. same r.id id) roles ≡ some r) rows
            (find-append _ db.roles (new_role dto fresh ∷ []) r found),
        Kept-refl r,
        ap (λ a. a.1.user_roles) (sym (ok-inj done)),
        ap (λ a. a.1.api_key_roles) (sym (ok-inj done)),
      )

-- A role that the guards of `remove` let go is not the one in question.
unprotected-elsewhere :
    (id other : Text) (db : Database) (role r : Role)
    → role_with_id id db ≡ some r
    → role_with_id other db ≡ some role
    → is_protected db r ≡ true
    → not role.is_system ≡ true
    → not (ltb 0 (user_count other db) || ltb 0 (api_key_count other db)) ≡ true
    → same r.id other ≡ false
unprotected-elsewhere id other db role r found there protected not_system unassigned =
    elim (Bool-cases (same r.id other)) [
      | inl e ↦
          let own = same→eq r.id other e in
          let here = found_role-eq id other db role r found there e in
          let still : r.is_system || (ltb 0 (user_count other db) || ltb 0 (api_key_count other db))
              ≡ true =
            rw own at protected in
          let no_system : not r.is_system ≡ true = rw here at not_system in ground arith
      | inr e ↦ e
    ]

remove-Stays :
    (id other : Text) (db left : Database) (r : Role)
    → remove other db ≡ ok left
    → is_protected db r ≡ true
    → role_with_id id db ≡ some r
    → Stays id r db left
unfolding remove role_with_id
remove-Stays id other db left r h protected found =
    let (role, there, rest) = found_role-some other db _ h in
    let (not_system, later) =
      guard-eq-ok (not role.is_system) (bad_request (text "System roles cannot be deleted")) _
        rest in
    let (unassigned, done) =
      guard-eq-ok (not (ltb 0 (user_count other db) || ltb 0 (api_key_count other db)))
        (bad_request (text "Cannot delete a role that is assigned to users or API keys")) _ later in
    let elsewhere =
      unprotected-elsewhere id other db role r found there protected not_system unassigned in
    let own = same→eq r.id id (find-true _ db.roles r found) in
    let rows = ap (λ d. d.roles) (ok-inj done) in
    (
      r,
      subst (λ roles. find (λ r. same r.id id) roles ≡ some r) rows
          (find-select _ _ db.roles r (λ row k. rw (same→eq row.id id k ∙ sym own, elsewhere) refl)
            found),
      Kept-refl r,
      ap (λ d. d.user_roles) (sym (ok-inj done)),
      ap (λ d. d.api_key_roles) (sym (ok-inj done)),
    )

module _ (is_permission : Text → Bool) where
  unfoldable pub act : Request → Database → Database
  act (create_role dto id) db = created db (create is_permission dto id db)
  act (update_role id dto) db = (update is_permission id dto db).1
  act (set_permissions id permissions) db = (replace_permissions is_permission id permissions db).1
  act (remove_role id) db = removed db (remove id db)

  unfoldable pub act_all : List Request → Database → Database
  unfolding act
  act_all [] db = db
  act_all (a ∷ requests) db = act_all requests (act a db)

  answered-Stays :
      (id other : Text) (db : Database) (r : Role) (result : Result RoleError Database)
      → role_with_id id db ≡ some r
      → ((left : Database) → result ≡ ok left → Stays id r db left)
      → Stays id r db (answered is_permission other db result).1
  unfolding answered
  answered-Stays id other db r (ok left) found stays = stays left refl
  answered-Stays id other db r (err e) found stays = (r, found, Kept-refl r, refl, refl)

  act-Stays :
      (a : Request) (id : Text) (db : Database) (r : Role)
      → role_with_id id db ≡ some r
      → is_protected db r ≡ true
      → Stays id r db (act a db)
  unfolding act update replace_permissions
  act-Stays (create_role dto fresh) id db r found p =
      elim (Result-cases (create is_permission dto fresh db)) [
        | inl (answer, e) ↦ rw e (create-Stays is_permission id dto fresh db answer r e found)
        | inr (x, e) ↦ rw e (r, found, Kept-refl r, refl, refl)
      ]
  act-Stays (update_role other dto) id db r found p =
      answered-Stays id other db r _ found
        (λ left e. write_update-Stays is_permission id other dto dto.permissions db left r e found)
  act-Stays (set_permissions other permissions) id db r found p =
      answered-Stays id other db r _ found
        (λ left e. write_permissions-Stays is_permission id other permissions db left r e found)
  act-Stays (remove_role other) id db r found p = elim (Result-cases (remove other db)) [
    | inl (left, e) ↦ rw e (remove-Stays id other db left r e p found)
    | inr (x, e) ↦ rw e (r, found, Kept-refl r, refl, refl)
  ]

  is_protected-Stays :
      (before left : Database) (r after : Role)
      → Kept r after
      → left.user_roles ≡ before.user_roles
      → left.api_key_roles ≡ before.api_key_roles
      → is_protected before r ≡ true
      → is_protected left after ≡ true
  unfolding user_count api_key_count
  is_protected-Stays before left r after k users keys p = rw (k.is_system, k.id, users, keys) p

  -- Whatever requests come, a role of the system, and a role that a user or an API key has, stays
  -- in the table under its ID with its name, and the permissions of such a role named ADMIN stay.
  pub act_all-Kept :
      (requests : List Request) (id : Text) (db : Database) (r : Role)
      → role_with_id id db ≡ some r
      → is_protected db r ≡ true
      → (after : Role) × (role_with_id id (act_all requests db) ≡ some after) × Kept r after
  unfolding act_all
  act_all-Kept [] id db r found p = (r, found, Kept-refl r)
  act_all-Kept (a ∷ requests) id db r found p =
      let (next, there, kept, users, keys) = act-Stays a id db r found p in
      let (after, last, later) =
        act_all-Kept requests id (act a db) next there
          (is_protected-Stays db (act a db) r next kept users keys p) in
      (after, last, Kept-trans r next after kept later)
