-- ===== src/PluginCli/Plans.antt =====
-- packages/plugin-cli/src/permission-reconciler.ts: what goes into a plan of `reconcilePermissions`.
use appspine_packages.Base.{
  ℕ, String, ◌≤◌, ◌≡◌, refl, ◌∙◌, sym, ap, inl, inr, Bool, true, false, or-false, ◌&&◌, ◌||◌, not,
  Option, none, some, List, [], ◌∷◌, ◌++◌, map, flat_map, arith, if◌then◌else◌, is_some, any,
  any-append, any-sort_by, by_key, includes-append, All, All-mono, Bool-cases, Option-cases, Text,
  same, same_refl, same_comm, includes, Distinct, get, Dict,
}
use appspine_packages.PluginApi.Diagnostics.{
  PluginDiagnostic, diagnostic, has_errors, has_errors-append,
}
use appspine_packages.PluginCli.Permissions.{
  PermissionRecord, DesiredPermission, PermissionOp, alias, PermissionPlan, is_permission_id,
  newest_generation, permission_report, generation_check, id_checks, current_by_id, alias_check_of,
  alias_check, checks, op_of, is_retired, aliased_away, retire_ops, op_id, op_name, old_id,
  plan_ops, reconcile_permissions,
}

abbrev pub desired_ids : List DesiredPermission → List Text
desired_ids desired = map (λ e. e.id) desired

-- An alias names a current permission other than itself.
abbrev pub has_target : Dict PermissionRecord → DesiredPermission → Bool
has_target by_id e = elim e.alias_of [
  | none ↦ true
  | some old ↦ is_some (get old by_id) && not (same old e.id)
]

split :
    (ds es : List PluginDiagnostic)
    → has_errors (ds ++ es) ≡ false
    → (has_errors ds ≡ false) × (has_errors es ≡ false)
split ds es h = or-false _ _ (sym (has_errors-append ds es) ∙ h)

generation_check-le :
    (current : List PermissionRecord) (target : ℕ)
    → has_errors (generation_check current target) ≡ false
    → newest_generation current ≤ target
unfolding generation_check permission_report diagnostic has_errors
generation_check-le current target h = ground arith

if_reported :
    (b : Bool) (code : String) (message path : List Text)
    → has_errors (if b then [] else permission_report code message path ∷ []) ≡ false
    → b ≡ true
unfolding permission_report diagnostic has_errors
if_reported b code message path h = ground arith

unless_reported :
    (b : Bool) (code : String) (message path : List Text)
    → has_errors (if b then permission_report code message path ∷ [] else []) ≡ false
    → b ≡ false
unfolding permission_report diagnostic has_errors
unless_reported b code message path h = ground arith

-- What the first loop leaves, if it reports nothing.
record IsNew (seen : List Text) (desired : List DesiredPermission) : Type 0 where
  named : All (λ e. is_permission_id e.id ≡ true) desired
  once : Distinct (desired_ids desired)
  unseen : All (λ e. includes seen e.id ≡ false) desired

absent :
    (id : Text) (seen : List Text) (rest : List DesiredPermission)
    → All (λ e. includes (id ∷ seen) e.id ≡ false) rest
    → includes (desired_ids rest) id ≡ false
unfolding includes
absent id seen [] h = refl
absent id seen (e ∷ rest) (here, h) = ground (arith, absent id seen rest h, same_comm id e.id)

not_seen :
    (id : Text) (seen : List Text) (k : Text)
    → includes (id ∷ seen) k ≡ false
    → includes seen k ≡ false
unfolding includes
not_seen id seen k h = ground arith

id_checks-IsNew :
    (seen : List Text) (desired : List DesiredPermission)
    → has_errors (id_checks seen desired) ≡ false
    → IsNew seen desired
unfolding id_checks
id_checks-IsNew seen [] h = record { named = tt; once = tt; unseen = tt }
id_checks-IsNew seen (e ∷ rest) h =
    let (valid, r) = split _ _ h in
    let (new, later) = split _ _ r in
    let rec = id_checks-IsNew (e.id ∷ seen) rest later in
    record {
      named = (if_reported (is_permission_id e.id) _ _ _ valid, rec.named);
      once = (absent e.id seen rest rec.unseen, rec.once);
      unseen = (
        unless_reported (includes seen e.id) _ _ _ new,
        All-mono _ rest (λ d k. not_seen e.id seen d.id k) rec.unseen,
      );
    }

alias_check_of-target :
    (by_id : Dict PermissionRecord) (id old : Text)
    → has_errors (alias_check_of by_id id old) ≡ false
    → (is_some (get old by_id) && not (same old id)) ≡ true
unfolding alias_check_of permission_report diagnostic has_errors
alias_check_of-target by_id id old h = ground arith

alias_check-has_target :
    (by_id : Dict PermissionRecord) (desired : List DesiredPermission)
    → has_errors (flat_map (alias_check by_id) desired) ≡ false
    → All (λ e. has_target by_id e ≡ true) desired
unfolding alias_check
alias_check-has_target by_id [] h = tt
alias_check-has_target by_id (e ∷ rest) h =
    let (here, later) = split (alias_check by_id e) (flat_map (alias_check by_id) rest) h in
    (
      elim (Option-cases e.alias_of) [
        | inl n ↦ rw n refl
        | inr (old, n) ↦ rw n (alias_check_of-target by_id e.id old (rw n at here))
      ],
      alias_check-has_target by_id rest later,
    )

-- A plan is made only of valid input: its target is no older than the current state, the desired IDs
-- are namespaced and different, and each alias names a current permission other than itself.
pub reconcile_permissions_valid :
    (sha256_hex : Text → Text) (current : List PermissionRecord) (desired : List DesiredPermission)
    (target : ℕ) (plan : PermissionPlan)
    → (reconcile_permissions sha256_hex current desired target).plan ≡ some plan
    → (newest_generation current ≤ target)
      × All (λ e. is_permission_id e.id ≡ true) desired
      × Distinct (desired_ids desired)
      × All (λ e. has_target (current_by_id current) e ≡ true) desired
unfolding reconcile_permissions checks
reconcile_permissions_valid sha256_hex current desired target plan h =
    let clean : has_errors (checks current desired target) ≡ false =
      elim (Bool-cases (has_errors (checks current desired target))) [ inl e ↦ cc | inr e ↦ e ] in
    let (older, r) = split (generation_check current target) _ clean in
    let (ids, aliases) = split (id_checks [] desired) _ r in
    let new = id_checks-IsNew [] desired ids in
    (
      generation_check-le current target older,
      new.named,
      new.once,
      alias_check-has_target (current_by_id current) desired aliases,
    )

-- An operation that keeps, renames, replaces or retires the permission.
abbrev pub accounts_for : Text → PermissionOp → Bool
accounts_for id op = same (op_id op) id || elim op [ alias new old name ↦ same old id | _ ↦ false ]

op_of-id : (by_id : Dict PermissionRecord) (e : DesiredPermission) → op_id (op_of by_id e) ≡ e.id
unfolding op_of
op_of-id by_id e = ground arith

any-op_of :
    (by_id : Dict PermissionRecord) (desired : List DesiredPermission) (id : Text)
    → (not (includes (desired_ids desired) id) || any (accounts_for id) (map (op_of by_id) desired))
      ≡ true
unfolding includes
any-op_of by_id [] id = refl
any-op_of by_id (e ∷ rest) id = ground (arith, any-op_of by_id rest id, op_of-id by_id e)

accounts_for-old_id :
    (by_id : Dict PermissionRecord) (e : DesiredPermission) (id : Text)
    → (not (includes (old_id e) id) || accounts_for id (op_of by_id e)) ≡ true
unfolding old_id includes op_of
accounts_for-old_id by_id e id = elim (Option-cases e.alias_of) [
  | inl n ↦ rw n refl
  | inr (old, n) ↦ rw n (ground arith)
]

any-aliased_away :
    (by_id : Dict PermissionRecord) (desired : List DesiredPermission) (id : Text)
    → (not (includes (aliased_away desired) id)
        || any (accounts_for id) (map (op_of by_id) desired))
      ≡ true
unfolding aliased_away includes
any-aliased_away by_id [] id = refl
any-aliased_away by_id (e ∷ rest) id = ground (
  arith,
  any-aliased_away by_id rest id,
  accounts_for-old_id by_id e id,
  includes-append (old_id e) (aliased_away rest) id,
)

any-retire_ops :
    (seen away : List Text) (current : List PermissionRecord)
    → All
        (λ e.
          (includes seen e.id
            || (includes away e.id
                || (is_retired e || any (accounts_for e.id) (retire_ops seen away current))))
          ≡ true)
        current
unfolding retire_ops
any-retire_ops seen away [] = tt
any-retire_ops seen away (e ∷ rest) = (
  ground (arith, same_refl e.id),
  All-mono _ rest (λ d h. ground arith) (any-retire_ops seen away rest),
)

plan_ops_complete :
    (current : List PermissionRecord) (desired : List DesiredPermission)
    → All (λ e. (is_retired e || any (accounts_for e.id) (plan_ops current desired)) ≡ true) current
unfolding plan_ops
plan_ops_complete current desired =
    let by_id = current_by_id current in
    let kept = map (op_of by_id) desired in
    let gone = retire_ops (desired_ids desired) (aliased_away desired) current in
    All-mono _ current
      (λ e h. ground (
        arith,
        h,
        any-op_of by_id desired e.id,
        any-aliased_away by_id desired e.id,
        any-append (accounts_for e.id) kept gone,
        any-sort_by (accounts_for e.id) (by_key (λ op. op_name op ++ op_id op)) (kept ++ gone),
      ))
      (any-retire_ops (desired_ids desired) (aliased_away desired) current)

planned_ops : Option PermissionPlan → List PermissionOp
planned_ops none = []
planned_ops (some plan) = plan.ops

-- Nothing vanishes silently: in the operations of a plan every current permission that is not retired
-- yet keeps its ID, is replaced by an alias, or is retired.
pub reconcile_permissions_complete :
    (sha256_hex : Text → Text) (current : List PermissionRecord) (desired : List DesiredPermission)
    (target : ℕ) (plan : PermissionPlan)
    → (reconcile_permissions sha256_hex current desired target).plan ≡ some plan
    → All (λ e. (is_retired e || any (accounts_for e.id) plan.ops) ≡ true) current
unfolding reconcile_permissions planned_ops
reconcile_permissions_complete sha256_hex current desired target plan h =
    elim (Bool-cases (has_errors (checks current desired target))) [
      | inl e ↦ cc
      | inr e ↦ rw (ap planned_ops (rw e at h)) at (plan_ops_complete current desired)
    ]
