-- ===== src/PluginCli/Samples.antt =====
-- A current state, a desired one, and the plan between them.
use appspine_packages.Base.{
  String, ◌≤◌, ◌≡◌, refl, true, ◌||◌, Option, none, some, List, [], ◌∷◌, any, All, Text, text, same,
  includes, Distinct, get, put, before, sort_by, insert,
}
use appspine_packages.PluginApi.Diagnostics.{has_errors}
use appspine_packages.PluginCli.Permissions.{
  PermissionRecord, active, DesiredPermission, add, alias, retire, PermissionPlan, ReconcileResult,
  is_permission_id, newest_generation, generation_check, id_checks, current_by_id, alias_check_of,
  alias_check, checks, op_of, is_retired, old_id, aliased_away, retire_ops, op_name, plan_ops,
  reconcile_permissions,
}
use appspine_packages.PluginCli.Plans.{
  desired_ids, has_target, accounts_for, reconcile_permissions_valid,
  reconcile_permissions_complete,
}

abbrev constant_hex : Text → Text
constant_hex t = text "00"

abbrev known : String → PermissionRecord
known id = record {
  id = text id;
  display_name = text id;
  status = active;
  schema_generation = some 1;
}

abbrev current : List PermissionRecord
current = known "mail:queue:read" ∷ known "mail:queue:drop" ∷ []

abbrev wanted : String → Option Text → DesiredPermission
wanted id old = record { id = text id; display_name = text id; alias_of = old }

abbrev desired : List DesiredPermission
desired =
    wanted "mail:queue:view" (some (text "mail:queue:read")) ∷ wanted "mail:queue:send" none ∷ []

abbrev result : ReconcileResult
result = reconcile_permissions constant_hex current desired 1

abbrev no_plan : PermissionPlan
no_plan = record { target_generation = 0; ops = []; digest = [] }

abbrev plan : PermissionPlan
plan = elim result.plan [ none ↦ no_plan | some p ↦ p ]

ops_test :
    plan_ops current desired
    ≡ add (text "mail:queue:send") (text "mail:queue:send")
      ∷ alias (text "mail:queue:view") (text "mail:queue:read") (text "mail:queue:view")
      ∷ retire (text "mail:queue:drop")
      ∷ []
unfolding plan_ops op_of current_by_id old_id aliased_away retire_ops op_name text same includes get
    put before sort_by insert
ops_test = refl

planned : result.plan ≡ some plan
unfolding reconcile_permissions checks generation_check newest_generation id_checks is_permission_id
    current_by_id alias_check alias_check_of has_errors text same includes get put
planned = refl

reconcile_permissions_valid_example :
    (newest_generation current ≤ 1)
    × All (λ e. is_permission_id e.id ≡ true) desired
    × Distinct (desired_ids desired)
    × All (λ e. has_target (current_by_id current) e ≡ true) desired
reconcile_permissions_valid_example =
    reconcile_permissions_valid constant_hex current desired 1 plan planned

reconcile_permissions_complete_example :
    All (λ e. (is_retired e || any (accounts_for e.id) plan.ops) ≡ true) current
reconcile_permissions_complete_example =
    reconcile_permissions_complete constant_hex current desired 1 plan planned
