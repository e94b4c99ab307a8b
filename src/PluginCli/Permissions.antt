-- ===== src/PluginCli/Permissions.antt =====
-- packages/plugin-cli/src/permission-reconciler.ts: `reconcilePermissions`, which turns the difference
-- between the current and the desired permissions into a plan.
use appspine_packages.Base.{
  ℕ, Bool, true, false, ◌&&◌, ◌||◌, not, Option, none, some, List, [], ◌∷◌, ◌++◌, map, flat_map,
  if◌then◌else◌, ltb, leb, ◌==◌, get_or, is_some, is_empty, all, select, Text, text, say, same,
  includes, decimal, sort_by, by_key, Dict, get, put, String,
}
use appspine_packages.PluginApi.Diagnostics.{PluginDiagnostic, diagnostic, has_errors}
use appspine_packages.PluginApi.Json.{Json, obj, arr, str, num, items, fields, stringify}

pub data PermissionStatus : Type 0 where
  active retired : PermissionStatus

pub record PermissionRecord : Type 0 where
  pub id : Text
  pub display_name : Text
  pub status : PermissionStatus
  pub schema_generation : Option ℕ

-- The fields of a `DesiredPermission` that the reconciler reads.
pub record DesiredPermission : Type 0 where
  pub id : Text
  pub display_name : Text
  pub alias_of : Option Text

pub data PermissionOp : Type 0 where
  no_op : Text → PermissionOp
  add : Text → Text → PermissionOp
  update_display : Text → Text → Text → PermissionOp
  alias : Text → Text → Text → PermissionOp
  retire : Text → PermissionOp

pub record PermissionPlan : Type 0 where
  pub target_generation : ℕ
  pub ops : List PermissionOp
  pub digest : Text

pub record ReconcileResult : Type 0 where
  pub diagnostics : List PluginDiagnostic
  pub plan : Option PermissionPlan

-- `PERMISSION_ID`: three segments between colons, each of lower-case letters, digits and dashes, the
-- first of them no dash.
abbrev is_alphanumeric : ℕ → Bool
is_alphanumeric c = (leb 97 c && leb c 122) || (leb 48 c && leb c 57)

is_segment : Text → Bool
is_segment [] = false
is_segment (c ∷ s) = is_alphanumeric c && all (λ b. is_alphanumeric b || b == 45) s

-- The segments: the text before the first colon, and the rest.
segments : Text → List Text
segments [] = [] ∷ []
segments (c ∷ s) = elim (segments s) [
  | [] ↦ (c ∷ []) ∷ []
  | first ∷ rest ↦ if c == 58 then [] ∷ first ∷ rest else (c ∷ first) ∷ rest
]

unfoldable pub is_permission_id : Text → Bool
unfolding segments is_segment
is_permission_id id = elim (segments id) [
  | a ∷ b ∷ c ∷ [] ↦ is_segment a && (is_segment b && is_segment c)
  | _ ↦ false
]

unfoldable pub newest_generation : List PermissionRecord → ℕ
newest_generation [] = 0
newest_generation (e ∷ rest) =
    let highest = newest_generation rest in
    let own = get_or e.schema_generation 0 in if ltb highest own then own else highest

unfoldable pub permission_report : String → List Text → List Text → PluginDiagnostic
unfolding text
permission_report code message path =
    diagnostic (text code) (say message)
      (record { plugin_id = none; instance_id = none; path = some (say path); severity = none })

unfoldable pub generation_check : List PermissionRecord → ℕ → List PluginDiagnostic
generation_check current target =
    let newest = newest_generation current in
    if ltb target newest
    then permission_report "downgrade-blocked"
        (text "current state is at generation "
          ∷ decimal newest
          ∷ text " but this plan targets "
          ∷ decimal target
          ∷ text ". Applying an older plan over newer state would undo it"
          ∷ [])
        (text "permissions.schemaGeneration" ∷ [])
      ∷ []
    else []

abbrev quoted : Text → List Text → List Text
quoted t rest = text "\"" ∷ t ∷ text "\"" ∷ rest

-- The first loop over the desired permissions, with the IDs seen so far.
unfoldable pub id_checks : List Text → List DesiredPermission → List PluginDiagnostic
id_checks seen [] = []
id_checks seen (e ∷ rest) =
    (if is_permission_id e.id
      then []
      else permission_report "invalid-permission-id"
          (quoted e.id
            (text " is not a namespaced permission ID (<plugin>:<resource>:<action>)" ∷ []))
          (text "permissions." ∷ e.id ∷ [])
        ∷ [])
    ++ ((if includes seen e.id
          then permission_report "duplicate-permission-id"
              (quoted e.id (text " is declared twice. The reconciler never picks one" ∷ []))
              (text "permissions." ∷ e.id ∷ [])
            ∷ []
          else [])
        ++ id_checks (e.id ∷ seen) rest)

index_records : Dict PermissionRecord → List PermissionRecord → Dict PermissionRecord
index_records m [] = m
index_records m (e ∷ rest) = index_records (put e.id e m) rest

-- `new Map(currentState.map((entry) => [entry.id, entry]))`
unfoldable pub current_by_id : List PermissionRecord → Dict PermissionRecord
unfolding index_records
current_by_id current = index_records [] current

-- The two checks of a permission that replaces an old one.
unfoldable pub alias_check_of : Dict PermissionRecord → Text → Text → List PluginDiagnostic
alias_check_of by_id id old =
    (if is_some (get old by_id)
      then []
      else permission_report "alias-target-not-found"
          (quoted id (
            text " aliases "
            ∷ quoted old (text ", which does not exist in the current state" ∷ [])))
          (text "permissions." ∷ id ∷ text ".aliasOf" ∷ [])
        ∷ [])
    ++ (if same old id
        then permission_report "self-alias" (quoted id (text " cannot alias itself" ∷ []))
            (text "permissions." ∷ id ∷ text ".aliasOf" ∷ [])
          ∷ []
        else [])

unfoldable pub alias_check : Dict PermissionRecord → DesiredPermission → List PluginDiagnostic
alias_check by_id e = elim e.alias_of [ none ↦ [] | some old ↦ alias_check_of by_id e.id old ]

unfoldable pub checks : List PermissionRecord → List DesiredPermission → ℕ → List PluginDiagnostic
checks current desired target =
    generation_check current target
    ++ (id_checks [] desired ++ flat_map (alias_check (current_by_id current)) desired)

-- The second loop over the desired permissions.
unfoldable pub op_of : Dict PermissionRecord → DesiredPermission → PermissionOp
op_of by_id e = elim e.alias_of [
  | some old ↦ alias e.id old e.display_name
  | none ↦ elim (get e.id by_id) [
    | none ↦ add e.id e.display_name
    | some current ↦
        if same current.display_name e.display_name
        then no_op e.id
        else update_display e.id current.display_name e.display_name
  ]
]

abbrev pub is_retired : PermissionRecord → Bool
is_retired e = elim e.status [ active ↦ false | retired ↦ true ]

-- `filter((value) => Boolean(value))` drops the empty alias.
unfoldable pub old_id : DesiredPermission → List Text
old_id e = elim e.alias_of [ none ↦ [] | some old ↦ if is_empty old then [] else old ∷ [] ]

unfoldable pub aliased_away : List DesiredPermission → List Text
aliased_away desired = flat_map old_id desired

unfoldable pub retire_ops : List Text → List Text → List PermissionRecord → List PermissionOp
retire_ops seen away current =
    map (λ e. retire e.id)
      (select (λ e. not (includes seen e.id) && (not (includes away e.id) && not (is_retired e)))
        current)

abbrev pub op_id : PermissionOp → Text
op_id (no_op id) = id
op_id (add id name) = id
op_id (update_display id from to) = id
op_id (alias id old name) = id
op_id (retire id) = id

unfoldable pub op_name : PermissionOp → Text
op_name (no_op id) = text "no-op"
op_name (add id name) = text "add"
op_name (update_display id from to) = text "update-display"
op_name (alias id old name) = text "alias"
op_name (retire id) = text "retire"

unfoldable pub plan_ops : List PermissionRecord → List DesiredPermission → List PermissionOp
plan_ops current desired = sort_by (by_key (λ op. op_name op ++ op_id op)) (
    map (op_of (current_by_id current)) desired
    ++ retire_ops (map (λ e. e.id) desired) (aliased_away desired) current)

op_json : PermissionOp → Json
op_json op = obj (
    fields (
      (text "op", str (op_name op)) ∷ (text "id", str (op_id op)) ∷ elim op [
        | no_op id ↦ []
        | add id name ↦ (text "displayName", str name) ∷ []
        | update_display id from to ↦ (text "from", str from) ∷ (text "to", str to) ∷ []
        | alias id old name ↦ (text "aliasOf", str old) ∷ (text "displayName", str name) ∷ []
        | retire id ↦ (text "reason", str (text "not-in-desired-state")) ∷ []
      ]))

unfoldable pub sort_reports : List PluginDiagnostic → List PluginDiagnostic
sort_reports ds =
    sort_by (by_key (λ d. say (d.code ∷ text " " ∷ get_or d.path [] ∷ text " " ∷ d.message ∷ [])))
      ds

module _ (sha256_hex : Text → Text) where
  plan_of : List PermissionRecord → List DesiredPermission → ℕ → PermissionPlan
  unfolding op_json
  plan_of current desired target =
      let ops = plan_ops current desired in
      record {
        target_generation = target;
        ops = ops;
        digest =
            text "sha256:"
            ++ sha256_hex (
                stringify (
                  obj (
                    fields (
                      (text "targetGeneration", num (decimal target))
                      ∷ (text "ops", arr (items (map op_json ops)))
                      ∷ []))));
      }

  unfoldable pub reconcile_permissions :
      List PermissionRecord → List DesiredPermission → ℕ → ReconcileResult
  unfolding plan_of
  reconcile_permissions current desired target =
      let found = checks current desired target in
      record {
        diagnostics = sort_reports found;
        plan = if has_errors found then none else some (plan_of current desired target);
      }
