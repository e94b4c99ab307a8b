-- ===== src/PluginApi/Inventory.antt =====
-- packages/plugin-api/src/inventory.ts
use appspine_packages.Base.{
  Bool, Option, none, some, [], ◌∷◌, if◌then◌else◌, ◌==◌, get_or, Text, text, say, same, cut,
}

pub record PluginInventoryEntry : Type 0 where
  pub plugin : Text
  pub instance_id : Text
  pub enabled : Bool
  pub required : Bool
  pub config_ref : Option Text

abbrev pub default_instance_id : Text
default_instance_id = text "default"

unfoldable pub instance_key : Text → Text → Text
instance_key plugin_id instance_id =
    if same instance_id default_instance_id
    then plugin_id
    else say (plugin_id ∷ text "#" ∷ instance_id ∷ [])

pub record InstanceName : Type 0 where
  pub plugin_id : Text
  pub instance_id : Text

unfoldable pub parse_instance_key : Text → InstanceName
parse_instance_key key =
    let (front, back) = cut b'#' key in
    record { plugin_id = front; instance_id = get_or back default_instance_id }

-- `lastIndexOf('/')`, and what stands behind it.
behind_last_slash : Text → Option Text
behind_last_slash [] = none
behind_last_slash (c ∷ s) = elim (behind_last_slash s) [
  | some r ↦ some r
  | none ↦ if c == b'/' then some s else none
]

unfoldable pub inventory_plugin_id_of : Text → Text
unfolding behind_last_slash
inventory_plugin_id_of ref = get_or (behind_last_slash ref) ref
