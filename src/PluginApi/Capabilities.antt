-- ===== src/PluginApi/Capabilities.antt =====
-- packages/plugin-api/src/capabilities.ts: instance-qualified capability names.
use appspine_packages.Base.{Option, [], ◌∷◌, Text, text, say, cut}

unfoldable pub qualify_capability : Text → Text → Text
qualify_capability capability instance_id = say (capability ∷ text "#" ∷ instance_id ∷ [])

pub record QualifiedCapability : Type 0 where
  pub capability : Text
  pub instance_id : Option Text

unfoldable pub parse_qualified_capability : Text → QualifiedCapability
parse_qualified_capability qualified =
    let (front, back) = cut b'#' qualified in record { capability = front; instance_id = back }
