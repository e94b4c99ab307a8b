-- ===== src/PluginApi/Resolver/Requirements.antt =====
-- packages/plugin-api/src/resolver/index.ts: the loop of `resolvePlugins` that resolves what each
-- instance requires.
use appspine_packages.Base.{
  not, some, List, [], ◌∷◌, ◌++◌, if◌then◌else◌, get_or, is_empty, select, Text, text, say, same,
  includes, sorted, Dict, get,
}
use appspine_packages.PluginApi.Capabilities.{parse_qualified_capability}
use appspine_packages.PluginApi.Diagnostics.{info, PluginDiagnostic, diagnostic}
use appspine_packages.PluginApi.Resolver.Records.{ResolvedPluginInstance, diagnose, quoted}

-- `keys.filter((key) => key !== instance.key)`
unfoldable pub external_providers : Dict (List Text) → Text → Text → List Text
external_providers providers key capability =
    select (λ other. not (same other key)) (get_or (get capability providers) [])

-- `set.add` for each key.
unfoldable pub add_all : List Text → List Text → List Text
add_all set [] = set
add_all set (k ∷ ks) = add_all (if includes set k then set else set ++ k ∷ []) ks

unfoldable pub missing_required : ResolvedPluginInstance → Text → PluginDiagnostic
missing_required i capability =
    let wanted = get_or (parse_qualified_capability capability).instance_id [] in
    diagnose "missing-required-capability"
      (quoted i.key (
        text " requires "
        ∷ quoted capability (
            (if is_empty wanted
              then []
              else say (text " (instance " ∷ quoted wanted (text ")" ∷ [])))
            ∷ text " and nothing provides it"
            ∷ [])))
      (some i.plugin_id) (some i.instance_id) (text "requires")

unfoldable pub unresolved_optional : ResolvedPluginInstance → Text → PluginDiagnostic
unresolved_optional i capability =
    diagnostic (text "unresolved-optional-capability")
      (say (quoted i.key (text " runs without optional capability " ∷ quoted capability [])))
      (record {
        plugin_id = some i.plugin_id;
        instance_id = some i.instance_id;
        path = some (text "optionalRequires");
        severity = some info;
      })

-- What the two inner loops build up for one instance.
pub record Needs : Type 0 where
  pub depends_on : List Text
  pub unresolved : List Text
  pub diagnostics : List PluginDiagnostic

module _ (host : List Text) (providers : Dict (List Text)) (i : ResolvedPluginInstance) where
  unfoldable pub require : Text → Needs → Needs
  require capability needs =
      let external = external_providers providers i.key capability in
      if includes host capability
      then needs
      else if is_empty external
      then record needs { diagnostics = needs.diagnostics ++ missing_required i capability ∷ [] }
      else record needs { depends_on = add_all needs.depends_on external }

  unfoldable pub require_optional : Text → Needs → Needs
  require_optional capability needs =
      let external = external_providers providers i.key capability in
      if includes host capability
      then needs
      else if is_empty external
      then record needs {
        unresolved = needs.unresolved ++ capability ∷ [];
        diagnostics = needs.diagnostics ++ unresolved_optional i capability ∷ [];
      }
      else record needs { depends_on = add_all needs.depends_on external }

  unfoldable pub require_all : List Text → Needs → Needs
  require_all [] needs = needs
  require_all (capability ∷ rest) needs = require_all rest (require capability needs)

  unfoldable pub require_all_optional : List Text → Needs → Needs
  require_all_optional [] needs = needs
  require_all_optional (capability ∷ rest) needs =
      require_all_optional rest (require_optional capability needs)

  unfoldable pub needs_of : Needs
  needs_of =
      require_all_optional i.optional_requires
        (require_all i.requires (record { depends_on = []; unresolved = []; diagnostics = [] }))

-- The instances with what they depend on, and the diagnostics.
pub record Resolved : Type 0 where
  pub instances : List ResolvedPluginInstance
  pub diagnostics : List PluginDiagnostic

unfoldable pub with_needs : ResolvedPluginInstance → Needs → ResolvedPluginInstance
with_needs i needs = record i {
  depends_on = sorted needs.depends_on;
  unresolved_optional = sorted (i.unresolved_optional ++ needs.unresolved);
}

unfoldable pub resolve_needs : List Text → Dict (List Text) → List ResolvedPluginInstance → Resolved
resolve_needs host providers [] = record { instances = []; diagnostics = [] }
resolve_needs host providers (i ∷ rest) =
    let needs = needs_of host providers i in
    let others = resolve_needs host providers rest in
    record {
      instances = with_needs i needs ∷ others.instances;
      diagnostics = needs.diagnostics ++ others.diagnostics;
    }
