-- ===== src/PluginApi/Resolver/Checks.antt =====
-- packages/plugin-api/src/resolver/index.ts: the checks of `resolvePlugins` over all instances, and the
-- map of capability providers.
use appspine_packages.Base.{
  decimal, join, ℕ, ◌+◌, Bool, true, false, ◌&&◌, not, none, some, List, [], ◌∷◌, ◌++◌, map,
  if◌then◌else◌, get_or, has_key, length, ltb, select, flat_map, Text, text, say, cut, includes,
  dedupe, sorted, sort_by, by_key, Dict, get, push_at,
}
use appspine_packages.PluginApi.Diagnostics.{PluginDiagnostic}
use appspine_packages.PluginApi.Manifest.{singleton, multiple, ReplacementDeclaration}
use appspine_packages.PluginApi.Resolver.Records.{ResolvedPluginInstance, diagnose, quoted}

abbrev list_text : List Text → Text
list_text ts = join (text ", ") ts

-- `byPluginId`
unfoldable pub group_by_plugin :
    List ResolvedPluginInstance
    → Dict (List ResolvedPluginInstance)
    → Dict (List ResolvedPluginInstance)
group_by_plugin [] groups = groups
group_by_plugin (i ∷ rest) groups = group_by_plugin rest (push_at i.plugin_id i groups)

is_singleton : List ResolvedPluginInstance → Bool
is_singleton [] = false
is_singleton (i ∷ rest) = elim i.cardinality [ singleton ↦ true | multiple ↦ false ]

unfoldable pub cardinality_of : Text × List ResolvedPluginInstance → List PluginDiagnostic
unfolding is_singleton
cardinality_of (plugin_id, list) =
    if is_singleton list && ltb 1 (length list)
    then diagnose "singleton-cardinality-violation"
        (quoted plugin_id (
          text " is a singleton but "
          ∷ decimal (length list)
          ∷ text " instances are enabled: "
          ∷ list_text (sorted (map (λ i. i.key) list))
          ∷ []))
        (some plugin_id) none (text "cardinality")
      ∷ []
    else []

unfoldable pub cardinality_check : List ResolvedPluginInstance → List PluginDiagnostic
cardinality_check instances =
    flat_map cardinality_of (sort_by (by_key (λ e. e.0)) (group_by_plugin instances []))

abbrev pub enabled_plugin_ids : List ResolvedPluginInstance → List Text
enabled_plugin_ids instances = map (λ i. i.plugin_id) instances

unfoldable pub conflict_check_of : List Text → ResolvedPluginInstance → List PluginDiagnostic
conflict_check_of enabled i =
    flat_map
      (λ conflicting.
        if includes enabled conflicting
        then diagnose "plugin-conflict"
            (quoted i.plugin_id (
              text " declares a conflict with "
              ∷ quoted conflicting (text ", which is also enabled" ∷ [])))
            (some i.plugin_id) (some i.instance_id) (text "conflicts")
          ∷ []
        else [])
      (get_or i.manifest.conflicts [])

unfoldable pub conflict_check : List ResolvedPluginInstance → List PluginDiagnostic
unfolding conflict_check_of
conflict_check instances = flat_map (conflict_check_of (enabled_plugin_ids instances)) instances

-- `providers`: capability to the keys of the instances that provide it.
unfoldable pub add_provider : Text → List Text → Dict (List Text) → Dict (List Text)
add_provider key [] providers = providers
add_provider key (capability ∷ rest) providers =
    add_provider key rest (push_at capability key providers)

unfoldable pub providers_from : Dict (List Text) → List ResolvedPluginInstance → Dict (List Text)
unfolding add_provider
providers_from providers [] = providers
providers_from providers (i ∷ rest) = providers_from (add_provider i.key i.provides providers) rest

unfoldable pub providers_of : List ResolvedPluginInstance → Dict (List Text)
unfolding providers_from
providers_of instances = providers_from [] instances

unfoldable pub replaced_plugins : List ResolvedPluginInstance → List Text
replaced_plugins instances = flat_map (λ i. map (λ r. r.plugin) i.replaces) instances

unfoldable pub contested_capability : List Text → Text × List Text → List PluginDiagnostic
contested_capability replaced (capability, keys) =
    let owner_ids = dedupe (map (λ key. (cut b'#' key).0) keys) in
    let contested = select (λ id. not (includes replaced id)) owner_ids in
    if ltb (length keys) 2
    then []
    else if ltb (length owner_ids) 2
    then []
    else if ltb (length contested) 2
    then []
    else diagnose "duplicate-capability-provider"
        (quoted capability (
          text " is provided by "
          ∷ list_text (sorted keys)
          ∷ text " with no replaces declaration"
          ∷ []))
        none none (text "provides")
      ∷ []

unfoldable pub provider_check :
    List ResolvedPluginInstance → Dict (List Text) → List PluginDiagnostic
provider_check instances providers =
    flat_map (contested_capability (replaced_plugins instances))
      (sort_by (by_key (λ e. e.0)) providers)

unfoldable pub host_override_check : List Text → Dict (List Text) → List PluginDiagnostic
host_override_check host providers =
    flat_map
      (λ capability.
        if has_key capability providers
        then diagnose "host-capability-overridden"
            (quoted capability (
              text " is host-owned but also provided by "
              ∷ list_text (sorted (get_or (get capability providers) []))
              ∷ []))
            none none (text "provides")
          ∷ []
        else [])
      host

replaces_targets :
    List Text → ResolvedPluginInstance → ℕ → List ReplacementDeclaration → List PluginDiagnostic
replaces_targets enabled i index [] = []
replaces_targets enabled i index (r ∷ rest) =
    (if includes enabled r.plugin
      then []
      else diagnose "replaces-target-missing"
          (quoted i.key (
            text " replaces a contribution of "
            ∷ quoted r.plugin (text ", which is not enabled" ∷ [])))
          (some i.plugin_id) (some i.instance_id)
          (say (text "replaces[" ∷ decimal index ∷ text "].plugin" ∷ []))
        ∷ [])
    ++ replaces_targets enabled i (index + 1) rest

unfoldable pub replaces_check : List ResolvedPluginInstance → List PluginDiagnostic
unfolding replaces_targets
replaces_check instances =
    flat_map (λ i. replaces_targets (enabled_plugin_ids instances) i 0 i.replaces) instances
