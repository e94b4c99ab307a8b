-- ===== src/PluginApi/Resolver/Graph.antt =====
-- packages/plugin-api/src/resolver/index.ts: `resolvePlugins` as a whole, the digest of a graph and the
-- order of shutdown.
use appspine_packages.Base.{
  Option, none, some, List, [], ◌∷◌, ◌++◌, map, reverse, if◌then◌else◌, get_or, Text, text, same,
  dedupe, sorted, sort_by, by_key, Dict,
}
use appspine_packages.PluginApi.Inventory.{PluginInventoryEntry}
use appspine_packages.PluginApi.Diagnostics.{PluginDiagnostic, has_errors, sort_diagnostics}
use appspine_packages.PluginApi.Json.{Json, bool, str, arr, obj, items, fields, manifest_digest}
use appspine_packages.PluginApi.Resolver.Records.{
  ResolvableManifest, ResolvedPluginInstance, DisabledInstance,
}
use appspine_packages.PluginApi.Resolver.Instances.{index_manifests, sort_inventory}
use appspine_packages.PluginApi.Resolver.Intake.{Intake, intake_from}
use appspine_packages.PluginApi.Resolver.Contributions.{contribution_check}
use appspine_packages.PluginApi.Resolver.Checks.{
  cardinality_check, conflict_check, providers_of, provider_check, host_override_check,
  replaces_check,
}
use appspine_packages.PluginApi.Resolver.Requirements.{resolve_needs}
use appspine_packages.PluginApi.Resolver.Topology.{Ordered, topological_order}

pub record ResolutionGraph : Type 0 where
  pub order : List Text
  pub instances : List ResolvedPluginInstance
  pub providers : Dict (List Text)
  pub host_capabilities : List Text
  pub disabled : List DisabledInstance
  pub digest : Text
  pub diagnostics : List PluginDiagnostic

pub data ResolutionResult : Type 0 where
  resolved : ResolutionGraph → ResolutionResult
  rejected : List PluginDiagnostic → ResolutionResult

pub record ResolveOptions : Type 0 where
  pub inventory : List PluginInventoryEntry
  pub manifests : List ResolvableManifest
  pub host_capabilities : Option (List Text)
  pub official_scope : Option Text

abbrev pub default_official_scope : Text
default_official_scope = text "@appspine/"

abbrev texts_json : List Text → Json
texts_json ts = arr (items (map str ts))

instance_json : ResolvedPluginInstance → Json
instance_json i = obj (
    fields (
      (text "key", str i.key)
      ∷ (text "packageName", str i.package_name)
      ∷ (text "packageVersion", str i.package_version)
      ∷ (text "digest", str i.digest)
      ∷ (text "required", bool i.required)
      ∷ (text "dependsOn", texts_json i.depends_on)
      ∷ (text "unresolvedOptional", texts_json i.unresolved_optional)
      ∷ []))

graph_json : ResolutionGraph → Json
unfolding instance_json
graph_json graph = obj (
    fields (
      (text "order", texts_json graph.order)
      ∷ (text "hostCapabilities", texts_json graph.host_capabilities)
      ∷ (text "providers", obj (fields (map (λ e. (e.0, texts_json e.1)) graph.providers)))
      ∷ (text "disabled", texts_json (map (λ d. d.key) graph.disabled))
      ∷ (text "instances", arr (items (map instance_json graph.instances)))
      ∷ []))

-- `instances.find((instance) => instance.key === key)`
unfoldable pub find_instance : List ResolvedPluginInstance → Text → Option ResolvedPluginInstance
find_instance [] key = none
find_instance (i ∷ rest) key = if same i.key key then some i else find_instance rest key

-- The instances in the order of their keys. The source's cast says that every key is found.
unfoldable pub in_order : List ResolvedPluginInstance → List Text → List ResolvedPluginInstance
in_order instances [] = []
in_order instances (key ∷ rest) = elim (find_instance instances key) [
  | some i ↦ i ∷ in_order instances rest
  | none ↦ in_order instances rest
]

-- The state before the order is computed.
pub record Checked : Type 0 where
  pub instances : List ResolvedPluginInstance
  pub disabled : List DisabledInstance
  pub providers : Dict (List Text)
  pub host_capabilities : List Text
  pub diagnostics : List PluginDiagnostic

-- The checks, in the order in which they report.
unfoldable pub check_all : List Text → Intake → Checked
check_all host st =
    let providers = providers_of st.instances in
    let needs = resolve_needs host providers st.instances in
    record {
      instances = needs.instances;
      disabled = st.disabled;
      providers = providers;
      host_capabilities = host;
      diagnostics =
          st.diagnostics
          ++ (cardinality_check st.instances
              ++ (conflict_check st.instances
                  ++ (provider_check st.instances providers
                      ++ (host_override_check host providers
                          ++ (replaces_check st.instances
                              ++ (needs.diagnostics ++ contribution_check needs.instances))))));
    }

module _ (sha256_hex : Text → Text) where
  unfoldable pub resolution_digest : ResolutionGraph → Text
  unfolding graph_json
  resolution_digest graph = manifest_digest sha256_hex (graph_json graph)

  -- The loop over the inventory, with the index of the manifests and the inventory's order.
  unfoldable pub take_in : ResolveOptions → Intake
  take_in options =
      let index = index_manifests options.manifests in
      let scope = get_or options.official_scope default_official_scope in
      intake_from sha256_hex scope index.by_ref
        (record { instances = []; disabled = []; seen_keys = []; diagnostics = index.diagnostics })
        (sort_inventory options.inventory)

  unfoldable pub graph_of : Checked → Ordered → ResolutionGraph
  graph_of checked ordered =
      let graph : ResolutionGraph = record {
        order = ordered.order;
        instances = in_order checked.instances ordered.order;
        providers = map (λ e. (e.0, sorted e.1)) (sort_by (by_key (λ e. e.0)) checked.providers);
        host_capabilities = checked.host_capabilities;
        disabled = sort_by (by_key (λ d. d.key)) checked.disabled;
        digest = [];
        diagnostics = sort_diagnostics (checked.diagnostics ++ ordered.diagnostics);
      } in
      record graph { digest = resolution_digest graph }

  unfoldable pub conclude : Checked → ResolutionResult
  conclude checked =
      let ordered = topological_order (map (λ i. (i.key, i.depends_on)) checked.instances) in
      if has_errors (checked.diagnostics ++ ordered.diagnostics)
      then rejected (sort_diagnostics (checked.diagnostics ++ ordered.diagnostics))
      else resolved (graph_of checked ordered)

  unfoldable pub resolve_plugins : ResolveOptions → ResolutionResult
  unfolding conclude
  resolve_plugins options =
      let host = sorted (dedupe (get_or options.host_capabilities [])) in
      conclude (check_all host (take_in options))

unfoldable pub shutdown_order : ResolutionGraph → List Text
shutdown_order graph = reverse graph.order
