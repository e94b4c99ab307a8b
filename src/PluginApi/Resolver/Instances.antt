-- ===== src/PluginApi/Resolver/Instances.antt =====
-- packages/plugin-api/src/resolver/index.ts: `indexManifests`, `providedCapabilities`, and the order in
-- which the inventory is read.
use appspine_packages.Base.{
  none, some, List, [], ◌∷◌, ◌++◌, if◌then◌else◌, ◌==◌, flat_map, Text, text, say, sort_by, by_key,
  Dict, get, put,
}
use appspine_packages.PluginApi.Inventory.{PluginInventoryEntry, inventory_plugin_id_of}
use appspine_packages.PluginApi.Capabilities.{qualify_capability}
use appspine_packages.PluginApi.Diagnostics.{PluginDiagnostic, diagnostic}
use appspine_packages.PluginApi.Manifest.{singleton, multiple, PluginManifest}
use appspine_packages.PluginApi.Resolver.Records.{ResolvableManifest}

pub record ManifestIndex : Type 0 where
  pub by_ref : Dict ResolvableManifest
  pub diagnostics : List PluginDiagnostic

unfoldable pub ambiguous_reference :
    Text → ResolvableManifest → ResolvableManifest → PluginDiagnostic
ambiguous_reference ref existing entry =
    diagnostic (text "ambiguous-plugin-reference")
      (say (
        text "\""
        ∷ ref
        ∷ text "\" resolves to both "
        ∷ existing.package_name
        ∷ text " and "
        ∷ entry.package_name
        ∷ []))
      (record {
        plugin_id = some entry.manifest.id;
        instance_id = none;
        path = none;
        severity = none;
      })

-- One turn of the inner loop of `indexManifests`.
unfoldable pub index_ref : ResolvableManifest → Text → ManifestIndex → ManifestIndex
index_ref entry ref index = elim (get ref index.by_ref) [
  | none ↦ record index { by_ref = put ref entry index.by_ref }
  | some existing ↦
      if existing.identity == entry.identity
      then record index { by_ref = put ref entry index.by_ref }
      else record index {
        diagnostics = index.diagnostics ++ ambiguous_reference ref existing entry ∷ [];
      }
]

index_from : ManifestIndex → List ResolvableManifest → ManifestIndex
index_from index [] = index
index_from index (entry ∷ rest) =
    index_from (index_ref entry entry.manifest.id (index_ref entry entry.package_name index)) rest

unfoldable pub index_manifests : List ResolvableManifest → ManifestIndex
unfolding index_from index_ref
index_manifests manifests = index_from (record { by_ref = []; diagnostics = [] }) manifests

unfoldable pub provided_capabilities : PluginManifest → Text → List Text
provided_capabilities manifest instance_id = elim manifest.cardinality [
  | singleton ↦ manifest.provides
  | multiple ↦
      flat_map (λ capability. capability ∷ qualify_capability capability instance_id ∷ [])
        manifest.provides
]

-- The key by which the inventory is sorted before it is read.
unfoldable pub entry_sort_key : PluginInventoryEntry → Text
entry_sort_key entry = say (inventory_plugin_id_of entry.plugin ∷ text "#" ∷ entry.instance_id ∷ [])

unfoldable pub sort_inventory : List PluginInventoryEntry → List PluginInventoryEntry
unfolding entry_sort_key
sort_inventory inventory = sort_by (by_key entry_sort_key) inventory
