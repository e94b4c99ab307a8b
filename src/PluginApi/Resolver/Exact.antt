-- ===== src/PluginApi/Resolver/Exact.antt =====
-- packages/plugin-api/src/resolver/index.ts, `resolvePlugins`: which entries of the inventory a graph
-- holds.
use appspine_packages.PluginApi.Resolver.Records.{ResolvableManifest, DisabledInstance}
use appspine_packages.PluginApi.Resolver.Instances.{index_manifests, sort_inventory}
use appspine_packages.PluginApi.Resolver.Enabled.{is_enabled_as, is_disabled_as, intake_from-Adds}
use appspine_packages.Base.{
  ◌≡◌, refl, sym, ◌∙◌, ap, any, same, ◌∷◌, any-sort_by, sort_by, by_key, Dict, true, false, ◌||◌,
  ◌&&◌, Bool, List, [], arith, Text, includes, keys, Distinct,
}
use appspine_packages.PluginApi.Diagnostics.{has_errors}
use appspine_packages.PluginApi.Resolver.Graph.{
  ResolutionGraph, resolved, ResolveOptions, take_in, resolve_plugins,
}
use appspine_packages.PluginApi.Resolver.Topology.{Remaining}
use appspine_packages.PluginApi.Resolver.Topology.Order.{place_all-KeysInv}
use appspine_packages.PluginApi.Resolver.Keys.{instance_keys, disabled_keys, take_in-HasOwnKeys}
use appspine_packages.PluginApi.Resolver.Needs.{resolve_needs-keys}
use appspine_packages.PluginApi.Resolver.Lookup.{in_order-keys}
use appspine_packages.PluginApi.Resolver.Edges.{edges, keys-edges}
use appspine_packages.PluginApi.Resolver.Sound.{
  host, taken, settled, placed, edges_once, placed_known, resolved_facts,
}

left_nothing :
    (order : List Text) (stuck : Remaining) (k : Text)
    → stuck ≡ []
    → includes order k ≡ (includes order k || includes (keys stuck) k)
unfolding includes
left_nothing order stuck k h = rw h (ground arith)

disjoint : (a b c : Bool) → a ≡ b → (b ≡ true → c ≡ false) → (a && c) ≡ false
disjoint a b c e f = ground arith

-- The manifests under the names by which the inventory refers to them.
abbrev pub by_ref_of : ResolveOptions → Dict ResolvableManifest
by_ref_of options = (index_manifests options.manifests).by_ref

includes-disabled_keys :
    (disabled : List DisabledInstance) (k : Text)
    → includes (disabled_keys disabled) k ≡ any (λ d. same d.key k) disabled
unfolding includes
includes-disabled_keys [] k = refl
includes-disabled_keys (d ∷ rest) k = ground (arith, includes-disabled_keys rest k)

-- The keys that the inventory yields without an error are those of its entries.
take_in-entries :
    (sha256_hex : Text → Text) (options : ResolveOptions) (k : Text)
    → has_errors (take_in sha256_hex options).diagnostics ≡ false
    → (includes (instance_keys (taken sha256_hex options)) k
        ≡ any (is_enabled_as (by_ref_of options) k) options.inventory)
      × (includes (disabled_keys (take_in sha256_hex options).disabled) k
          ≡ any (is_disabled_as (by_ref_of options) k) options.inventory)
unfolding take_in sort_inventory includes
take_in-entries sha256_hex options k h =
    let added =
      intake_from-Adds sha256_hex _ k (by_ref_of options) (sort_inventory options.inventory) _ h in
    (
      added.enables ∙ any-sort_by (is_enabled_as (by_ref_of options) k) _ options.inventory,
      added.disables ∙ any-sort_by (is_disabled_as (by_ref_of options) k) _ options.inventory,
    )

-- The order of a graph holds the key of each enabled entry of the inventory exactly once and no other
-- key; the instances stand in that order; the disabled keys of the graph are those of the entries
-- that are not enabled; and no key of the order is disabled.
pub resolve_plugins_order :
    (sha256_hex : Text → Text) (options : ResolveOptions) (graph : ResolutionGraph) (k : Text)
    → resolve_plugins sha256_hex options ≡ resolved graph
    → Distinct graph.order
      × (instance_keys graph.instances ≡ graph.order)
      × (includes graph.order k ≡ any (is_enabled_as (by_ref_of options) k) options.inventory)
      × (includes (disabled_keys graph.disabled) k
          ≡ any (is_disabled_as (by_ref_of options) k) options.inventory)
      × ((includes graph.order k && includes (disabled_keys graph.disabled) k) ≡ false)
unfolding includes
resolve_plugins_order sha256_hex options graph k h =
    let (clean, ordered, instances, _, turned_off, _) = resolved_facts sha256_hex options graph h in
    let split = take_in-HasOwnKeys sha256_hex options in
    let settled' = settled sha256_hex options in
    let inv = place_all-KeysInv (edges settled') (edges_once sha256_hex options) in
    let (enabled, disabled) = take_in-entries sha256_hex options k clean.entries in
    let same_keys =
      keys-edges settled'
      ∙ resolve_needs-keys (host sha256_hex options) _ (taken sha256_hex options) in
    let exact : includes graph.order k ≡ includes (instance_keys (taken sha256_hex options)) k =
      ap (λ ks. includes ks k) ordered
      ∙ (left_nothing (placed sha256_hex options).order (placed sha256_hex options).stuck k
            clean.acyclic
          ∙ inv.covered k)
      ∙ ap (λ ks. includes ks k) same_keys in
    let off = (take_in sha256_hex options).disabled in
    let disabled_same : includes (disabled_keys graph.disabled) k ≡ includes (disabled_keys off) k =
      rw turned_off (
        includes-disabled_keys (sort_by (by_key (λ d. d.key)) off) k
        ∙ any-sort_by (λ d. same d.key k) (by_key (λ d. d.key)) off
        ∙ sym (includes-disabled_keys off k)) in
    (
      rw ordered inv.once,
      rw (instances, ordered)
          (in_order-keys settled' (placed sha256_hex options).order
            (placed_known sha256_hex options)),
      exact ∙ enabled,
      disabled_same ∙ disabled,
      disjoint _ _ _ exact (λ e. disabled_same ∙ split.apart k e),
    )
