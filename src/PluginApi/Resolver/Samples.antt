-- ===== src/PluginApi/Resolver/Samples.antt =====
-- A host, a plugin that it wires to another one, and what the resolver makes of them.
use appspine_packages.Base.{
  get_or, String, ℕ, ◌≤◌, length, ◌&&◌, reverse, ◌≡◌, refl, true, false, Option, none, some, List,
  [], ◌∷◌, Text, text, say, same, Distinct, get, put, push_at, before, insert, sort_by, includes,
  dedupe_from, dedupe, starts_with, cut, join, decimal, any, All, keys, sorted, arith,
}
use appspine_packages.PluginApi.Inventory.{
  PluginInventoryEntry, instance_key, inventory_plugin_id_of,
}
use appspine_packages.PluginApi.Capabilities.{qualify_capability}
use appspine_packages.PluginApi.Diagnostics.{has_errors, diagnostic, sort_diagnostics, sort_key}
use appspine_packages.PluginApi.Json.{
  Json, items, fields, entries, sort_fields, quote, canonical_json_string, manifest_digest,
  canonicalize, canonicalize_items, canonicalize_fields, stringify, stringify_items,
  stringify_fields,
}
use appspine_packages.PluginApi.Manifest.{PluginManifest, singleton}
use appspine_packages.PluginApi.Resolver.Records.{ResolvableManifest, diagnose, quoted}
use appspine_packages.PluginApi.Resolver.Instances.{
  ambiguous_reference, index_ref, index_manifests, provided_capabilities, entry_sort_key,
  sort_inventory,
}
use appspine_packages.PluginApi.Resolver.Intake.{
  optional_policy_check, config_ref_check, provenance_check, new_instance, intake_new, intake_found,
  intake_entry, intake_from,
}
use appspine_packages.PluginApi.Resolver.Contributions.{
  collect_contributions, shared_across_instances, duplicate_code, contribution_id,
  replacement_keys_of, cut_colons, contested_contribution, contribution_check,
}
use appspine_packages.PluginApi.Resolver.Checks.{
  group_by_plugin, cardinality_of, cardinality_check, conflict_check_of, conflict_check,
  add_provider, providers_from, providers_of, replaced_plugins, contested_capability,
  provider_check, host_override_check, replaces_check,
}
use appspine_packages.PluginApi.Resolver.Requirements.{
  external_providers, add_all, missing_required, unresolved_optional, require, require_optional,
  require_all, require_all_optional, needs_of, with_needs, resolve_needs,
}
use appspine_packages.PluginApi.Resolver.Topology.{
  Remaining, remaining_from, remaining_of, frontier, place, rounds, place_all, topological_order,
  cycle_diagnostic,
}
use appspine_packages.PluginApi.Resolver.Topology.Rounds.{rounds_end}
use appspine_packages.PluginApi.Resolver.Topology.Order.{IsOrdered, place_all-IsOrdered}
use appspine_packages.PluginApi.Resolver.Topology.Cycles.{
  IsClosed, IsRanked, place_all-stuck_waits, place_all-stuck_nil,
}
use appspine_packages.PluginApi.Resolver.Graph.{
  ResolutionGraph, ResolutionResult, resolved, rejected, ResolveOptions, find_instance, in_order,
  check_all, resolution_digest, take_in, graph_of, conclude, resolve_plugins, shutdown_order,
}
use appspine_packages.PluginApi.Resolver.Keys.{instance_keys, disabled_keys}
use appspine_packages.PluginApi.Resolver.Wiring.{IsWired}
use appspine_packages.PluginApi.Resolver.Sound.{resolve_plugins-IsWired}
use appspine_packages.PluginApi.Resolver.Exact.{by_ref_of, resolve_plugins_order}
use appspine_packages.PluginApi.Resolver.Enabled.{is_enabled_as, is_disabled_as}
use appspine_packages.PluginApi.Resolver.Shutdown.{IsReleased, shutdown_order-IsReleased}
use appspine_packages.PluginApi.Resolver.Exclusive.{resolve_plugins_exclusive}

-- A digest that stands in for SHA-256.
abbrev constant_hex : Text → Text
constant_hex t = text "00"

abbrev plugin : String → List Text → List Text → PluginManifest
plugin id provided required = record {
  id = text id;
  cardinality = singleton;
  distribution = none;
  engine = record { appspine_plugin_api = text "^1.0.0"; node = text ">=20"; frameworks = none };
  provides = provided;
  requires = required;
  optional_requires = none;
  conflicts = none;
  replaces = none;
  config_schema = none;
  optional_failure_policy = none;
  facets = record { backend = none; prisma = none; operations = none };
  document = Json.null;
}

abbrev installed : ℕ → PluginManifest → ResolvableManifest
installed n manifest = record {
  identity = n;
  manifest = manifest;
  package_name = manifest.id;
  package_version = text "1.0.0";
  manifest_digest = none;
  digest = none;
}

abbrev entry : String → PluginInventoryEntry
entry id = record {
  plugin = text id;
  instance_id = text "default";
  enabled = true;
  required = true;
  config_ref = none;
}

-- The plugin "api" requires "kv", which "store" provides, and "clock", which the host provides.
abbrev options : ResolveOptions
options = record {
  inventory = entry "api" ∷ entry "store" ∷ [];
  manifests =
      installed 0 (plugin "api" [] (text "kv" ∷ text "clock" ∷ []))
      ∷ installed 1 (plugin "store" (text "kv" ∷ []) [])
      ∷ [];
  host_capabilities = some (text "clock" ∷ []);
  official_scope = none;
}

-- Without "store" nothing provides "kv".
abbrev lacking : ResolveOptions
lacking = record options { inventory = entry "api" ∷ [] }

result_order : ResolutionResult → Option (List Text)
result_order (resolved graph) = some graph.order
result_order (rejected ds) = none

abbrev the_graph : ResolutionResult → ResolutionGraph → ResolutionGraph
the_graph (resolved graph) other = graph
the_graph (rejected ds) other = other

abbrev no_graph : ResolutionGraph
no_graph = record {
  order = [];
  instances = [];
  providers = [];
  host_capabilities = [];
  disabled = [];
  digest = [];
  diagnostics = [];
}

abbrev graph : ResolutionGraph
graph = the_graph (resolve_plugins constant_hex options) no_graph

order_test :
    result_order (resolve_plugins constant_hex options) ≡ some (text "store" ∷ text "api" ∷ [])
unfolding get put push_at text say same before includes dedupe_from dedupe starts_with cut join
    decimal insert sort_by sorted instance_key inventory_plugin_id_of qualify_capability diagnostic
    has_errors sort_key sort_diagnostics items fields entries sort_fields quote
    canonical_json_string manifest_digest canonicalize canonicalize_items canonicalize_fields
    stringify stringify_items stringify_fields find_instance in_order check_all resolution_digest
    take_in graph_of conclude resolve_plugins shutdown_order optional_policy_check config_ref_check
    provenance_check new_instance intake_new intake_found intake_entry intake_from remaining_from
    remaining_of frontier place cycle_diagnostic rounds place_all topological_order group_by_plugin
    cardinality_of cardinality_check conflict_check_of conflict_check add_provider providers_from
    providers_of replaced_plugins contested_capability provider_check host_override_check
    replaces_check external_providers add_all missing_required unresolved_optional require
    require_optional require_all require_all_optional needs_of with_needs resolve_needs
    collect_contributions shared_across_instances duplicate_code contribution_id replacement_keys_of
    cut_colons contested_contribution contribution_check diagnose quoted ambiguous_reference
    index_ref index_manifests provided_capabilities entry_sort_key sort_inventory result_order
order_test = refl

lacking_test : result_order (resolve_plugins constant_hex lacking) ≡ none
unfolding get put push_at text say same before includes dedupe_from dedupe starts_with cut join
    decimal insert sort_by sorted instance_key inventory_plugin_id_of qualify_capability diagnostic
    has_errors sort_key sort_diagnostics items fields entries sort_fields quote
    canonical_json_string manifest_digest canonicalize canonicalize_items canonicalize_fields
    stringify stringify_items stringify_fields find_instance in_order check_all resolution_digest
    take_in graph_of conclude resolve_plugins shutdown_order optional_policy_check config_ref_check
    provenance_check new_instance intake_new intake_found intake_entry intake_from remaining_from
    remaining_of frontier place cycle_diagnostic rounds place_all topological_order group_by_plugin
    cardinality_of cardinality_check conflict_check_of conflict_check add_provider providers_from
    providers_of replaced_plugins contested_capability provider_check host_override_check
    replaces_check external_providers add_all missing_required unresolved_optional require
    require_optional require_all require_all_optional needs_of with_needs resolve_needs
    collect_contributions shared_across_instances duplicate_code contribution_id replacement_keys_of
    cut_colons contested_contribution contribution_check diagnose quoted ambiguous_reference
    index_ref index_manifests provided_capabilities entry_sort_key sort_inventory result_order
lacking_test = refl

options_resolve : resolve_plugins constant_hex options ≡ resolved graph
unfolding get put push_at text say same before includes dedupe_from dedupe starts_with cut join
    decimal insert sort_by sorted instance_key inventory_plugin_id_of qualify_capability diagnostic
    has_errors sort_key sort_diagnostics items fields entries sort_fields quote
    canonical_json_string manifest_digest canonicalize canonicalize_items canonicalize_fields
    stringify stringify_items stringify_fields find_instance in_order check_all resolution_digest
    take_in graph_of conclude resolve_plugins shutdown_order optional_policy_check config_ref_check
    provenance_check new_instance intake_new intake_found intake_entry intake_from remaining_from
    remaining_of frontier place cycle_diagnostic rounds place_all topological_order group_by_plugin
    cardinality_of cardinality_check conflict_check_of conflict_check add_provider providers_from
    providers_of replaced_plugins contested_capability provider_check host_override_check
    replaces_check external_providers add_all missing_required unresolved_optional require
    require_optional require_all require_all_optional needs_of with_needs resolve_needs
    collect_contributions shared_across_instances duplicate_code contribution_id replacement_keys_of
    cut_colons contested_contribution contribution_check diagnose quoted ambiguous_reference
    index_ref index_manifests provided_capabilities entry_sort_key sort_inventory
options_resolve = refl

resolve_plugins-IsWired_example : IsWired graph.host_capabilities [] graph.instances
resolve_plugins-IsWired_example = resolve_plugins-IsWired constant_hex options graph options_resolve

resolve_plugins_order_example :
    Distinct graph.order
    × (instance_keys graph.instances ≡ graph.order)
    × (includes graph.order (text "api")
        ≡ any (is_enabled_as (by_ref_of options) (text "api")) options.inventory)
    × (includes (disabled_keys graph.disabled) (text "api")
        ≡ any (is_disabled_as (by_ref_of options) (text "api")) options.inventory)
    × ((includes graph.order (text "api") && includes (disabled_keys graph.disabled) (text "api"))
        ≡ false)
resolve_plugins_order_example =
    resolve_plugins_order constant_hex options graph (text "api") options_resolve

shutdown_order-IsReleased_example :
    (instance_keys (reverse graph.instances) ≡ shutdown_order graph)
    × IsReleased graph.host_capabilities (reverse graph.instances)
shutdown_order-IsReleased_example =
    shutdown_order-IsReleased constant_hex options graph options_resolve

-- "c" waits for "b", and "b" for "a".
abbrev chain : Remaining
chain = (text "c", text "b" ∷ []) ∷ (text "b", text "a" ∷ []) ∷ (text "a", []) ∷ []

-- "a" and "b" wait for each other, and "c" for "a".
abbrev ring : Remaining
ring = (text "a", text "b" ∷ []) ∷ (text "b", text "a" ∷ []) ∷ (text "c", text "a" ∷ []) ∷ []

chain_once : Distinct (keys chain)
unfolding text same includes
chain_once = (refl, (refl, (refl, tt)))

ring-IsClosed : IsClosed ring
unfolding text same includes
ring-IsClosed = ((refl, tt), ((refl, tt), ((refl, tt), tt)))

chain-IsClosed : IsClosed chain
unfolding text same includes
chain-IsClosed = ((refl, tt), ((refl, tt), (tt, tt)))

abbrev letter : Text → ℕ
letter [] = 0
letter (c ∷ s) = c

chain-IsRanked : IsRanked letter chain
unfolding text
chain-IsRanked = ((omega arith, tt), ((omega arith, tt), (tt, tt)))

ring-length : length ring ≤ 3
ring-length = omega arith

ring_test : keys (place_all ring).stuck ≡ text "a" ∷ text "b" ∷ text "c" ∷ []
unfolding text same includes place_all rounds place frontier sorted sort_by insert before
ring_test = refl

place_all-IsOrdered_example : IsOrdered chain [] (place_all chain).order
place_all-IsOrdered_example = place_all-IsOrdered chain chain_once

rounds_end_example : frontier (rounds 3 ring []).stuck ≡ []
rounds_end_example = rounds_end 3 ring [] ring-length

place_all-stuck_waits_example :
    All (λ e. any (λ d. includes (keys (place_all ring).stuck) d) e.1 ≡ true) (place_all ring).stuck
place_all-stuck_waits_example = place_all-stuck_waits ring ring-IsClosed

place_all-stuck_nil_example :
    ((place_all chain).stuck ≡ [])
    × Distinct (place_all chain).order
    × (includes (place_all chain).order (text "b") ≡ includes (keys chain) (text "b"))
place_all-stuck_nil_example =
    place_all-stuck_nil letter chain (text "b") chain_once chain-IsClosed chain-IsRanked

resolve_plugins_exclusive_example :
    All
      (λ i.
        All (λ j. includes (get_or i.manifest.conflicts []) j.plugin_id ≡ false) graph.instances
        × All (λ c. includes i.provides c ≡ false) graph.host_capabilities)
      graph.instances
resolve_plugins_exclusive_example =
    resolve_plugins_exclusive constant_hex options graph options_resolve
