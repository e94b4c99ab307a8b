-- ===== src/PluginApi/Resolver/Sound.antt =====
-- packages/plugin-api/src/resolver/index.ts, `resolvePlugins`: what stands behind a resolved graph.
use appspine_packages.Base.{
  ◌≡◌, refl, ◌∙◌, sym, ap, true, false, or-false, List, [], ◌∷◌, ◌++◌, arith, get_or, if◌then◌else◌,
  is_empty, Text, includes, dedupe, sorted, sort_by, by_key, keys, Dict, Distinct,
}
use appspine_packages.PluginApi.Diagnostics.{
  PluginDiagnostic, diagnostic, has_errors, has_errors-append, has_errors-sort_diagnostics,
}
use appspine_packages.PluginApi.Resolver.Records.{ResolvedPluginInstance}
use appspine_packages.PluginApi.Resolver.Checks.{providers_of}
use appspine_packages.PluginApi.Resolver.Requirements.{resolve_needs}
use appspine_packages.PluginApi.Resolver.Graph.{
  ResolutionGraph, resolved, ResolveOptions, in_order, take_in, check_all, graph_of,
  resolve_plugins,
}
use appspine_packages.PluginApi.Resolver.Topology.{topological_order}
use appspine_packages.PluginApi.Resolver.Topology.{
  Remaining, Placement, place_all, cycle_diagnostic,
}
use appspine_packages.PluginApi.Resolver.Topology.Order.{place_all-IsOrdered, place_all-KeysInv}
use appspine_packages.PluginApi.Resolver.Providers.{providers_of-includes}
use appspine_packages.PluginApi.Resolver.Keys.{instance_keys, take_in-HasOwnKeys}
use appspine_packages.PluginApi.Resolver.Needs.{
  resolve_needs-IsMet, resolve_needs-keys, resolve_needs-provides,
}
use appspine_packages.PluginApi.Resolver.Lookup.{find_instance-All}
use appspine_packages.PluginApi.Resolver.Wiring.{IsWired, IsWired-of_IsOrdered}
use appspine_packages.PluginApi.Resolver.Edges.{
  edges, remaining_of-edges, keys-edges, waits-edges, conclude-resolved,
}
use appspine_packages.PluginApi.Resolver.Checks.{
  cardinality_check, conflict_check, provider_check, host_override_check, replaces_check,
}
use appspine_packages.PluginApi.Resolver.Contributions.{contribution_check}

-- What the check of the instances leaves, if there is no error.
module _ (sha256_hex : Text → Text) (options : ResolveOptions) where
  abbrev pub host : List Text
  host = sorted (dedupe (get_or options.host_capabilities []))

  abbrev pub taken : List ResolvedPluginInstance
  taken = (take_in sha256_hex options).instances

  abbrev pub providers : Dict (List Text)
  providers = providers_of taken

  abbrev pub settled : List ResolvedPluginInstance
  settled = (resolve_needs host providers taken).instances

  abbrev pub placed : Placement
  placed = place_all (edges settled)

  pub settled_once : Distinct (instance_keys settled)
  settled_once =
      rw (resolve_needs-keys host providers taken)
        (take_in-HasOwnKeys sha256_hex options).enabled_once

  pub edges_once : Distinct (keys (edges settled))
  edges_once = rw (keys-edges settled) settled_once

  pub placed_known :
      (k : Text) → includes placed.order k ≡ true → includes (instance_keys settled) k ≡ true
  placed_known k h =
      let inv = place_all-KeysInv (edges settled) edges_once in
      ap (λ ks. includes ks k) (sym (keys-edges settled)) ∙ ground (arith, inv.covered k)

  pub settled-IsWired :
      has_errors (resolve_needs host providers taken).diagnostics ≡ false
      → IsWired host [] (in_order settled placed.order)
  unfolding in_order
  settled-IsWired ok =
      IsWired-of_IsOrdered host providers settled settled_once
        (λ k capability.
          providers_of-includes taken capability k
          ∙ sym (resolve_needs-provides host providers taken k capability))
        (edges settled) (waits-edges settled)
        (λ k i f. find_instance-All _ settled k i (resolve_needs-IsMet host providers taken ok) f)
        [] placed.order placed_known (place_all-IsOrdered (edges settled) edges_once)

  -- No check reported an error.
  pub record NoErrors : Type 0 where
    pub entries : has_errors (take_in sha256_hex options).diagnostics ≡ false
    pub cardinality : has_errors (cardinality_check taken) ≡ false
    pub conflicts : has_errors (conflict_check taken) ≡ false
    pub provided_once : has_errors (provider_check taken providers) ≡ false
    pub host_only : has_errors (host_override_check host providers) ≡ false
    pub replaced : has_errors (replaces_check taken) ≡ false
    pub required : has_errors (resolve_needs host providers taken).diagnostics ≡ false
    pub contributed : has_errors (contribution_check settled) ≡ false
    pub acyclic : placed.stuck ≡ []

  errors_split :
      (ds es : List PluginDiagnostic)
      → has_errors (ds ++ es) ≡ false
      → (has_errors ds ≡ false) × (has_errors es ≡ false)
  errors_split ds es h = or-false _ _ (sym (has_errors-append ds es) ∙ h)

  stuck-nil_of_errors :
      (stuck : Remaining)
      → has_errors (if is_empty stuck then [] else cycle_diagnostic stuck ∷ []) ≡ false
      → stuck ≡ []
  unfolding has_errors cycle_diagnostic diagnostic
  stuck-nil_of_errors [] h = refl
  stuck-nil_of_errors (e ∷ es) h = cc

  -- A graph comes only from checks without errors, and is made of what they leave.
  pub resolved_facts :
      (graph : ResolutionGraph)
      → resolve_plugins sha256_hex options ≡ resolved graph
      → NoErrors
        × (graph.order ≡ placed.order)
        × (graph.instances ≡ in_order settled placed.order)
        × (graph.host_capabilities ≡ host)
        × (graph.disabled ≡ sort_by (by_key (λ d. d.key)) (take_in sha256_hex options).disabled)
        × (has_errors graph.diagnostics ≡ false)
  unfolding resolve_plugins check_all graph_of topological_order
  resolved_facts graph h =
      let st = take_in sha256_hex options in
      let checked = check_all host st in
      let (clean, made) = conclude-resolved sha256_hex checked graph h in
      let (reported, ordered) = errors_split checked.diagnostics _ clean in
      let (entries, r1) = errors_split st.diagnostics _ reported in
      let (cardinality, r2) = errors_split (cardinality_check taken) _ r1 in
      let (conflicts, r3) = errors_split (conflict_check taken) _ r2 in
      let (provided_once, r4) = errors_split (provider_check taken providers) _ r3 in
      let (host_only, r5) = errors_split (host_override_check host providers) _ r4 in
      let (replaced, r6) = errors_split (replaces_check taken) _ r5 in
      let (required, contributed) =
        errors_split (resolve_needs host providers taken).diagnostics _ r6 in
      let map_eq = remaining_of-edges settled settled_once in
      (
        record {
          entries = entries;
          cardinality = cardinality;
          conflicts = conflicts;
          provided_once = provided_once;
          host_only = host_only;
          replaced = replaced;
          required = required;
          contributed = contributed;
          acyclic = stuck-nil_of_errors placed.stuck (rw map_eq at ordered);
        },
        sym (ap (λ g. g.order) made) ∙ ap (λ r. (place_all r).order) map_eq,
        sym (ap (λ g. g.instances) made) ∙ ap (λ r. in_order settled (place_all r).order) map_eq,
        sym (ap (λ g. g.host_capabilities) made),
        sym (ap (λ g. g.disabled) made),
        ap (λ g. has_errors g.diagnostics) (sym made) ∙ has_errors-sort_diagnostics _ ∙ clean,
      )

-- A resolved graph is wired: registering the instances in its order, each finds every capability
-- that it requires in the host or in an instance registered before it.
pub resolve_plugins-IsWired :
    (sha256_hex : Text → Text) (options : ResolveOptions) (graph : ResolutionGraph)
    → resolve_plugins sha256_hex options ≡ resolved graph
    → IsWired graph.host_capabilities [] graph.instances
resolve_plugins-IsWired sha256_hex options graph h =
    let (clean, _, instances, hosted, _, _) = resolved_facts sha256_hex options graph h in
    rw (instances, hosted) (settled-IsWired sha256_hex options clean.required)
