-- ===== src/PluginApi/Resolver/Exclusive.antt =====
-- packages/plugin-api/src/resolver/index.ts, `resolvePlugins`: conflicts and capabilities of the host.
use appspine_packages.Base.{
  ◌≡◌, refl, ◌∙◌, sym, true, false, or-false, Bool, List, [], ◌∷◌, flat_map, arith, if◌then◌else◌,
  get_or, any, All, All-mono, All-both, Bool-cases, Option-cases, inl, inr, Text, includes, same,
  same_refl, same→eq, has_key, get, Dict,
}
use appspine_packages.PluginApi.Diagnostics.{
  PluginDiagnostic, diagnostic, is_error, has_errors, has_errors-append,
}
use appspine_packages.PluginApi.Resolver.Records.{ResolvedPluginInstance, diagnose}
use appspine_packages.PluginApi.Resolver.Checks.{
  enabled_plugin_ids, conflict_check_of, conflict_check, host_override_check, providers_of,
}
use appspine_packages.PluginApi.Resolver.Requirements.{Needs, needs_of, with_needs, resolve_needs}
use appspine_packages.PluginApi.Resolver.Providers.{provides_as, providers_of-includes}
use appspine_packages.PluginApi.Resolver.Lookup.{find_instance-All}
use appspine_packages.PluginApi.Resolver.Graph.{
  ResolutionGraph, resolved, ResolveOptions, find_instance, in_order, resolve_plugins,
}
use appspine_packages.PluginApi.Resolver.Sound.{
  host, taken, providers, settled, placed, resolved_facts,
}

-- A check that reports an error for each text with a property finds none.
none_flagged :
    (p : Text → Bool) (d : Text → PluginDiagnostic) (xs : List Text)
    → ((c : Text) → is_error (d c) ≡ true)
    → has_errors (flat_map (λ c. if p c then d c ∷ [] else []) xs) ≡ false
    → All (λ c. p c ≡ false) xs
unfolding has_errors
none_flagged p d [] e h = tt
none_flagged p d (x ∷ xs) e h = elim (Bool-cases (p x)) [
  | inl y ↦ ground (arith, e x, y, h)
  | inr n ↦ (n, none_flagged p d xs e (rw n at h))
]

conflict_check-All :
    (enabled : List Text) (instances : List ResolvedPluginInstance)
    → has_errors (flat_map (conflict_check_of enabled) instances) ≡ false
    → All (λ i. All (λ c. includes enabled c ≡ false) (get_or i.manifest.conflicts [])) instances
unfolding conflict_check_of diagnose diagnostic
conflict_check-All enabled [] h = tt
conflict_check-All enabled (i ∷ rest) h =
    let (here, later) =
      or-false _ _ (sym (has_errors-append (conflict_check_of enabled i) _) ∙ h) in
    (
      none_flagged (includes enabled) _ (get_or i.manifest.conflicts []) (λ c. refl) here,
      conflict_check-All enabled rest later,
    )

-- What holds of the instances that are taken in, whatever they need, holds of those of the graph.
module _ (P : ResolvedPluginInstance → Type 0)
    (keeps : (i : ResolvedPluginInstance) (needs : Needs) → P i → P (with_needs i needs)) where
  resolve_needs-All :
      (owned : List Text) (listed : Dict (List Text)) (instances : List ResolvedPluginInstance)
      → All P instances
      → All P (resolve_needs owned listed instances).instances
  unfolding resolve_needs
  resolve_needs-All owned listed [] h = tt
  resolve_needs-All owned listed (i ∷ rest) (here, h) =
      (keeps i (needs_of owned listed i) here, resolve_needs-All owned listed rest h)

  in_order-All :
      (instances : List ResolvedPluginInstance) (ks : List Text)
      → All P instances
      → All P (in_order instances ks)
  unfolding in_order
  in_order-All instances [] h = tt
  in_order-All instances (k ∷ ks) h = elim (Option-cases (find_instance instances k)) [
    | inl e ↦ rw (e, in_order) (in_order-All instances ks h)
    | inr (i, e) ↦
        rw (e, in_order) (find_instance-All P instances k i h e, in_order-All instances ks h)
  ]

  graph-All :
      (sha256_hex : Text → Text) (options : ResolveOptions) (graph : ResolutionGraph)
      → resolve_plugins sha256_hex options ≡ resolved graph
      → All P (taken sha256_hex options)
      → All P graph.instances
  graph-All sha256_hex options graph h p =
      let (_, _, instances, _, _, _) = resolved_facts sha256_hex options graph h in
      rw instances (
        in_order-All (settled sha256_hex options) (placed sha256_hex options).order (
          resolve_needs-All (host sha256_hex options) (providers sha256_hex options)
            (taken sha256_hex options) p))

enabled-All :
    (more : List Text) (instances : List ResolvedPluginInstance)
    → ((k : Text) → includes (enabled_plugin_ids instances) k ≡ true → includes more k ≡ true)
    → All (λ j. includes more j.plugin_id ≡ true) instances
unfolding includes
enabled-All more [] h = tt
enabled-All more (j ∷ rest) h = (
  h j.plugin_id (ground (arith, same_refl j.plugin_id)),
  enabled-All more rest (λ k e. h k (ground arith)),
)

-- A plugin that is enabled is not among conflicts that are not.
not_in_conflict :
    (enabled conflicts : List Text) (id : Text)
    → All (λ c. includes enabled c ≡ false) conflicts
    → includes enabled id ≡ true
    → includes conflicts id ≡ false
unfolding includes
not_in_conflict enabled [] id h e = refl
not_in_conflict enabled (c ∷ conflicts) id (here, h) e = elim (Bool-cases (same c id)) [
  | inl y ↦ cc (rw (same→eq c id y, e) at here)
  | inr n ↦ rw n (not_in_conflict enabled conflicts id h e)
]

-- An instance provides only what some key is listed for.
provides-All :
    (listed : Dict (List Text)) (instances : List ResolvedPluginInstance)
    → ((capability k : Text)
        → has_key capability listed ≡ false
        → any (provides_as k capability) instances ≡ false)
    → All
        (λ i.
          (capability : Text)
          → has_key capability listed ≡ false
          → includes i.provides capability ≡ false)
        instances
provides-All listed [] h = tt
provides-All listed (i ∷ rest) h = (
  λ capability absent. ground (arith, h capability i.key absent, same_refl i.key),
  provides-All listed rest (λ capability k absent. ground (arith, h capability k absent)),
)

unlisted :
    (instances : List ResolvedPluginInstance) (capability k : Text)
    → has_key capability (providers_of instances) ≡ false
    → any (provides_as k capability) instances ≡ false
unfolding includes
unlisted instances capability k absent =
    sym (providers_of-includes instances capability k)
    ∙ (elim (Option-cases (get capability (providers_of instances))) [
      | inl e ↦ rw e refl
      | inr (ks, e) ↦ cc (rw e at absent)
    ])

-- In a resolved graph no instance declares a conflict with the plugin of an instance, and no instance
-- provides a capability that the host owns.
pub resolve_plugins_exclusive :
    (sha256_hex : Text → Text) (options : ResolveOptions) (graph : ResolutionGraph)
    → resolve_plugins sha256_hex options ≡ resolved graph
    → All
        (λ i.
          All (λ j. includes (get_or i.manifest.conflicts []) j.plugin_id ≡ false) graph.instances
          × All (λ c. includes i.provides c ≡ false) graph.host_capabilities)
        graph.instances
unfolding conflict_check host_override_check diagnose diagnostic with_needs
resolve_plugins_exclusive sha256_hex options graph h =
    let (clean, _, _, hosted, _, _) = resolved_facts sha256_hex options graph h in
    let enabled = enabled_plugin_ids (taken sha256_hex options) in
    let apart =
      graph-All (λ i. All (λ c. includes enabled c ≡ false) (get_or i.manifest.conflicts []))
        (λ i needs p. p) sha256_hex options graph h
        (conflict_check-All _ (taken sha256_hex options) clean.conflicts) in
    let present =
      graph-All (λ j. includes enabled j.plugin_id ≡ true) (λ j needs p. p) sha256_hex options graph
        h (enabled-All enabled (taken sha256_hex options) (λ k e. e)) in
    let unhosted =
      graph-All
        (λ i.
          (capability : Text)
          → has_key capability (providers sha256_hex options) ≡ false
          → includes i.provides capability ≡ false)
        (λ i needs p. p) sha256_hex options graph h
        (provides-All (providers sha256_hex options) (taken sha256_hex options)
          (unlisted (taken sha256_hex options))) in
    let owned : All (λ c. has_key c (providers sha256_hex options) ≡ false)
        graph.host_capabilities =
      rw hosted (
        none_flagged (λ c. has_key c (providers sha256_hex options)) _ (host sha256_hex options)
          (λ c. refl) clean.host_only) in
    All-both _ _ _ graph.instances
      (λ i a u. (
        All-mono _ graph.instances
            (λ j e. not_in_conflict enabled (get_or i.manifest.conflicts []) j.plugin_id a e)
            present,
        All-mono _ graph.host_capabilities (λ c e. u c e) owned,
      ))
      apart unhosted
