-- ===== src/PluginApi/Resolver/Shutdown.antt =====
-- packages/plugin-api/src/resolver/index.ts, `shutdownOrder`.
use appspine_packages.Base.{
  ◌≡◌, refl, ◌∙◌, sym, ap, ◌⊎◌, inl, inr, Bool, true, List, [], ◌∷◌, ◌++◌, reverse, arith, any,
  any-append, All, All-mono, Text, includes,
}
use mathlib.Core.List.{map-append, append_assoc, append-nil, reverse-cons, reverse-append}
use appspine_packages.PluginApi.Resolver.Records.{ResolvedPluginInstance}
use appspine_packages.PluginApi.Resolver.Graph.{
  ResolutionGraph, resolved, ResolveOptions, shutdown_order, resolve_plugins,
}
use appspine_packages.PluginApi.Resolver.Keys.{instance_keys}
use appspine_packages.PluginApi.Resolver.Wiring.{IsWired}
use appspine_packages.PluginApi.Resolver.Exact.{resolve_plugins_order}
use appspine_packages.PluginApi.Resolver.Sound.{resolve_plugins-IsWired}

-- A capability comes from the host or from one of the instances.
abbrev pub IsSupplied : List Text → List ResolvedPluginInstance → Text → Type 0
IsSupplied hosted instances capability =
    (includes hosted capability ≡ true)
    ⊎ (any (λ p. includes p.provides capability) instances ≡ true)

-- Releasing one after the other, each instance still finds what it requires: the host has it, or an
-- instance that is released later provides it.
abbrev pub IsReleased : List Text → List ResolvedPluginInstance → Type 0
IsReleased hosted [] = Unit
IsReleased hosted (i ∷ rest) = All (IsSupplied hosted rest) i.requires × IsReleased hosted rest

any-reverse :
    (has : ResolvedPluginInstance → Bool) (l : List ResolvedPluginInstance)
    → any has (reverse l) ≡ any has l
any-reverse has [] = refl
any-reverse has (i ∷ l) =
    rw reverse-cons (any-append has (reverse l) (i ∷ []) ∙ rw (any-reverse has l) (ground arith))

IsSupplied-reverse :
    (hosted : List Text) (l : List ResolvedPluginInstance) (capability : Text)
    → IsSupplied hosted l capability
    → IsSupplied hosted (reverse l) capability
IsSupplied-reverse hosted l capability (inl h) = inl h
IsSupplied-reverse hosted l capability (inr h) = inr (any-reverse _ l ∙ h)

instance_keys-reverse :
    (l : List ResolvedPluginInstance) → instance_keys (reverse l) ≡ reverse (instance_keys l)
instance_keys-reverse [] = refl
instance_keys-reverse (i ∷ l) =
    ap instance_keys (reverse-cons i l)
    ∙ map-append (λ j. j.key) (reverse l) (i ∷ [])
    ∙ ap (λ ks. ks ++ i.key ∷ []) (instance_keys-reverse l)
    ∙ sym (reverse-cons i.key (instance_keys l))

reverse-snoc :
    (l : List ResolvedPluginInstance) (i : ResolvedPluginInstance)
    → reverse (l ++ i ∷ []) ≡ i ∷ reverse l
reverse-snoc l i = reverse-append l (i ∷ [])

IsReleased-of_IsWired :
    (host : List Text) (seen rest : List ResolvedPluginInstance)
    → IsWired host seen rest
    → IsReleased host (reverse seen)
    → IsReleased host (reverse (seen ++ rest))
IsReleased-of_IsWired hosted seen [] w r = rw append-nil r
IsReleased-of_IsWired hosted seen (i ∷ rest) (here, w) r =
    let found : All (IsSupplied hosted (reverse seen)) i.requires =
      All-mono (IsSupplied hosted seen) i.requires (λ c m. IsSupplied-reverse hosted seen c m)
        here in
    rw (append_assoc seen (i ∷ []) rest) at
      (IsReleased-of_IsWired hosted (seen ++ i ∷ []) rest w (rw (reverse-snoc seen i) (found, r)))

-- In the order of shutdown, which holds the instances' keys in reverse, each instance is released
-- while all that it requires is still there.
pub shutdown_order-IsReleased :
    (sha256_hex : Text → Text) (options : ResolveOptions) (graph : ResolutionGraph)
    → resolve_plugins sha256_hex options ≡ resolved graph
    → (instance_keys (reverse graph.instances) ≡ shutdown_order graph)
      × IsReleased graph.host_capabilities (reverse graph.instances)
unfolding shutdown_order
shutdown_order-IsReleased sha256_hex options graph h = (
  instance_keys-reverse graph.instances
      ∙ ap reverse (resolve_plugins_order sha256_hex options graph [] h).1,
  IsReleased-of_IsWired graph.host_capabilities [] graph.instances
      (resolve_plugins-IsWired sha256_hex options graph h) tt,
)
