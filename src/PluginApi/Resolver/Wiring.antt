-- ===== src/PluginApi/Resolver/Wiring.antt =====
-- packages/plugin-api/src/resolver/index.ts, `resolvePlugins`: requirements and the order of registration.
use appspine_packages.Base.{
  ◌≡◌, ◌∙◌, sym, ◌⊎◌, inl, inr, true, some, List, [], ◌∷◌, ◌++◌, arith, any, All, All-mono, Text,
  includes, dedupe, same_refl, includes-dedupe, Dict, Distinct,
}
use appspine_packages.PluginApi.Resolver.Records.{ResolvedPluginInstance}
use appspine_packages.PluginApi.Resolver.Graph.{find_instance, in_order}
use appspine_packages.PluginApi.Resolver.Topology.{Remaining}
use appspine_packages.PluginApi.Resolver.Topology.Order.{waits, IsOrdered}
use appspine_packages.PluginApi.Resolver.Providers.{provided_by, provides_as}
use appspine_packages.PluginApi.Resolver.Keys.{instance_keys}
use appspine_packages.PluginApi.Resolver.Needs.{IsMet}
use appspine_packages.PluginApi.Resolver.Lookup.{
  find_instance-of_key, key-of_any, All-at, find_instance-has, in_order-snoc, any-in_order,
}

-- Registering one after the other, each instance finds every capability that it requires: the host
-- has it, or an instance that is already registered provides it.
abbrev pub IsWired : List Text → List ResolvedPluginInstance → List ResolvedPluginInstance → Type 0
IsWired host registered [] = Unit
IsWired host registered (i ∷ rest) =
    All
      (λ capability.
        (includes host capability ≡ true)
        ⊎ (any (λ p. includes p.provides capability) registered ≡ true))
      i.requires
    × IsWired host (registered ++ i ∷ []) rest

module _ (host : List Text) (providers : Dict (List Text)) (instances : List ResolvedPluginInstance)
    (distinct : Distinct (instance_keys instances))
    (listed : (k capability : Text)
      → includes (provided_by providers capability) k
        ≡ any (provides_as k capability) instances) where
  -- A requirement is met among the instances of the keys that are already passed.
  met_before :
      (seen : List Text) (depends_on : List Text) (capability : Text)
      → All (λ d. includes seen d ≡ true) (dedupe depends_on)
      → IsMet host providers depends_on capability
      → (includes host capability ≡ true)
        ⊎ (any (λ p. includes p.provides capability) (in_order instances seen) ≡ true)
  met_before seen depends_on capability waited (inl h) = inl h
  met_before seen depends_on capability waited (inr (k, m, p)) =
      let provided = sym (listed k capability) ∙ p in
      let (i, found, named) =
        find_instance-of_key instances k (key-of_any _ instances k provided) in
      inr (
        any-in_order (λ q. includes q.provides capability) instances seen k i
          (All-at seen (dedupe depends_on) k waited (includes-dedupe depends_on k ∙ m)) found
          (find_instance-has (λ q. includes q.provides capability) instances k i distinct provided
            found))

  -- What the order waits for is what the instances depend on.
  module _ (graph : Remaining)
      (waiting : (k : Text) (i : ResolvedPluginInstance)
        → find_instance instances k ≡ some i
        → waits graph k ≡ dedupe i.depends_on)
      (met : (k : Text) (i : ResolvedPluginInstance)
        → find_instance instances k ≡ some i
        → All (IsMet host providers i.depends_on) i.requires) where
    pub IsWired-of_IsOrdered :
        (seen ks : List Text)
        → ((k : Text) → includes ks k ≡ true → includes (instance_keys instances) k ≡ true)
        → IsOrdered graph seen ks
        → IsWired host (in_order instances seen) (in_order instances ks)
    unfolding includes in_order
    IsWired-of_IsOrdered seen [] known ordered = tt
    IsWired-of_IsOrdered seen (k ∷ ks) known (here, ordered) =
        let (i, found, named) =
          find_instance-of_key instances k (known k (ground (arith, same_refl k))) in
        rw (found, in_order)
          (
            All-mono (IsMet host providers i.depends_on) i.requires
                (λ c. met_before seen i.depends_on c (rw (waiting k i found) at here))
                (met k i found),
            rw (in_order-snoc instances seen k i found) at
                (IsWired-of_IsOrdered (seen ++ k ∷ []) ks (λ j m. known j (ground arith)) ordered),
          )
