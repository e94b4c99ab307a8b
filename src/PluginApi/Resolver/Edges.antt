-- ===== src/PluginApi/Resolver/Edges.antt =====
-- packages/plugin-api/src/resolver/index.ts, `resolvePlugins`: the map from keys to waits that it orders.
use appspine_packages.Base.{
  ◌≡◌, refl, ◌∙◌, sym, ap, inl, inr, true, false, some, List, [], ◌∷◌, ◌++◌, map, arith, Bool-cases,
  Text, includes, same, dedupe, same_refl, same→eq, keys, get, put, Distinct,
}
use mathlib.Core.List.{map-append, append_assoc, append-nil}
use appspine_packages.PluginApi.Diagnostics.{has_errors}
use appspine_packages.PluginApi.Resolver.Records.{ResolvedPluginInstance}
use appspine_packages.PluginApi.Resolver.Graph.{
  ResolutionGraph, resolved, find_instance, Checked, graph_of, conclude,
}
use appspine_packages.PluginApi.Resolver.Topology.{topological_order}
use appspine_packages.PluginApi.Resolver.Topology.{Remaining, remaining_of, remaining_from}
use appspine_packages.PluginApi.Resolver.Topology.Order.{waits}
use appspine_packages.PluginApi.Resolver.Keys.{instance_keys, includes-snoc}

abbrev pub edges : List ResolvedPluginInstance → Remaining
edges instances = map (λ i. (i.key, dedupe i.depends_on)) instances

put-fresh :
    (k : Text) (v : List Text) (m : Remaining)
    → includes (keys m) k ≡ false
    → put k v m ≡ m ++ (k, v) ∷ []
unfolding put includes
put-fresh k v [] h = refl
put-fresh k v ((j, w) ∷ m) h = ground (arith, put-fresh k v m)

remaining_from-append :
    (m : Remaining) (instances : List ResolvedPluginInstance)
    → Distinct (instance_keys instances)
    → ((k : Text) → includes (instance_keys instances) k ≡ true → includes (keys m) k ≡ false)
    → remaining_from m (map (λ i. (i.key, i.depends_on)) instances) ≡ m ++ edges instances
unfolding remaining_from includes
remaining_from-append m [] d apart = sym (append-nil m)
remaining_from-append m (i ∷ rest) (fresh, d) apart =
    let m' = m ++ (i.key, dedupe i.depends_on) ∷ [] in
    let entries : List (Text × List Text) = map (λ j. (j.key, j.depends_on)) rest in
    ap (λ n. remaining_from n entries)
      (put-fresh i.key (dedupe i.depends_on) m (apart i.key (ground (arith, same_refl i.key))))
    ∙ remaining_from-append m' rest d (λ k h.
      rw map-append (ground (arith, includes-snoc (keys m) i.key k, same→eq i.key k, apart k)))
    ∙ append_assoc m ((i.key, dedupe i.depends_on) ∷ []) (edges rest)

-- The map that the order is computed from.
pub remaining_of-edges :
    (instances : List ResolvedPluginInstance)
    → Distinct (instance_keys instances)
    → remaining_of (map (λ i. (i.key, i.depends_on)) instances) ≡ edges instances
unfolding remaining_of includes
remaining_of-edges instances d = remaining_from-append [] instances d (λ k h. refl)

pub keys-edges :
    (instances : List ResolvedPluginInstance) → keys (edges instances) ≡ instance_keys instances
keys-edges [] = refl
keys-edges (i ∷ rest) = ap (λ ks. i.key ∷ ks) (keys-edges rest)

pub waits-edges :
    (instances : List ResolvedPluginInstance) (k : Text) (i : ResolvedPluginInstance)
    → find_instance instances k ≡ some i
    → waits (edges instances) k ≡ dedupe i.depends_on
unfolding find_instance get
waits-edges [] k i f = cc
waits-edges (p ∷ rest) k i f = elim (Bool-cases (same p.key k)) [
  | inl e ↦
      let f' : some p ≡ some i = rw e at f in
      let found : p ≡ i = cc in rw e (ap (λ q. dedupe q.depends_on) found)
  | inr e ↦ rw e (waits-edges rest k i (rw e at f))
]

pub conclude-resolved :
    (sha256_hex : Text → Text) (checked : Checked) (graph : ResolutionGraph)
    → conclude sha256_hex checked ≡ resolved graph
    → (has_errors (
          checked.diagnostics
          ++ (topological_order (map (λ i. (i.key, i.depends_on)) checked.instances)).diagnostics)
        ≡ false)
      × (graph_of sha256_hex checked
            (topological_order (map (λ i. (i.key, i.depends_on)) checked.instances))
          ≡ graph)
unfolding conclude
conclude-resolved sha256_hex checked graph h = ground arith
