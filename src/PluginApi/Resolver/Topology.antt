-- ===== src/PluginApi/Resolver/Topology.antt =====
-- packages/plugin-api/src/resolver/index.ts, `topologicalOrder`: Kahn's algorithm over the map
-- from instance keys to the keys that they wait for.
pub mod Rounds
pub mod Order
pub mod Cycles
pub mod Canonical
use appspine_packages.Base.{
  join, ℕ, zero, suc, Bool, not, Option, none, some, List, [], ◌∷◌, ◌++◌, if◌then◌else◌, is_empty,
  length, select, Text, text, say, includes, dedupe, sorted, Dict, put, keys, map,
}
use appspine_packages.PluginApi.Diagnostics.{PluginDiagnostic, diagnostic}

-- What is left to place: each key with the set of keys that it waits for.
abbrev pub Remaining : Type 0
Remaining = Dict (List Text)

-- `new Map(entries)`, with `new Set(dependsOn)` for each value.
unfoldable pub remaining_from : Remaining → List (Text × List Text) → Remaining
remaining_from m [] = m
remaining_from m ((k, deps) ∷ rest) = remaining_from (put k (dedupe deps) m) rest

unfoldable pub remaining_of : List (Text × List Text) → Remaining
unfolding remaining_from
remaining_of entries = remaining_from [] entries

unfoldable pub frontier : Remaining → List Text
frontier remaining = sorted (keys (select (λ e. is_empty e.1) remaining))

-- `remaining.delete(key)` and `deps.delete(key)` for each key of the frontier.
unfoldable pub place : List Text → Remaining → Remaining
place ready [] = []
place ready ((k, deps) ∷ rest) =
    if includes ready k
    then place ready rest
    else (k, select (λ d. not (includes ready d)) deps) ∷ place ready rest

unfoldable pub cycle_diagnostic : Remaining → PluginDiagnostic
cycle_diagnostic remaining =
    diagnostic (text "dependency-cycle")
      (say (text "dependency cycle between: " ∷ join (text " -> ") (sorted (keys remaining)) ∷ []))
      (record {
        plugin_id = none;
        instance_id = none;
        path = some (text "requires");
        severity = none;
      })

-- The order so far, and the keys that a cycle left over (none if there is no cycle).
pub record Placement : Type 0 where
  pub order : List Text
  pub stuck : Remaining

-- One round of the `while` loop for each unit of fuel; the number of keys is enough of it.
unfoldable pub rounds : ℕ → Remaining → List Text → Placement
rounds zero remaining order = record { order = order; stuck = remaining }
rounds (suc n) [] order = record { order = order; stuck = [] }
rounds (suc n) (e ∷ es) order =
    let remaining = e ∷ es in
    let ready = frontier remaining in
    let next = rounds n (place ready remaining) (order ++ ready) in
    if is_empty ready then record { order = order; stuck = remaining } else next

unfoldable pub place_all : Remaining → Placement
place_all remaining = rounds (length remaining) remaining []

pub record Ordered : Type 0 where
  pub order : List Text
  pub diagnostics : List PluginDiagnostic

unfoldable pub topological_order : List (Text × List Text) → Ordered
topological_order entries =
    let placed = place_all (remaining_of entries) in
    record {
      order = placed.order;
      diagnostics = if is_empty placed.stuck then [] else cycle_diagnostic placed.stuck ∷ [];
    }
