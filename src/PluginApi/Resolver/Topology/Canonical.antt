-- ===== src/PluginApi/Resolver/Topology/Canonical.antt =====
-- packages/plugin-api/src/resolver/index.ts, `topologicalOrder`: its result and the order of the
-- instances.
use mathlib.Core.List.Perm
use appspine_packages.Base.{
  ℕ, zero, suc, ◌≡◌, refl, inl, inr, not, List, [], ◌∷◌, ◌++◌, arith, if◌then◌else◌, Bool-cases,
  is_empty, length, select, Text, includes, sorted-eq_of_Perm, Perm, select-perm, length-eq_of_Perm,
  flat_map, flat_map-perm,
}
use appspine_packages.PluginApi.Resolver.Topology.{Remaining, frontier, place, rounds, place_all}
use appspine_packages.PluginApi.Resolver.Topology.Rounds.{frontier-nil}

place-flat_map :
    (ready : List Text) (remaining : Remaining)
    → place ready remaining
      ≡ flat_map
          (λ e.
            if includes ready e.0 then [] else (e.0, select (λ d. not (includes ready d)) e.1) ∷ [])
          remaining
unfolding place
place-flat_map ready [] = refl
place-flat_map ready ((k, deps) ∷ rest) = ground (arith, place-flat_map ready rest)

place-perm : (ready : List Text) {r s : Remaining} → Perm r s → Perm (place ready r) (place ready s)
place-perm ready {r} {s} p = rw (place-flat_map ready r, place-flat_map ready s) (flat_map-perm _ p)

frontier-eq_of_Perm : {r s : Remaining} → Perm r s → frontier r ≡ frontier s
unfolding frontier
frontier-eq_of_Perm p = sorted-eq_of_Perm (Perm.map (λ e. e.0) (select-perm (λ e. is_empty e.1) p))

rounds-suc :
    (n : ℕ) (remaining : Remaining) (order : List Text)
    → rounds (suc n) remaining order ≡ (
        if is_empty (frontier remaining)
        then record { order = order; stuck = remaining }
        else rounds n (place (frontier remaining) remaining) (order ++ frontier remaining))
unfolding rounds
rounds-suc n [] order = rw frontier-nil refl
rounds-suc n (e ∷ es) order = refl

rounds-order_of_Perm :
    (n : ℕ) {r s : Remaining} (order : List Text)
    → Perm r s
    → (rounds n r order).order ≡ (rounds n s order).order
unfolding rounds
rounds-order_of_Perm zero order p = refl
rounds-order_of_Perm (suc n) {r} {s} order p =
    rw (rounds-suc n r order, rounds-suc n s order, ← frontier-eq_of_Perm p)
      (elim (Bool-cases (is_empty (frontier r))) [
        | inl idle ↦ rw idle refl
        | inr busy ↦
            rw busy (rounds-order_of_Perm n (order ++ frontier r) (place-perm (frontier r) p))
      ])

-- Maps with the same entries, however they are arranged, are placed in the same order.
pub place_all-order_of_Perm :
    {r s : Remaining} → Perm r s → (place_all r).order ≡ (place_all s).order
unfolding place_all
place_all-order_of_Perm {r} {s} p =
    rw (← length-eq_of_Perm p) (rounds-order_of_Perm (length r) [] p)
