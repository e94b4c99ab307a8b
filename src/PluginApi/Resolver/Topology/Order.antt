-- ===== src/PluginApi/Resolver/Topology/Order.antt =====
-- packages/plugin-api/src/resolver/index.ts, `topologicalOrder`: which keys its result holds, and in
-- which order.
use appspine_packages.Base.{
  ◌≡◌, refl, ◌∙◌, sym, inl, inr, true, false, ◌||◌, ◌&&◌, not, List, [], ◌∷◌, ◌++◌, arith, get_or,
  Bool-cases, is_empty, length, select, All, All-mono, Text, includes, same, same_refl, same→eq,
  includes-sorted, includes-append, keys, get, get-entries, All-includes, Distinct, Distinct-sorted,
  Distinct-append,
}
use mathlib.Core.List.{append-nil, append_assoc}
use appspine_packages.PluginApi.Resolver.Topology.{Remaining, frontier, place, place_all}
use appspine_packages.PluginApi.Resolver.Topology.Rounds.{
  rounds_ind, includes-place, includes-select-keys, includes-frontier,
}

-- The keys that a key waits for.
abbrev pub waits : Remaining → Text → List Text
waits graph k = get_or (get k graph) []

-- Each key stands behind every key that it waits for: `seen` are those already passed.
abbrev pub IsOrdered : Remaining → List Text → List Text → Type 0
IsOrdered graph seen [] = Unit
IsOrdered graph seen (k ∷ ks) =
    All (λ d. includes seen d ≡ true) (waits graph k) × IsOrdered graph (seen ++ k ∷ []) ks

IsOrdered-append :
    (graph : Remaining) (seen xs ys : List Text)
    → IsOrdered graph seen xs
    → IsOrdered graph (seen ++ xs) ys
    → IsOrdered graph seen (xs ++ ys)
IsOrdered-append graph seen [] ys h k = rw append-nil at k
IsOrdered-append graph seen (x ∷ xs) ys h k =
    (h.0, IsOrdered-append graph (seen ++ x ∷ []) xs ys h.1 (rw append_assoc k))

-- Keys that wait only for what was seen may follow in any order.
IsOrdered-of_free :
    (graph : Remaining) (seen ks : List Text)
    → ((k : Text) → includes ks k ≡ true → All (λ d. includes seen d ≡ true) (waits graph k))
    → IsOrdered graph seen ks
unfolding includes
IsOrdered-of_free graph seen [] free = tt
IsOrdered-of_free graph seen (k ∷ ks) free = (
  free k (ground (arith, same_refl k)),
  IsOrdered-of_free graph (seen ++ k ∷ []) ks λ j m.
      All-mono (λ d. includes seen d ≡ true) (waits graph j)
        (λ d h. ground (arith, includes-append seen (k ∷ []) d)) (free j (ground arith)),
)

-- Every wait of a key that is left is still recorded or already placed.
abbrev Waits : Remaining → List Text → Text × List Text → Type 0
Waits graph order e = All (λ d. (includes order d || includes e.1 d) ≡ true) (waits graph e.0)

waits-free :
    (graph : Remaining) (order : List Text) (remaining : Remaining) (k : Text)
    → All (Waits graph order) remaining
    → includes (keys (select (λ e. is_empty e.1) remaining)) k ≡ true
    → All (λ d. includes order d ≡ true) (waits graph k)
unfolding includes
waits-free graph order [] k w m = cc
waits-free graph order ((j, []) ∷ rest) k w m = elim (Bool-cases (same j k)) [
  | inl e ↦ rw (← same→eq j k e) (All-mono _ (waits graph j) (λ d h. ground arith) w.0)
  | inr e ↦ waits-free graph order rest k w.1 (ground arith)
]
waits-free graph order ((j, d ∷ deps) ∷ rest) k w m = waits-free graph order rest k w.1 m

includes-frontier_free :
    (graph : Remaining) (order : List Text) (remaining : Remaining) (k : Text)
    → All (Waits graph order) remaining
    → includes (frontier remaining) k ≡ true
    → All (λ d. includes order d ≡ true) (waits graph k)
unfolding frontier
includes-frontier_free graph order remaining k w m =
    waits-free graph order remaining k w (sym (includes-sorted _ k) ∙ m)

includes-select-not :
    (ready deps : List Text) (d : Text)
    → includes (select (λ t. not (includes ready t)) deps) d
      ≡ (not (includes ready d) && includes deps d)
unfolding includes
includes-select-not ready [] d = ground arith
includes-select-not ready (x ∷ deps) d =
    ground (arith, includes-select-not ready deps d, same→eq x d)

Waits-place :
    (graph : Remaining) (order ready : List Text) (remaining : Remaining)
    → All (Waits graph order) remaining
    → All (Waits graph (order ++ ready)) (place ready remaining)
unfolding place
Waits-place graph order ready [] w = tt
Waits-place graph order ready ((k, deps) ∷ rest) w =
    let kept =
      All-mono _ (waits graph k)
        (λ d h. ground (arith, includes-append order ready d, includes-select-not ready deps d))
        w.0 in
    let others = Waits-place graph order ready rest w.1 in
    elim (Bool-cases (includes ready k)) [ inl e ↦ rw e others | inr e ↦ rw e (kept, others) ]

record OrderInv (graph remaining : Remaining) (order : List Text) : Type 0 where
  waiting : All (Waits graph order) remaining
  ordered : IsOrdered graph [] order

OrderInv-round :
    (graph remaining : Remaining) (order : List Text)
    → OrderInv graph remaining order
    → OrderInv graph (place (frontier remaining) remaining) (order ++ frontier remaining)
OrderInv-round graph remaining order inv = record {
  waiting = Waits-place graph order (frontier remaining) remaining inv.waiting;
  ordered = IsOrdered-append graph [] order (frontier remaining) inv.ordered (
      IsOrdered-of_free graph order (frontier remaining)
        (λ k m. includes-frontier_free graph order remaining k inv.waiting m));
}

Waits-start : (graph : Remaining) → Distinct (keys graph) → All (Waits graph []) graph
unfolding includes
Waits-start graph distinct =
    All-mono _ graph
      (λ e known. All-mono _ (waits graph e.0) (λ d h. h) (rw known (All-includes e.1)))
      (get-entries graph distinct)

-- In the order each key stands behind every key that it waits for, if the map has each key once.
pub place_all-IsOrdered :
    (graph : Remaining) → Distinct (keys graph) → IsOrdered graph [] (place_all graph).order
unfolding place_all
place_all-IsOrdered graph distinct =
    (rounds_ind (OrderInv graph) (λ r o busy. OrderInv-round graph r o) (length graph) graph []
      (record { waiting = Waits-start graph distinct; ordered = tt })).ordered

-- What is placed and what is left make up the keys of the graph, each once.
pub record KeysInv (graph remaining : Remaining) (order : List Text) : Type 0 where
  pub covered :
      (k : Text) → (includes order k || includes (keys remaining) k) ≡ includes (keys graph) k
  pub apart : (k : Text) → includes order k ≡ true → includes (keys remaining) k ≡ false
  pub once : Distinct order
  pub left_once : Distinct (keys remaining)

Distinct-select :
    (remaining : Remaining)
    → Distinct (keys remaining)
    → Distinct (keys (select (λ e. is_empty e.1) remaining))
Distinct-select [] d = tt
Distinct-select ((k, []) ∷ rest) (fresh, d) =
    (ground (arith, includes-select-keys (λ e. is_empty e.1) rest k), Distinct-select rest d)
Distinct-select ((k, x ∷ deps) ∷ rest) (fresh, d) = Distinct-select rest d

Distinct-frontier :
    (remaining : Remaining) → Distinct (keys remaining) → Distinct (frontier remaining)
unfolding frontier
Distinct-frontier remaining d = Distinct-sorted _ (Distinct-select remaining d)

Distinct-place :
    (ready : List Text) (remaining : Remaining)
    → Distinct (keys remaining)
    → Distinct (keys (place ready remaining))
unfolding place
Distinct-place ready [] d = tt
Distinct-place ready ((k, deps) ∷ rest) (fresh, d) =
    let others = Distinct-place ready rest d in
    elim (Bool-cases (includes ready k)) [
      | inl e ↦ rw e others
      | inr e ↦ rw e (includes-place ready rest k ∙ rw fresh (ground arith), others)
    ]

KeysInv-round :
    (graph remaining : Remaining) (order : List Text)
    → KeysInv graph remaining order
    → KeysInv graph (place (frontier remaining) remaining) (order ++ frontier remaining)
KeysInv-round graph remaining order inv =
    let ready = frontier remaining in
    record {
      covered = λ k. ground (
        arith,
        inv.covered k,
        includes-append order ready k,
        includes-place ready remaining k,
        includes-frontier remaining k,
      );
      apart = λ k h.
          ground
            (arith, inv.apart k, includes-append order ready k, includes-place ready remaining k);
      once =
          Distinct-append order ready inv.once (Distinct-frontier remaining inv.left_once)
            (λ k h. ground (arith, inv.apart k, includes-frontier remaining k));
      left_once = Distinct-place ready remaining inv.left_once;
    }

pub place_all-KeysInv :
    (graph : Remaining)
    → Distinct (keys graph)
    → KeysInv graph (place_all graph).stuck (place_all graph).order
unfolding place_all includes
place_all-KeysInv graph distinct =
    rounds_ind (KeysInv graph) (λ r o busy. KeysInv-round graph r o) (length graph) graph []
      (record { covered = λ k. refl; apart = λ k h. cc; once = tt; left_once = distinct })
