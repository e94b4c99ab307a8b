-- ===== src/PluginApi/Resolver/Topology/Cycles.antt =====
-- packages/plugin-api/src/resolver/index.ts, `topologicalOrder`: when it reports a cycle.
use appspine_packages.Base.{
  ℕ, zero, suc, ◌<◌, ◌≡◌, refl, ◌∙◌, sym, ap, inl, inr, Bool, true, false, not, List, [], ◌∷◌,
  arith, Bool-cases, is_empty, length, select, any, All, All-both, All-select, Text, includes, same,
  same_refl, same→eq, includes-sorted, keys, Distinct, ◌||◌,
}
use appspine_packages.PluginApi.Resolver.Topology.{Remaining, frontier, place, place_all}
use appspine_packages.PluginApi.Resolver.Topology.Order.{place_all-KeysInv}
use appspine_packages.PluginApi.Resolver.Topology.Rounds.{rounds_ind, rounds_end, includes-place}

All-place :
    (P : Text → Text → Type 0) (ready : List Text) (remaining : Remaining)
    → All (λ e. All (P e.0) e.1) remaining
    → All (λ e. All (P e.0) e.1) (place ready remaining)
unfolding place
All-place P ready [] h = tt
All-place P ready ((k, deps) ∷ rest) (here, h) =
    let others = All-place P ready rest h in
    elim (Bool-cases (includes ready k)) [
      | inl e ↦ rw e others
      | inr e ↦ rw e (All-select (P k) (λ d. not (includes ready d)) deps here, others)
    ]

All-select-not :
    (ready deps : List Text)
    → All (λ d. includes ready d ≡ false) (select (λ d. not (includes ready d)) deps)
All-select-not ready [] = tt
All-select-not ready (d ∷ deps) = elim (Bool-cases (includes ready d)) [
  | inl e ↦ rw e (All-select-not ready deps)
  | inr e ↦ rw e (e, All-select-not ready deps)
]

place-unready :
    (ready : List Text) (remaining : Remaining)
    → All (λ e. All (λ d. includes ready d ≡ false) e.1) (place ready remaining)
unfolding place
place-unready ready [] = tt
place-unready ready ((k, deps) ∷ rest) =
    let others = place-unready ready rest in
    elim (Bool-cases (includes ready k)) [
      | inl e ↦ rw e others
      | inr e ↦ rw e (All-select-not ready deps, others)
    ]

place-closed :
    (ready : List Text) (remaining : Remaining)
    → All (λ e. All (λ d. includes (keys remaining) d ≡ true) e.1) remaining
    → All
        (λ e. All (λ d. includes (keys (place ready remaining)) d ≡ true) e.1)
        (place ready remaining)
place-closed ready remaining closed =
    All-both (λ e. All (λ d. includes (keys remaining) d ≡ true) e.1)
      (λ e. All (λ d. includes ready d ≡ false) e.1)
      (λ e. All (λ d. includes (keys (place ready remaining)) d ≡ true) e.1) (place ready remaining)
      (λ e.
        All-both (λ d. includes (keys remaining) d ≡ true) (λ d. includes ready d ≡ false)
          (λ d. includes (keys (place ready remaining)) d ≡ true) e.1
          (λ d o n. ground (arith, includes-place ready remaining d)))
      (All-place (λ k d. includes (keys remaining) d ≡ true) ready remaining closed)
      (place-unready ready remaining)

-- An entry of the map at a key that is among its keys.
entry_at :
    (P : Text × List Text → Type 0) (remaining : Remaining) (k : Text)
    → All P remaining
    → includes (keys remaining) k ≡ true
    → (deps : List Text) × P (k, deps)
unfolding includes
entry_at P [] k h m = cc
entry_at P ((j, deps) ∷ rest) k (here, h) m = elim (Bool-cases (same j k)) [
  | inl e ↦ (deps, rw (← same→eq j k e) here)
  | inr e ↦ entry_at P rest k h (ground arith)
]

idle-of_absent :
    (remaining : Remaining)
    → ((k : Text) → includes (keys (select (λ e. is_empty e.1) remaining)) k ≡ false)
    → All (λ e. is_empty e.1 ≡ false) remaining
unfolding includes
idle-of_absent [] absent = tt
idle-of_absent ((k, []) ∷ rest) absent = absurd (ground (arith, absent k, same_refl k))
idle-of_absent ((k, d ∷ deps) ∷ rest) absent = (refl, idle-of_absent rest absent)

-- Where nothing is ready, every key waits for something.
frontier-idle :
    (remaining : Remaining) → frontier remaining ≡ [] → All (λ e. is_empty e.1 ≡ false) remaining
unfolding frontier includes
frontier-idle remaining idle =
    idle-of_absent remaining λ k. sym (includes-sorted _ k) ∙ ap (λ l. includes l k) idle

-- Every wait is for a key of the map.
abbrev pub IsClosed : Remaining → Type 0
IsClosed graph = All (λ e. All (λ d. includes (keys graph) d ≡ true) e.1) graph

-- Every wait goes down in the rank, so the map has no cycle.
abbrev pub IsRanked : (Text → ℕ) → Remaining → Type 0
IsRanked rank graph = All (λ e. All (λ d. rank d < rank e.0) e.1) graph

place_all-IsClosed : (graph : Remaining) → IsClosed graph → IsClosed (place_all graph).stuck
unfolding place_all
place_all-IsClosed graph closed =
    rounds_ind (λ r o. IsClosed r) (λ r o busy h. place-closed (frontier r) r h) (length graph)
      graph [] closed

place_all-IsRanked :
    (rank : Text → ℕ) (graph : Remaining)
    → IsRanked rank graph
    → IsRanked rank (place_all graph).stuck
unfolding place_all
place_all-IsRanked rank graph ranked =
    rounds_ind (λ r o. IsRanked rank r)
      (λ r o busy h. All-place (λ k d. rank d < rank k) (frontier r) r h) (length graph) graph []
      ranked

place_all-idle : (graph : Remaining) → All (λ e. is_empty e.1 ≡ false) (place_all graph).stuck
unfolding place_all
place_all-idle graph = frontier-idle _ (rounds_end (length graph) graph [] (omega arith))

any_waits :
    (xs deps : List Text)
    → is_empty deps ≡ false
    → All (λ d. includes xs d ≡ true) deps
    → any (λ d. includes xs d) deps ≡ true
any_waits xs [] h a = cc
any_waits xs (d ∷ deps) h (here, a) = ground arith

-- If every wait in the map is for a key of the map, a reported cycle is real: each of its keys waits
-- for one of them.
pub place_all-stuck_waits :
    (graph : Remaining)
    → IsClosed graph
    → All
        (λ e. any (λ d. includes (keys (place_all graph).stuck) d) e.1 ≡ true)
        (place_all graph).stuck
place_all-stuck_waits graph closed =
    let stuck = (place_all graph).stuck in
    All-both (λ e. is_empty e.1 ≡ false) (λ e. All (λ d. includes (keys stuck) d ≡ true) e.1)
      (λ e. any (λ d. includes (keys stuck) d) e.1 ≡ true) stuck (λ e. any_waits (keys stuck) e.1)
      (place_all-idle graph) (place_all-IsClosed graph closed)

-- What is known of each key that a cycle leaves over.
abbrev Left : (Text → ℕ) → Remaining → Text × List Text → Type 0
Left rank stuck e =
    (is_empty e.1 ≡ false)
    × All (λ d. includes (keys stuck) d ≡ true) e.1
    × All (λ d. rank d < rank e.0) e.1

first_wait :
    (rank : Text → ℕ) (stuck : Remaining) (k : Text) (deps : List Text)
    → Left rank stuck (k, deps)
    → (d : Text) × (includes (keys stuck) d ≡ true) × (rank d < rank k)
first_wait rank stuck k [] (h, _, _) = cc
first_wait rank stuck k (d ∷ deps) (h, (here, _), (lower, _)) = (d, here, lower)

-- An infinite descent: no key that is left has a rank below any bound.
descent :
    (rank : Text → ℕ) (stuck : Remaining)
    → All (Left rank stuck) stuck
    → (n : ℕ) (k : Text) → includes (keys stuck) k ≡ true
    → ¬ (rank k < n)
descent rank stuck left zero k m below = omega arith
descent rank stuck left (suc n) k m below =
    let (deps, here) = entry_at (Left rank stuck) stuck k left m in
    let (d, m', lower) = first_wait rank stuck k deps here in
    descent rank stuck left n d m' (omega arith)

nil-of_absent :
    (remaining : Remaining) → ((k : Text) → ¬ (includes (keys remaining) k ≡ true)) → remaining ≡ []
unfolding includes
nil-of_absent [] absent = refl
nil-of_absent ((k, deps) ∷ rest) absent = absurd (absent k (ground (arith, same_refl k)))

ranked-stuck :
    (rank : Text → ℕ) (graph : Remaining)
    → IsClosed graph
    → IsRanked rank graph
    → (place_all graph).stuck ≡ []
ranked-stuck rank graph closed ranked =
    let stuck = (place_all graph).stuck in
    let both =
      All-both (λ e. All (λ d. includes (keys stuck) d ≡ true) e.1)
        (λ e. All (λ d. rank d < rank e.0) e.1)
        (λ e. All (λ d. includes (keys stuck) d ≡ true) e.1 × All (λ d. rank d < rank e.0) e.1)
        stuck (λ e c r. (c, r)) (place_all-IsClosed graph closed)
        (place_all-IsRanked rank graph ranked) in
    let left =
      All-both (λ e. is_empty e.1 ≡ false)
        (λ e. All (λ d. includes (keys stuck) d ≡ true) e.1 × All (λ d. rank d < rank e.0) e.1)
        (Left rank stuck) stuck (λ e i b. (i, b.0, b.1)) (place_all-idle graph) both in
    nil-of_absent stuck (λ k m. descent rank stuck left (suc (rank k)) k m (omega arith))

none_left :
    (order : List Text) (stuck : Remaining) {b : Bool}
    → stuck ≡ []
    → (k : Text) → (includes order k || includes (keys stuck) k) ≡ b
    → includes order k ≡ b
unfolding includes
none_left order [] e k h = ground arith
none_left order (x ∷ stuck) e k h = cc

-- Where every wait is for a key of the map, and of a lower rank than its own, and no key stands twice
-- in the map, no cycle is reported, and the order holds exactly the keys of the map, each once.
pub place_all-stuck_nil :
    (rank : Text → ℕ) (graph : Remaining) (k : Text)
    → Distinct (keys graph)
    → IsClosed graph
    → IsRanked rank graph
    → ((place_all graph).stuck ≡ [])
      × Distinct (place_all graph).order
      × (includes (place_all graph).order k ≡ includes (keys graph) k)
unfolding includes
place_all-stuck_nil rank graph k once closed ranked =
    let nothing = ranked-stuck rank graph closed ranked in
    let inv = place_all-KeysInv graph once in
    (nothing, inv.once, none_left _ _ nothing k (inv.covered k))
