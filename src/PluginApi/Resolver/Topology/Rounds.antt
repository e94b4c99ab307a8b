-- ===== src/PluginApi/Resolver/Topology/Rounds.antt =====
-- packages/plugin-api/src/resolver/index.ts, `topologicalOrder`: a proof rule for its rounds, and
-- their number.
use appspine_packages.Base.{
  ℕ, zero, suc, ◌≤◌, ◌<◌, ◌≡◌, refl, ◌∙◌, sym, inl, inr, Bool, true, false, ◌&&◌, not, List, [],
  ◌∷◌, ◌++◌, arith, Bool-cases, is_empty, length, select, Text, includes, same_refl, same→eq,
  sorted, sort_by, includes-sorted, keys,
}
use appspine_packages.PluginApi.Resolver.Topology.{Remaining, frontier, place, rounds}

-- What holds before the loop and survives a round holds when it ends.
pub rounds_ind :
    (P : Remaining → List Text → Type 0)
    → ((remaining : Remaining) (order : List Text)
        → is_empty (frontier remaining) ≡ false
        → P remaining order
        → P (place (frontier remaining) remaining) (order ++ frontier remaining))
    → (n : ℕ) (remaining : Remaining) (order : List Text) → P remaining order
    → P (rounds n remaining order).stuck (rounds n remaining order).order
unfolding rounds
rounds_ind P keep zero remaining order p = p
rounds_ind P keep (suc n) [] order p = p
rounds_ind P keep (suc n) (e ∷ es) order p = elim (Bool-cases (is_empty (frontier (e ∷ es)))) [
  | inl idle ↦ rw idle p
  | inr busy ↦ rw busy (rounds_ind P keep n _ _ (keep (e ∷ es) order busy p))
]

pub some_member : (xs : List Text) → is_empty xs ≡ false → (t : Text) × (includes xs t ≡ true)
unfolding includes
some_member [] h = cc
some_member (x ∷ xs) h = (x, ground (arith, same_refl x))

pub includes-place :
    (ready : List Text) (remaining : Remaining) (k : Text)
    → includes (keys (place ready remaining)) k
      ≡ (not (includes ready k) && includes (keys remaining) k)
unfolding place includes
includes-place ready [] k = ground arith
includes-place ready ((j, deps) ∷ rest) k = ground (arith, includes-place ready rest k, same→eq j k)

length-place-le :
    (ready : List Text) (remaining : Remaining) → length (place ready remaining) ≤ length remaining
unfolding place
length-place-le ready [] = omega arith
length-place-le ready ((j, deps) ∷ rest) = ground (arith, length-place-le ready rest)

length-place-lt :
    (ready : List Text) (remaining : Remaining) (k : Text)
    → includes ready k ≡ true
    → includes (keys remaining) k ≡ true
    → length (place ready remaining) < length remaining
unfolding place includes
length-place-lt ready [] k h m = cc
length-place-lt ready ((j, deps) ∷ rest) k h m =
    ground (arith, length-place-le ready rest, length-place-lt ready rest k h, same→eq j k)

pub includes-select-keys :
    (p : Text × List Text → Bool) (remaining : Remaining) (k : Text)
    → includes (keys (select p remaining)) k ≡ true
    → includes (keys remaining) k ≡ true
unfolding includes
includes-select-keys p [] k h = h
includes-select-keys p (e ∷ rest) k h = ground (arith, includes-select-keys p rest k)

-- A key of the frontier is one of those left.
pub includes-frontier :
    (remaining : Remaining) (k : Text)
    → includes (frontier remaining) k ≡ true
    → includes (keys remaining) k ≡ true
unfolding frontier
includes-frontier remaining k h = includes-select-keys _ remaining k (sym (includes-sorted _ k) ∙ h)

round_shrinks :
    (remaining : Remaining)
    → is_empty (frontier remaining) ≡ false
    → length (place (frontier remaining) remaining) < length remaining
round_shrinks remaining busy =
    let (k, ready) = some_member (frontier remaining) busy in
    length-place-lt (frontier remaining) remaining k ready (includes-frontier remaining k ready)

pub frontier-nil : frontier [] ≡ []
unfolding frontier sorted sort_by
frontier-nil = refl

pub eq-nil : (xs : List Text) → is_empty xs ≡ true → xs ≡ []
eq-nil [] h = refl
eq-nil (x ∷ xs) h = cc

-- With as much fuel as there are keys the loop ends by its own tests: nothing is left, or nothing
-- that is left is ready.
pub rounds_end :
    (n : ℕ) (remaining : Remaining) (order : List Text)
    → length remaining ≤ n
    → frontier (rounds n remaining order).stuck ≡ []
unfolding rounds
rounds_end zero [] order h = frontier-nil
rounds_end zero (e ∷ es) order h = absurd (omega arith)
rounds_end (suc n) [] order h = frontier-nil
rounds_end (suc n) (e ∷ es) order h = elim (Bool-cases (is_empty (frontier (e ∷ es)))) [
  | inl idle ↦ rw idle (eq-nil _ idle)
  | inr busy ↦ rw busy (rounds_end n _ _ (omega (arith, round_shrinks (e ∷ es) busy)))
]
