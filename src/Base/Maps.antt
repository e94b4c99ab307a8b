-- ===== src/Base/Maps.antt =====
-- A JavaScript `Map` with string keys: an association list in insertion order.
use mathlib.Core.Path.{◌≡◌, refl}
use mathlib.Core.Bool.{Bool}
use mathlib.Core.Option.{Option, none, some}
use mathlib.Core.List.{List, [], ◌∷◌, ◌++◌, map}
use native.Mathlib.Omega.{arith}
use appspine_packages.Base.Tests.{if◌then◌else◌, get_or, is_some}
use appspine_packages.Base.Texts.{Text, same, same_refl, same→eq, same_comm}

abbrev pub Dict {ℓ} : Type ℓ → Type ℓ
Dict V = List (Text × V)

module _ {ℓ} {V : Type ℓ} where
  -- `map.get(k)`
  unfoldable pub get : Text → Dict V → Option V
  get k [] = none
  get k ((j, v) ∷ m) = if same j k then some v else get k m

  -- `map.set(k, v)`: a key that is there keeps its place.
  unfoldable pub put : Text → V → Dict V → Dict V
  put k v [] = (k, v) ∷ []
  put k v ((j, w) ∷ m) = if same j k then (j, v) ∷ m else (j, w) ∷ put k v m

  abbrev pub keys : Dict V → List Text
  keys m = map (λ e. e.0) m

  -- `map.has(k)`
  abbrev pub has_key : Text → Dict V → Bool
  has_key k m = is_some (get k m)

  pub get-put :
      (k j : Text) (v : V) (m : Dict V) → get j (put k v m) ≡ (if same k j then some v else get j m)
  unfolding get put
  get-put k j v [] = refl
  get-put k j v ((i, w) ∷ m) = ground (
    arith,
    same→eq i k,
    same→eq i j,
    same→eq k j,
    same_refl i,
    same_refl k,
    same_refl j,
    same_comm i k,
    get-put k j v m,
  )

  pub get-append :
      (k : Text) (m n : Dict V) → get k (m ++ n) ≡ (if has_key k m then get k m else get k n)
  unfolding get
  get-append k [] n = refl
  get-append k ((j, v) ∷ m) n = ground (arith, get-append k m n)

module _ {ℓ} {V : Type ℓ} where
  -- `const list = map.get(k) ?? []; list.push(v); map.set(k, list)`
  unfoldable pub push_at : Text → V → Dict (List V) → Dict (List V)
  unfolding get put
  push_at k v m = put k (get_or (get k m) [] ++ v ∷ []) m

  pub get-push_at :
      (k j : Text) (v : V) (m : Dict (List V))
      → get_or (get j (push_at k v m)) []
        ≡ (if same k j then get_or (get j m) [] ++ v ∷ [] else get_or (get j m) [])
  unfolding push_at
  get-push_at k j v m = ground (arith, get-put k j (get_or (get k m) [] ++ v ∷ []) m, same→eq k j)
