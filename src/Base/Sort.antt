-- ===== src/Base/Sort.antt =====
-- Stable sorting by a comparison, as `Array.prototype.sort` does it, and why the result forgets
-- the order of the input.
use mathlib.Core.Path.{◌≡◌, refl}
use mathlib.Core.Logic.{◌⊎◌, inl, inr}
use mathlib.Core.Bool.{Bool, true, false, ◌||◌}
use mathlib.Core.List.{List, [], ◌∷◌, Perm}
use mathlib.Core.List.Perm
use native.Mathlib.Omega.{arith}
use appspine_packages.Base.Tests.{if◌then◌else◌, Bool-cases}
use appspine_packages.Base.Lists.{any}

module _ {ℓ} {A : Type ℓ} where
  unfoldable pub insert : (A → A → Bool) → A → List A → List A
  insert lt x [] = x ∷ []
  insert lt x (y ∷ ys) = if lt y x then y ∷ insert lt x ys else x ∷ y ∷ ys

  unfoldable pub sort_by : (A → A → Bool) → List A → List A
  unfolding insert
  sort_by lt [] = []
  sort_by lt (x ∷ xs) = insert lt x (sort_by lt xs)

  -- A strict order in which being incomparable is transitive.
  pub record IsWeakOrder (lt : A → A → Bool) : Type ℓ where
    pub asym : (a b : A) → lt a b ≡ true → lt b a ≡ false
    pub cotrans : (a b c : A) → lt a b ≡ true → (lt a c ≡ true) ⊎ (lt c b ≡ true)

  abbrev pub Comparable : (A → A → Bool) → A → A → Type ℓ
  Comparable lt x y = (lt x y ≡ true) ⊎ (lt y x ≡ true) ⊎ (x ≡ y)

  pub insert-perm : (lt : A → A → Bool) (x : A) (l : List A) → Perm (insert lt x l) (x ∷ l)
  unfolding insert
  insert-perm lt x [] = Perm.rfl
  insert-perm lt x (y ∷ l) = elim (Bool-cases (lt y x)) [
    | inl e ↦ rw e (Perm.trans (Perm.cons y (insert-perm lt x l)) (Perm.swap x y l))
    | inr e ↦ rw e Perm.rfl
  ]

  -- Sorting loses and adds nothing.
  pub sort_by-perm : (lt : A → A → Bool) (l : List A) → Perm (sort_by lt l) l
  unfolding sort_by
  sort_by-perm lt [] = Perm.rfl
  sort_by-perm lt (x ∷ l) =
      Perm.trans (insert-perm lt x (sort_by lt l)) (Perm.cons x (sort_by-perm lt l))

  any-insert :
      (p : A → Bool) (lt : A → A → Bool) (x : A) (l : List A)
      → any p (insert lt x l) ≡ (p x || any p l)
  unfolding insert
  any-insert p lt x [] = refl
  any-insert p lt x (y ∷ l) = ground (arith, any-insert p lt x l)

  pub any-sort_by : (p : A → Bool) (lt : A → A → Bool) (l : List A) → any p (sort_by lt l) ≡ any p l
  unfolding sort_by
  any-sort_by p lt [] = refl
  any-sort_by p lt (x ∷ l) = ground (arith, any-insert p lt x (sort_by lt l), any-sort_by p lt l)

  module _ (lt : A → A → Bool) (order : IsWeakOrder lt) where
    pub insert_comm :
        (x y : A) (l : List A)
        → Comparable lt x y
        → insert lt x (insert lt y l) ≡ insert lt y (insert lt x l)
    unfolding insert
    insert_comm x y [] c = ground (arith, order.asym x y, order.asym y x)
    insert_comm x y (z ∷ l) c = ground (
      arith,
      insert_comm x y l c,
      order.asym x y,
      order.asym y x,
      order.cotrans x y z,
      order.cotrans y x z,
      order.asym z x,
      order.asym z y,
    )
