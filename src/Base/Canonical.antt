-- ===== src/Base/Canonical.antt =====
-- Sorted texts and keyed sorts: membership, and independence of the order of the input.
use mathlib.Core.Path.{◌≡◌, refl, ◌∙◌, sym}
use mathlib.Core.Logic.{◌≢◌, inl, inr, ∥∥₁_elim}
use mathlib.Core.Bool.{Bool, true, false, ◌||◌}
use mathlib.Core.List.{
  List, [], ◌∷◌, ◌++◌, Perm, Permᴰ, Pairwise, mem-cons_self, rel_of_Pairwise-cons,
}
use mathlib.Core.List.Pairwise
use mathlib.Core.List.Perm
use mathlib.Core.HLevel.{¬_prop}
use native.Mathlib.Omega.{arith}
use appspine_packages.Base.Tests.{Bool-cases}
use appspine_packages.Base.Lists.{All, All-mono}
use appspine_packages.Base.Maps.{Dict, keys, get}
use mathlib.Core.Option.{some}
use appspine_packages.Base.Texts.{
  Text, before, before_asym, before_cotrans, eq_of_not_before, includes, same, same→eq, same_refl,
  same_comm, dedupe, dedupe_from, includes-append,
}
use appspine_packages.Base.Sort.{
  insert, sort_by, IsWeakOrder, Comparable, insert_comm, sort_by-perm,
}

module _ {ℓ} {A : Type ℓ} (lt : A → A → Bool) (order : IsWeakOrder lt) where
  sort_by-eq_of_Permᴰ :
      ((x y : A) → Comparable lt x y)
      → {xs ys : List A} → Permᴰ xs ys
      → sort_by lt xs ≡ sort_by lt ys
  unfolding sort_by
  sort_by-eq_of_Permᴰ total Permᴰ.nil = refl
  sort_by-eq_of_Permᴰ total (Permᴰ.cons e p) = cc (sort_by-eq_of_Permᴰ total p)
  sort_by-eq_of_Permᴰ total (Permᴰ.swap {a = x} {b = y} {l = l} e f) =
      rw (← e, ← f) (insert_comm lt order x y (sort_by lt l) (total x y))
  sort_by-eq_of_Permᴰ total (Permᴰ.trans p q) =
      sort_by-eq_of_Permᴰ total p ∙ sort_by-eq_of_Permᴰ total q

-- A comparison of records by a text.
abbrev pub by_key {ℓ} : {A : Type ℓ} → (A → Text) → A → A → Bool
by_key key a b = before (key a) (key b)

before_weak : IsWeakOrder before
before_weak = record { asym = before_asym; cotrans = before_cotrans }

before_total : (x y : Text) → Comparable before x y
before_total x y = elim (Bool-cases (before x y)) [
  | inl e ↦ ground arith
  | inr e ↦ ground (arith, eq_of_not_before x y)
]

-- `[...values].sort()`
unfoldable pub sorted : List Text → List Text
unfolding sort_by
sorted = sort_by before

pub sorted-perm : (xs : List Text) → Perm (sorted xs) xs
unfolding sorted
sorted-perm xs = sort_by-perm before xs

-- Sorting texts forgets the order in which they came.
pub sorted-eq_of_Perm : {xs ys : List Text} → Perm xs ys → sorted xs ≡ sorted ys
unfolding sorted
sorted-eq_of_Perm p =
    ∥∥₁_elim p (hlevel) (λ q. sort_by-eq_of_Permᴰ before before_weak before_total q)

includes-insert :
    (x t : Text) (l : List Text) → includes (insert before x l) t ≡ (same x t || includes l t)
unfolding includes insert
includes-insert x t [] = refl
includes-insert x t (y ∷ l) = ground (arith, includes-insert x t l)

pub includes-sorted : (xs : List Text) (t : Text) → includes (sorted xs) t ≡ includes xs t
unfolding sorted sort_by includes
includes-sorted [] t = refl
includes-sorted (x ∷ xs) t = ground (arith, includes-insert x t (sorted xs), includes-sorted xs t)

includes-dedupe_from :
    (seen xs : List Text) (t : Text)
    → includes seen t ≡ false
    → includes (dedupe_from seen xs) t ≡ includes xs t
unfolding includes dedupe_from
includes-dedupe_from seen [] t h = refl
includes-dedupe_from seen (x ∷ xs) t h =
    ground
      (arith, same→eq x t, includes-dedupe_from seen xs t, includes-dedupe_from (x ∷ seen) xs t)

pub includes-dedupe : (xs : List Text) (t : Text) → includes (dedupe xs) t ≡ includes xs t
unfolding dedupe includes
includes-dedupe xs t = includes-dedupe_from [] xs t refl

module _ {ℓ} {A : Type ℓ} (key : A → Text) where
  abbrev pub HasOwnKey : A → A → Type 0
  HasOwnKey a b = key a ≢ key b

  by_key_weak : IsWeakOrder (by_key key)
  by_key_weak = record {
    asym = λ a b. before_asym (key a) (key b);
    cotrans = λ a b c. before_cotrans (key a) (key b) (key c);
  }

  Comparable-of_ne : (x y : A) → HasOwnKey x y → Comparable (by_key key) x y
  Comparable-of_ne x y h = elim (Bool-cases (before (key x) (key y))) [
    | inl e ↦ ground arith
    | inr e ↦ ground (arith, eq_of_not_before (key x) (key y))
  ]

  sort_by_key-eq_of_Permᴰ :
      {xs ys : List A}
      → Permᴰ xs ys
      → Pairwise HasOwnKey xs
      → sort_by (by_key key) xs ≡ sort_by (by_key key) ys
  unfolding sort_by
  sort_by_key-eq_of_Permᴰ Permᴰ.nil own = refl
  sort_by_key-eq_of_Permᴰ (Permᴰ.cons e p) own =
      cc (sort_by_key-eq_of_Permᴰ p (Pairwise.of_cons own))
  sort_by_key-eq_of_Permᴰ (Permᴰ.swap {a = x} {b = y} {l = l} e f) own =
      rw (← e, ← f)
        (insert_comm (by_key key) by_key_weak x y (sort_by (by_key key) l)
          (Comparable-of_ne x y (rel_of_Pairwise-cons own (mem-cons_self))))
  sort_by_key-eq_of_Permᴰ (Permᴰ.trans p q) own =
      sort_by_key-eq_of_Permᴰ p own
      ∙ sort_by_key-eq_of_Permᴰ q (Perm.pairwise (λ a b. ¬_prop) (λ a b h e. h (sym e)) ∣ p ∣₁ own)

  -- With distinct keys, sorting by the key forgets the order in which the records came.
  pub sort_by_key-eq_of_Perm :
      IsSet A
      → {xs ys : List A} → Perm xs ys
      → Pairwise HasOwnKey xs
      → sort_by (by_key key) xs ≡ sort_by (by_key key) ys
  sort_by_key-eq_of_Perm set p own = ∥∥₁_elim p (hlevel) (λ q. sort_by_key-eq_of_Permᴰ q own)

-- No text stands twice in the list.
abbrev pub Distinct : List Text → Type 0
Distinct [] = Unit
Distinct (x ∷ xs) = (includes xs x ≡ false) × Distinct xs

Distinct-insert :
    (x : Text) (l : List Text) → includes l x ≡ false → Distinct l → Distinct (insert before x l)
unfolding insert includes
Distinct-insert x [] h d = (refl, tt)
Distinct-insert x (y ∷ l) h (fresh, d) = elim (Bool-cases (before y x)) [
  | inl e ↦
      rw e
        (ground (arith, includes-insert x y l, same_comm x y), Distinct-insert x l (ground arith) d)
  | inr e ↦ rw e (h, (fresh, d))
]

pub Distinct-sorted : (l : List Text) → Distinct l → Distinct (sorted l)
unfolding sorted sort_by
Distinct-sorted [] d = tt
Distinct-sorted (x ∷ l) (fresh, d) =
    Distinct-insert x (sorted l) (includes-sorted l x ∙ fresh) (Distinct-sorted l d)

pub Distinct-append :
    (xs ys : List Text)
    → Distinct xs
    → Distinct ys
    → ((t : Text) → includes xs t ≡ true → includes ys t ≡ false)
    → Distinct (xs ++ ys)
unfolding includes
Distinct-append [] ys dx dy apart = dy
Distinct-append (x ∷ xs) ys (fresh, dx) dy apart = (
  ground (arith, includes-append xs ys x, apart x, same_refl x),
  Distinct-append xs ys dx dy (λ t h. apart t (ground arith)),
)

module _ {ℓ} {V : Type ℓ} where
  get-under :
      (k : Text) (v : V) (m entries : Dict V)
      → includes (keys entries) k ≡ false
      → All (λ e. get e.0 m ≡ some e.1) entries
      → All (λ e. get e.0 ((k, v) ∷ m) ≡ some e.1) entries
  unfolding includes get
  get-under k v m [] h a = tt
  get-under k v m ((j, w) ∷ rest) h (here, a) =
      (rw (same_comm k j) (ground arith), get-under k v m rest (ground arith) a)

  -- With distinct keys each entry is what its key looks up.
  pub get-entries : (m : Dict V) → Distinct (keys m) → All (λ e. get e.0 m ≡ some e.1) m
  unfolding get
  get-entries [] d = tt
  get-entries ((k, v) ∷ m) (fresh, d) =
      (rw (same_refl k) refl, get-under k v m m fresh (get-entries m d))

pub All-includes : (xs : List Text) → All (λ t. includes xs t ≡ true) xs
unfolding includes
All-includes [] = tt
All-includes (x ∷ xs) = (
  ground (arith, same_refl x),
  All-mono (λ t. includes xs t ≡ true) xs (λ t h. ground arith) (All-includes xs),
)
