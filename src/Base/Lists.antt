-- ===== src/Base/Lists.antt =====
-- Lists: Boolean searches, selections, predicates by recursion, and lengths in native numbers.
use Prim.Native.Nat.{ℕ, suc, ◌+◌, ◌≤◌}
use mathlib.Core.Path.{◌≡◌, refl, ap, subst, ◌∙◌}
use mathlib.Core.Logic.{inl, inr}
use mathlib.Core.Bool.{Bool, true, false, ◌&&◌, ◌||◌}
use mathlib.Core.Option.{Option, none, some}
use mathlib.Core.List.{
  List, [], ◌∷◌, ◌++◌, map, Perm, Permᴰ, Perm-prop, append_assoc, perm_append_comm,
}
use mathlib.Core.Logic.{∥∥₁_elim}
use mathlib.Core.List.Perm
use native.Mathlib.Nat.{ℕ_set}
use native.Mathlib.Omega.{arith}
use appspine_packages.Base.Tests.{if◌then◌else◌, Bool-cases}

module _ {ℓ} {A : Type ℓ} where
  abbrev pub length : List A → ℕ
  length [] = 0
  length (x ∷ xs) = suc (length xs)

  abbrev pub is_empty : List A → Bool
  is_empty [] = true
  is_empty (x ∷ xs) = false

  abbrev pub any : (A → Bool) → List A → Bool
  any p [] = false
  any p (x ∷ xs) = p x || any p xs

  abbrev pub all : (A → Bool) → List A → Bool
  all p [] = true
  all p (x ∷ xs) = p x && all p xs

  -- The elements that pass a test, in order: the source's `filter`.
  abbrev pub select : (A → Bool) → List A → List A
  select p [] = []
  select p (x ∷ xs) = if p x then x ∷ select p xs else select p xs

  -- `list.find(p)`
  abbrev pub find : (A → Bool) → List A → Option A
  find p [] = none
  find p (x ∷ xs) = if p x then some x else find p xs

  -- A predicate on every element, and one that some element has.
  abbrev pub All {κ} : (A → Type κ) → List A → Type κ
  All P [] = Unit
  All P (x ∷ xs) = P x × All P xs

  pub length-append : (xs ys : List A) → length (xs ++ ys) ≡ length xs + length ys
  length-append [] ys = omega arith
  length-append (x ∷ xs) ys = omega (arith, length-append xs ys)

  pub length-select-le : (p : A → Bool) (xs : List A) → length (select p xs) ≤ length xs
  length-select-le p [] = omega arith
  length-select-le p (x ∷ xs) = ground (arith, length-select-le p xs)

  pub any-append : (p : A → Bool) (xs ys : List A) → any p (xs ++ ys) ≡ (any p xs || any p ys)
  any-append p [] ys = refl
  any-append p (x ∷ xs) ys = ground (arith, any-append p xs ys)

pub some-inj {ℓ} : {A : Type ℓ} {a b : A} → Path (Option A) (some a) (some b) → a ≡ b
some-inj h = cc

module _ {ℓ κ} {A : Type ℓ} (P : A → Type κ) where
  pub All-append : (xs ys : List A) → All P xs → All P ys → All P (xs ++ ys)
  All-append [] ys hx hy = hy
  All-append (x ∷ xs) ys hx hy = (hx.0, All-append xs ys hx.1 hy)

  pub All-of_append : (xs ys : List A) → All P (xs ++ ys) → All P xs × All P ys
  All-of_append [] ys h = (tt, h)
  All-of_append (x ∷ xs) ys h = let r = All-of_append xs ys h.1 in ((h.0, r.0), r.1)

  -- What is found has what all elements have.
  pub find-All : (p : A → Bool) (xs : List A) (x : A) → All P xs → find p xs ≡ some x → P x
  find-All p [] x h e = cc
  find-All p (y ∷ xs) x (here, h) e = elim (Bool-cases (p y)) [
    | inl t ↦ subst P (some-inj (rw t at e)) here
    | inr t ↦ find-All p xs x h (rw t at e)
  ]

  pub All-mono {μ} : {Q : A → Type μ} (xs : List A) → ((x : A) → P x → Q x) → All P xs → All Q xs
  All-mono [] f h = tt
  All-mono (x ∷ xs) f h = (f x h.0, All-mono xs f h.1)

module _ {ℓ κ} {A : Type ℓ} {B : Type κ} where
  pub length-map : (f : A → B) (xs : List A) → length (map f xs) ≡ length xs
  length-map f [] = refl
  length-map f (x ∷ xs) = ap suc (length-map f xs)

  -- The source's `flatMap`.
  abbrev pub flat_map : (A → List B) → List A → List B
  flat_map f [] = []
  flat_map f (x ∷ xs) = f x ++ flat_map f xs

  -- `flatMap` of rearranged lists gives rearranged results.
  flat_map-perm_of_Permᴰ :
      (f : A → List B) {xs ys : List A} → Permᴰ xs ys → Perm (flat_map f xs) (flat_map f ys)
  flat_map-perm_of_Permᴰ f Permᴰ.nil = Perm.rfl
  flat_map-perm_of_Permᴰ f (Permᴰ.cons {a = a} e p) =
      rw (← e) (Perm.append_left (f a) (flat_map-perm_of_Permᴰ f p))
  flat_map-perm_of_Permᴰ f (Permᴰ.swap {a = a} {b = b} {l = l} e e') =
      rw
        (
          ← e,
          ← e',
          ← append_assoc (f a) (f b) (flat_map f l),
          ← append_assoc (f b) (f a) (flat_map f l),
        )
        (Perm.append_right (flat_map f l) (perm_append_comm (f a) (f b)))
  flat_map-perm_of_Permᴰ f (Permᴰ.trans p q) =
      Perm.trans (flat_map-perm_of_Permᴰ f p) (flat_map-perm_of_Permᴰ f q)

  pub flat_map-perm :
      (f : A → List B) {xs ys : List A} → Perm xs ys → Perm (flat_map f xs) (flat_map f ys)
  flat_map-perm f p = ∥∥₁_elim p Perm-prop (λ q. flat_map-perm_of_Permᴰ f q)

module _ {ℓ} {A : Type ℓ} where
  select-flat_map :
      (p : A → Bool) (xs : List A) → select p xs ≡ flat_map (λ x. if p x then x ∷ [] else []) xs
  select-flat_map p [] = refl
  select-flat_map p (x ∷ xs) = ground (arith, select-flat_map p xs)

  pub select-perm : (p : A → Bool) {xs ys : List A} → Perm xs ys → Perm (select p xs) (select p ys)
  select-perm p {xs} {ys} h = rw (select-flat_map p xs, select-flat_map p ys) (flat_map-perm _ h)

  pub All-select {κ} :
      (P : A → Type κ) (p : A → Bool) (xs : List A) → All P xs → All P (select p xs)
  All-select P p [] h = tt
  All-select P p (x ∷ xs) (here, h) = elim (Bool-cases (p x)) [
    | inl e ↦ rw e (here, All-select P p xs h)
    | inr e ↦ rw e (All-select P p xs h)
  ]

  length-eq_of_Permᴰ : {xs ys : List A} → Permᴰ xs ys → length xs ≡ length ys
  length-eq_of_Permᴰ Permᴰ.nil = refl
  length-eq_of_Permᴰ (Permᴰ.cons e p) = omega (arith, length-eq_of_Permᴰ p)
  length-eq_of_Permᴰ (Permᴰ.swap e e') = refl
  length-eq_of_Permᴰ (Permᴰ.trans p q) = length-eq_of_Permᴰ p ∙ length-eq_of_Permᴰ q

  pub length-eq_of_Perm : {xs ys : List A} → Perm xs ys → length xs ≡ length ys
  length-eq_of_Perm p = ∥∥₁_elim p (ℕ_set _ _) length-eq_of_Permᴰ

module _ {ℓ} {A : Type ℓ} where
  pub any-or : (p q : A → Bool) (xs : List A) → any (λ x. p x || q x) xs ≡ (any p xs || any q xs)
  any-or p q [] = refl
  any-or p q (x ∷ xs) = ground (arith, any-or p q xs)

  pub any-and : (p : A → Bool) (c : Bool) (xs : List A) → any (λ x. p x && c) xs ≡ (any p xs && c)
  any-and p c [] = refl
  any-and p c (x ∷ xs) = ground (arith, any-and p c xs)

  pub any-ext : (p q : A → Bool) (xs : List A) → ((x : A) → p x ≡ q x) → any p xs ≡ any q xs
  any-ext p q [] h = refl
  any-ext p q (x ∷ xs) h = rw (h x, any-ext p q xs h) refl

  pub any-none : (xs : List A) → any (λ x. false) xs ≡ false
  any-none [] = refl
  any-none (x ∷ xs) = any-none xs

-- What `find` answers, and keeps answering when the list changes.
module _ {ℓ} {A : Type ℓ} (p : A → Bool) where
  pub find-true : (xs : List A) (x : A) → find p xs ≡ some x → p x ≡ true
  find-true [] x h = cc
  find-true (y ∷ xs) x h = elim (Bool-cases (p y)) [
    | inl e ↦ subst (λ z. p z ≡ true) (some-inj (rw e at h)) e
    | inr e ↦ find-true xs x (rw e at h)
  ]

  pub find-append : (xs ys : List A) (x : A) → find p xs ≡ some x → find p (xs ++ ys) ≡ some x
  find-append [] ys x h = cc
  find-append (y ∷ xs) ys x h = elim (Bool-cases (p y)) [
    | inl e ↦ rw e (rw e at h)
    | inr e ↦ rw e (find-append xs ys x (rw e at h))
  ]

  pub find-map_same :
      (f : A → A) (xs : List A) (x : A)
      → ((y : A) → p (f y) ≡ p y)
      → find p xs ≡ some x
      → find p (map f xs) ≡ some (f x)
  find-map_same f [] x same_test h = cc
  find-map_same f (y ∷ xs) x same_test h = elim (Bool-cases (p y)) [
    | inl e ↦ rw (same_test y, e) (ap (λ z. some (f z)) (some-inj (rw e at h)))
    | inr e ↦ rw (same_test y, e) (find-map_same f xs x same_test (rw e at h))
  ]

  pub find-select :
      (q : A → Bool) (xs : List A) (x : A)
      → ((y : A) → p y ≡ true → q y ≡ true)
      → find p xs ≡ some x
      → find p (select q xs) ≡ some x
  find-select q [] x kept h = cc
  find-select q (y ∷ xs) x kept h = elim (Bool-cases (p y)) [
    | inl e ↦ rw (kept y e, e) (rw e at h)
    | inr e ↦ elim (Bool-cases (q y)) [
      | inl k ↦ rw (k, e) (find-select q xs x kept (rw e at h))
      | inr k ↦ rw k (find-select q xs x kept (rw e at h))
    ]
  ]

pub All-both {ℓ} :
    {A : Type ℓ} (P Q R : A → Type 0) (xs : List A)
    → ((x : A) → P x → Q x → R x)
    → All P xs
    → All Q xs
    → All R xs
All-both P Q R [] f p q = tt
All-both P Q R (x ∷ xs) f p q = (f x p.0 q.0, All-both P Q R xs f p.1 q.1)
