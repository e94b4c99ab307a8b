-- ===== src/Base/Texts.antt =====
-- JavaScript strings as lists of UTF-16 code units: equality, the order of `<` and `sort`, and the
-- operations that the sources use.
use Prim.Native.Nat.{ℕ, zero, suc, ◌+◌, ◌/◌, ◌%◌, compare, Ordering}
use Prim.Native.Char.{code}
use Prim.Native.String.{String}
use mathlib.Core.Path.{◌≡◌, refl, ap, ◌∙◌}
use mathlib.Core.Logic.{◌⊎◌, inl, inr}
use mathlib.Core.Bool.{Bool, true, false, not, ◌&&◌, ◌||◌}
use mathlib.Core.Option.{Option, none, some}
use mathlib.Core.List.{List, [], ◌∷◌, ◌++◌}
use native.Mathlib.Omega.{arith}
use appspine_packages.Base.Lists.{is_empty}
use appspine_packages.Base.Tests.{ltb, if◌then◌else◌, ◌==◌}

abbrev pub Text : Type 0
Text = List ℕ

pub Text-set : IsSet Text
Text-set = hlevel

-- The code units of an ASCII literal.
unfoldable pub text : String → Text
text String.[] = []
text (String.◌∷◌ c s) = code c ∷ text s

-- A template literal: its pieces, joined.
unfoldable pub say : List Text → Text
say [] = []
say (t ∷ ts) = t ++ say ts

-- `===`
unfoldable pub same : Text → Text → Bool
same [] [] = true
same [] (b ∷ ys) = false
same (a ∷ xs) [] = false
same (a ∷ xs) (b ∷ ys) = a == b && same xs ys

pub same_refl : (a : Text) → same a a ≡ true
unfolding same
same_refl [] = refl
same_refl (a ∷ xs) = ground (arith, same_refl xs)

pub same→eq : (a b : Text) → same a b ≡ true → a ≡ b
unfolding same
same→eq [] [] h = refl
same→eq [] (b ∷ ys) h = cc
same→eq (a ∷ xs) [] h = cc
same→eq (a ∷ xs) (b ∷ ys) h = ground (arith, same→eq xs ys)

pub eq→same : (a b : Text) → a ≡ b → same a b ≡ true
eq→same a b h = rw h (same_refl b)

pub same_comm : (a b : Text) → same a b ≡ same b a
unfolding same
same_comm [] [] = refl
same_comm [] (b ∷ ys) = refl
same_comm (a ∷ xs) [] = refl
same_comm (a ∷ xs) (b ∷ ys) = ground (arith, same_comm xs ys)

-- `a < b` on strings, the order in which `sort()` puts them.
unfoldable pub before : Text → Text → Bool
before [] [] = false
before [] (b ∷ ys) = true
before (a ∷ xs) [] = false
before (a ∷ xs) (b ∷ ys) = elim (compare a b) [
  | Ordering.lt ↦ true
  | Ordering.gt ↦ false
  | Ordering.eq ↦ before xs ys
]

pub before_asym : (a b : Text) → before a b ≡ true → before b a ≡ false
unfolding before
before_asym [] [] h = cc
before_asym [] (b ∷ ys) h = refl
before_asym (a ∷ xs) [] h = cc
before_asym (a ∷ xs) (b ∷ ys) h = ground (arith, before_asym xs ys)

pub before_cotrans : (a b c : Text) → before a b ≡ true → (before a c ≡ true) ⊎ (before c b ≡ true)
unfolding before
before_cotrans [] [] c h = cc
before_cotrans [] (b ∷ ys) [] h = inr refl
before_cotrans [] (b ∷ ys) (c ∷ cs) h = inl refl
before_cotrans (a ∷ xs) [] c h = cc
before_cotrans (a ∷ xs) (b ∷ ys) [] h = inr refl
before_cotrans (a ∷ xs) (b ∷ ys) (c ∷ cs) h = ground (arith, before_cotrans xs ys cs)

-- Texts that neither precedes are equal.
pub eq_of_not_before : (a b : Text) → before a b ≡ false → before b a ≡ false → a ≡ b
unfolding before
eq_of_not_before [] [] h k = refl
eq_of_not_before [] (b ∷ ys) h k = cc
eq_of_not_before (a ∷ xs) [] h k = cc
eq_of_not_before (a ∷ xs) (b ∷ ys) h k = ground (arith, eq_of_not_before xs ys)

-- `set.has(t)`, `list.includes(t)`
unfoldable pub includes : List Text → Text → Bool
includes [] t = false
includes (x ∷ xs) t = same x t || includes xs t

pub includes-append :
    (xs ys : List Text) (t : Text) → includes (xs ++ ys) t ≡ (includes xs t || includes ys t)
unfolding includes
includes-append [] ys t = refl
includes-append (x ∷ xs) ys t = ground (arith, includes-append xs ys t)

-- `new Set(list)`, in insertion order.
unfoldable pub dedupe_from : List Text → List Text → List Text
dedupe_from seen [] = []
dedupe_from seen (x ∷ xs) =
    let rest = dedupe_from seen xs in
    let fresh = x ∷ dedupe_from (x ∷ seen) xs in if includes seen x then rest else fresh

unfoldable pub dedupe : List Text → List Text
unfolding dedupe_from
dedupe xs = dedupe_from [] xs

-- `s.startsWith(p)`
unfoldable pub starts_with : Text → Text → Bool
starts_with s [] = true
starts_with [] (p ∷ ps) = false
starts_with (c ∷ s) (p ∷ ps) = c == p && starts_with s ps

-- The part before the first `c`, and the part behind it if there is one.
unfoldable pub cut : ℕ → Text → Text × Option Text
cut c [] = ([], none)
cut c (d ∷ s) = let (front, back) = cut c s in if d == c then ([], some s) else (d ∷ front, back)

-- `s.split(c)` for a single character `c`: the parts of `d` and the rest, given the rest's.
split_before : ℕ → ℕ → List Text → List Text
split_before c d [] = (d ∷ []) ∷ []
split_before c d (part ∷ rest) = if d == c then [] ∷ part ∷ rest else (d ∷ part) ∷ rest

unfoldable pub split_on : ℕ → Text → List Text
unfolding split_before
split_on c [] = [] ∷ []
split_on c (d ∷ s) = split_before c d (split_on c s)

-- `values.join(separator)`
unfoldable pub join : Text → List Text → Text
join sep [] = []
join sep (t ∷ []) = t
join sep (t ∷ ts) = t ++ (sep ++ join sep ts)

split_before-is_empty : (c d : ℕ) (parts : List Text) → is_empty (split_before c d parts) ≡ false
unfolding split_before
split_before-is_empty c d [] = refl
split_before-is_empty c d (part ∷ rest) = ground arith

-- A text has one part at least.
pub split_on-is_empty : (c : ℕ) (s : Text) → is_empty (split_on c s) ≡ false
unfolding split_on
split_on-is_empty c [] = refl
split_on-is_empty c (d ∷ s) = split_before-is_empty c d (split_on c s)

split_before-own :
    (c : ℕ) (parts : List Text) → is_empty parts ≡ false → split_before c c parts ≡ [] ∷ parts
unfolding split_before
split_before-own c [] h = cc
split_before-own c (part ∷ rest) h = ground arith

split_before-other :
    (c d : ℕ) (part : Text) (rest : List Text)
    → not (d == c) ≡ true
    → split_before c d (part ∷ rest) ≡ (d ∷ part) ∷ rest
unfolding split_before
split_before-other c d part rest h = ground arith

join-split_before :
    (c d : ℕ) (parts : List Text)
    → join (c ∷ []) (split_before c d parts) ≡ (d ∷ join (c ∷ []) parts)
unfolding split_before join
join-split_before c d [] = refl
join-split_before c d (part ∷ []) = ground arith
join-split_before c d (part ∷ next ∷ rest) = ground arith

-- Joining the parts of a text gives the text back.
pub join-split_on : (c : ℕ) (s : Text) → join (c ∷ []) (split_on c s) ≡ s
unfolding split_on join
join-split_on c [] = refl
join-split_on c (d ∷ s) = cc (join-split_before c d (split_on c s), join-split_on c s)

-- A text without the character `c`.
abbrev pub lacks : ℕ → Text → Bool
lacks c [] = true
lacks c (d ∷ s) = not (d == c) && lacks c s

split_on-last : (c : ℕ) (t : Text) → lacks c t ≡ true → split_on c t ≡ t ∷ []
unfolding split_on split_before
split_on-last c [] h = refl
split_on-last c (d ∷ t) h = ground (arith, split_on-last c t)

split_on-before :
    (c : ℕ) (t s : Text) → lacks c t ≡ true → split_on c (t ++ c ∷ s) ≡ t ∷ split_on c s
unfolding split_on
split_on-before c [] s h = split_before-own c (split_on c s) (split_on-is_empty c s)
split_on-before c (d ∷ t) s h =
    ap (split_before c d) (split_on-before c t s (ground arith))
    ∙ split_before-other c d t (split_on c s) (ground arith)

unfoldable pub all_lack : ℕ → List Text → Bool
all_lack c [] = true
all_lack c (t ∷ ts) = lacks c t && all_lack c ts

-- Parts without the separator are found again in their join.
pub split_on-join :
    (c : ℕ) (t : Text) (ts : List Text)
    → all_lack c (t ∷ ts) ≡ true
    → split_on c (join (c ∷ []) (t ∷ ts)) ≡ t ∷ ts
unfolding join all_lack
split_on-join c t [] h = split_on-last c t (ground arith)
split_on-join c t (u ∷ ts) h =
    split_on-before c t _ (ground arith)
    ∙ ap (λ parts. t ∷ parts) (split_on-join c u ts (ground arith))

-- A number in decimal digits, as a template literal prints it.
decimal_from : ℕ → ℕ → Text → Text
decimal_from zero n digits = digits
decimal_from (suc fuel) n digits =
    let longer = decimal_from fuel (n / 10) ((48 + n % 10) ∷ digits) in
    if ltb n 10 then (48 + n) ∷ digits else longer

unfoldable pub decimal : ℕ → Text
unfolding decimal_from
decimal n = decimal_from (suc n) n []
