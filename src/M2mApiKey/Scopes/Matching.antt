-- ===== src/M2mApiKey/Scopes/Matching.antt =====
-- packages/m2m-api-key/src/guards/scope.guard.ts: which scopes an API key's scopes match.
use appspine_packages.Base.{
  ◌≡◌, refl, sym, ap, ◌∙◌, inl, inr, Bool, true, ◌&&◌, ◌||◌, not, Option, some, List, [], ◌∷◌, ◌++◌,
  ◌⊎◌, arith, All, any, all, is_empty, Bool-cases, Text, text, same, includes, split_on, join,
  join-split_on, get_or, or_else, is_ok,
}
use appspine_packages.M2mApiKey.Scopes.{
  first_of, module_part, action_part, second_of, grants, match_scope, all_matched, scope_guard,
  RequestUser,
}
use appspine_packages.M2mApiKey.ApiKeys.{is_valid_scope, matches_pattern, is_scope_unit}

-- The text before a colon, and a text after it, are found again where no colon stands in the first.
same-colon :
    (m n a b : Text)
    → all is_scope_unit m ≡ true
    → all is_scope_unit n ≡ true
    → same (m ++ 58 ∷ a) (n ++ 58 ∷ b) ≡ (same m n && same a b)
unfolding same
same-colon [] [] a b h k = refl
same-colon [] (d ∷ n) a b h k = ground arith
same-colon (c ∷ m) [] a b h k = ground arith
same-colon (c ∷ m) (d ∷ n) a b h k = ground (arith, same-colon m n a b)

-- A scope of the form `module:action`.
pub record HasParts (scope : Text) : Type 0 where
  pub module_text : Text
  pub action_text : Text
  pub parts : split_on 58 scope ≡ module_text ∷ action_text ∷ []
  pub units : all is_scope_unit module_text ≡ true

parts_of :
    (scope : Text) (parts : List Text)
    → split_on 58 scope ≡ parts
    → matches_pattern parts ≡ true
    → HasParts scope
unfolding matches_pattern
parts_of scope [] e h = cc
parts_of scope (m ∷ []) e h = cc
parts_of scope (m ∷ a ∷ []) e h = record {
  module_text = m;
  action_text = a;
  parts = e;
  units = ground arith;
}
parts_of scope (m ∷ a ∷ b ∷ rest) e h = cc

HasParts-text : (scope : Text) (p : HasParts scope) → scope ≡ p.module_text ++ 58 ∷ p.action_text
unfolding join
HasParts-text scope p = sym (join-split_on 58 scope) ∙ ap (join (58 ∷ [])) p.parts

-- The same for two-part texts that are written out.
grants_texts :
    (m a n b : Text)
    → all is_scope_unit m ≡ true
    → all is_scope_unit n ≡ true
    → (same m n && (same a (text "*") || same a b))
      ≡ (same (m ++ 58 ∷ a) (n ++ text ":*") || same (m ++ 58 ∷ a) (n ++ 58 ∷ b))
unfolding text
grants_texts m a n b h k = ground (arith, same-colon m n a (42 ∷ []) h k, same-colon m n a b h k)

grants_parts :
    (required g : Text) (r : HasParts required) (p : HasParts g)
    → grants required g
      ≡ (same g (text "*") || (same g (module_part required ++ text ":*") || same g required))
unfolding grants
grants_parts required g r p =
    let here : module_part required ≡ r.module_text = ap first_of r.parts in
    let there : module_part g ≡ p.module_text = ap first_of p.parts in
    let act : action_part required ≡ some r.action_text = ap second_of r.parts in
    let deed : action_part g ≡ some p.action_text = ap second_of p.parts in
    let spelled : same g (r.module_text ++ text ":*")
        ≡ same (p.module_text ++ 58 ∷ p.action_text) (r.module_text ++ text ":*") =
      ap (λ t. same t (r.module_text ++ text ":*")) (HasParts-text g p) in
    let equal : same g required
        ≡ same (p.module_text ++ 58 ∷ p.action_text) (r.module_text ++ 58 ∷ r.action_text) =
      ap (λ t. same t required) (HasParts-text g p)
      ∙ ap (same (p.module_text ++ 58 ∷ p.action_text)) (HasParts-text required r) in
    simp
      (
        here,
        there,
        act,
        deed,
        spelled,
        equal,
        ← grants_texts p.module_text p.action_text r.module_text r.action_text p.units r.units,
      )
      refl

valid_parts : (g : Text) → is_valid_scope g ≡ true → (same g (text "*") ≡ true) ⊎ HasParts g
unfolding is_valid_scope
valid_parts g h = elim (Bool-cases (same g (text "*"))) [
  | inl e ↦ inl e
  | inr e ↦ inr (parts_of g (split_on 58 g) refl (ground arith))
]

grants_valid :
    (required g : Text) (r : HasParts required)
    → is_valid_scope g ≡ true
    → grants required g
      ≡ (same g (text "*") || (same g (module_part required ++ text ":*") || same g required))
unfolding grants
grants_valid required g r h = elim (valid_parts g h) [
  | inl star ↦ ground arith
  | inr p ↦ grants_parts required g r p
]

-- What a list of scopes stands for: everything, all of a module, or an action of it.
abbrev pub covers : List Text → Text → Bool
covers granted required =
    includes granted (text "*")
    || (includes granted (module_part required ++ text ":*") || includes granted required)

abbrev pub AllValid : List Text → Type 0
AllValid scopes = All (λ s. is_valid_scope s ≡ true) scopes

any-grants :
    (required : Text) (granted : List Text)
    → HasParts required
    → AllValid granted
    → any (grants required) granted ≡ covers granted required
unfolding includes
any-grants required [] r h = refl
any-grants required (g ∷ granted) r (here, h) =
    ground (arith, grants_valid required g r here, any-grants required granted r h)

match_scope-covers :
    (granted : List Text) (required : Text)
    → AllValid granted
    → matches_pattern (split_on 58 required) ≡ true
    → match_scope granted required ≡ covers granted required
unfolding match_scope
match_scope-covers granted required h p =
    ground (arith, any-grants required granted (parts_of required (split_on 58 required) refl p) h)

all_matched-covers :
    (granted required : List Text)
    → AllValid granted
    → All (λ s. matches_pattern (split_on 58 s) ≡ true) required
    → all_matched granted required ≡ all (covers granted) required
unfolding all_matched
all_matched-covers granted [] h p = refl
all_matched-covers granted (s ∷ required) h (here, p) =
    ground (arith, match_scope-covers granted s h here, all_matched-covers granted required h p)

-- An API key passes the guard of a route exactly if the route declares scopes, on the handler or else
-- on its class, and the key's scopes cover each of them: by `*`, by `module:*` or literally. The
-- key's scopes are valid, and those of the route have the form `module:action`.
pub scope_guard_exact :
    (handler_scopes class_scopes : Option (List Text)) (user : RequestUser)
    → user.is_api_key ≡ some true
    → AllValid (get_or user.scopes [])
    → All
        (λ s. matches_pattern (split_on 58 s) ≡ true)
        (get_or (or_else handler_scopes class_scopes) [])
    → is_ok (scope_guard handler_scopes class_scopes (some user)) ≡ (
        not (is_empty (get_or (or_else handler_scopes class_scopes) []))
        && all (covers (get_or user.scopes [])) (get_or (or_else handler_scopes class_scopes) []))
unfolding scope_guard
scope_guard_exact handler_scopes class_scopes user key h p =
    let required = get_or (or_else handler_scopes class_scopes) [] in
    ground (arith, all_matched-covers (get_or user.scopes []) required h p)
