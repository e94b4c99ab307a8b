-- ===== src/PluginApi/Resolver/Needs.antt =====
-- packages/plugin-api/src/resolver/index.ts, `resolvePlugins`: the loop over the requirements.
use appspine_packages.Base.{
  ◌≡◌, refl, ◌∙◌, sym, ap, ◌⊎◌, inl, inr, true, false, ◌||◌, not, or-false, List, [], ◌∷◌, ◌++◌,
  arith, Bool-cases, is_empty, select, any, any-append, All, All-mono, Text, includes, same,
  same_refl, same→eq, sorted, includes-sorted, includes-append, Dict,
}
use appspine_packages.PluginApi.Diagnostics.{
  PluginDiagnostic, diagnostic, is_error, has_errors, has_errors-append,
}
use appspine_packages.PluginApi.Resolver.Records.{ResolvedPluginInstance, diagnose}
use appspine_packages.PluginApi.Resolver.Requirements.{
  external_providers, add_all, missing_required, unresolved_optional, Needs, require, require_all,
  require_optional, require_all_optional, needs_of, with_needs, resolve_needs,
}
use appspine_packages.PluginApi.Resolver.Providers.{provided_by, provides_as}
use appspine_packages.PluginApi.Resolver.Keys.{instance_keys}

includes-add_all :
    (set ks : List Text) (t : Text)
    → includes (add_all set ks) t ≡ (includes set t || includes ks t)
unfolding add_all includes
includes-add_all set [] t = ground arith
includes-add_all set (k ∷ ks) t = ground (
  arith,
  includes-add_all set ks t,
  includes-add_all (set ++ k ∷ []) ks t,
  includes-append set (k ∷ []) t,
  same→eq k t,
)

includes-select_other :
    (key : Text) (ks : List Text) (t : Text)
    → includes (select (λ other. not (same other key)) ks) t ≡ true
    → includes ks t ≡ true
unfolding includes
includes-select_other key [] t h = h
includes-select_other key (k ∷ ks) t h = ground (arith, includes-select_other key ks t)

-- A requirement is met by the host, or by an instance that the needs wait for.
abbrev pub IsMet : List Text → Dict (List Text) → List Text → Text → Type 0
IsMet host providers depends_on capability =
    (includes host capability ≡ true)
    ⊎ ((k : Text) × (includes depends_on k ≡ true)
        × (includes (provided_by providers capability) k ≡ true))

has_member : (xs : List Text) → is_empty xs ≡ false → (t : Text) × (includes xs t ≡ true)
unfolding includes
has_member [] h = cc
has_member (x ∷ xs) h = (x, ground (arith, same_refl x))

missing_required-is_error :
    (i : ResolvedPluginInstance) (capability : Text)
    → is_error (missing_required i capability) ≡ true
unfolding missing_required diagnose diagnostic
missing_required-is_error i capability = refl

errors-snoc :
    (ds : List PluginDiagnostic) (d : PluginDiagnostic)
    → has_errors (ds ++ d ∷ []) ≡ (has_errors ds || is_error d)
unfolding has_errors
errors-snoc ds d = ground (arith, any-append is_error ds (d ∷ []))

includes-external :
    (providers : Dict (List Text)) (key capability k : Text)
    → includes (external_providers providers key capability) k ≡ true
    → includes (provided_by providers capability) k ≡ true
unfolding external_providers
includes-external providers key capability k m =
    includes-select_other key (provided_by providers capability) k m

module _ (host : List Text) (providers : Dict (List Text)) (i : ResolvedPluginInstance) where
  require-IsMet :
      (capability : Text) (needs : Needs)
      → has_errors (require host providers i capability needs).diagnostics ≡ false
      → IsMet host providers (require host providers i capability needs).depends_on capability
  unfolding require
  require-IsMet capability needs ok =
      let external = external_providers providers i.key capability in
      elim (Bool-cases (includes host capability)) [
        | inl e ↦ inl e
        | inr e ↦ elim (Bool-cases (is_empty external)) [
          | inl none_left ↦ absurd (
              ground (
                arith,
                errors-snoc needs.diagnostics (missing_required i capability),
                missing_required-is_error i capability,
              ))
          | inr some_left ↦
              let (k, m) = has_member external some_left in
              inr (
                k,
                ground (arith, includes-add_all needs.depends_on external k),
                includes-external providers i.key capability k m,
              )
        ]
      ]

  -- Nothing that the needs wait for, and no error, is ever taken back.
  require_keeps :
      (capability : Text) (needs : Needs)
      → (has_errors (require host providers i capability needs).diagnostics ≡ false
          → has_errors needs.diagnostics ≡ false)
        × ((k : Text)
            → includes needs.depends_on k ≡ true
            → includes (require host providers i capability needs).depends_on k ≡ true)
  unfolding require
  require_keeps capability needs = (
    λ h. ground (arith, errors-snoc needs.diagnostics (missing_required i capability)),
    λ k h. ground (
      arith,
      includes-add_all needs.depends_on (external_providers providers i.key capability) k,
    ),
  )

  require_optional_keeps :
      (capability : Text) (needs : Needs)
      → (has_errors (require_optional host providers i capability needs).diagnostics ≡ false
          → has_errors needs.diagnostics ≡ false)
        × ((k : Text)
            → includes needs.depends_on k ≡ true
            → includes (require_optional host providers i capability needs).depends_on k ≡ true)
  unfolding require_optional
  require_optional_keeps capability needs = (
    λ h. ground (arith, errors-snoc needs.diagnostics (unresolved_optional i capability)),
    λ k h. ground (
      arith,
      includes-add_all needs.depends_on (external_providers providers i.key capability) k,
    ),
  )

  require_all_keeps :
      (capabilities : List Text) (needs : Needs)
      → (has_errors (require_all host providers i capabilities needs).diagnostics ≡ false
          → has_errors needs.diagnostics ≡ false)
        × ((k : Text)
            → includes needs.depends_on k ≡ true
            → includes (require_all host providers i capabilities needs).depends_on k ≡ true)
  unfolding require_all
  require_all_keeps [] needs = (λ h. h, λ k h. h)
  require_all_keeps (c ∷ rest) needs =
      let later = require_all_keeps rest (require host providers i c needs) in
      let now = require_keeps c needs in (λ h. now.0 (later.0 h), λ k h. later.1 k (now.1 k h))

  require_all_optional_keeps :
      (capabilities : List Text) (needs : Needs)
      → (has_errors (require_all_optional host providers i capabilities needs).diagnostics ≡ false
          → has_errors needs.diagnostics ≡ false)
        × ((k : Text)
            → includes needs.depends_on k ≡ true
            → includes (require_all_optional host providers i capabilities needs).depends_on k
              ≡ true)
  unfolding require_all_optional
  require_all_optional_keeps [] needs = (λ h. h, λ k h. h)
  require_all_optional_keeps (c ∷ rest) needs =
      let later = require_all_optional_keeps rest (require_optional host providers i c needs) in
      let now = require_optional_keeps c needs in
      (λ h. now.0 (later.0 h), λ k h. later.1 k (now.1 k h))

  IsMet-mono :
      (ds es : List Text) (capability : Text)
      → ((k : Text) → includes ds k ≡ true → includes es k ≡ true)
      → IsMet host providers ds capability
      → IsMet host providers es capability
  IsMet-mono ds es capability keep (inl h) = inl h
  IsMet-mono ds es capability keep (inr (k, m, p)) = inr (k, keep k m, p)

  require_all-IsMet :
      (capabilities : List Text) (needs : Needs)
      → has_errors (require_all host providers i capabilities needs).diagnostics ≡ false
      → All
          (IsMet host providers (require_all host providers i capabilities needs).depends_on)
          capabilities
  unfolding require_all
  require_all-IsMet [] needs ok = tt
  require_all-IsMet (c ∷ rest) needs ok =
      let next = require host providers i c needs in
      let later = require_all_keeps rest next in
      (
        IsMet-mono next.depends_on _ c later.1 (require-IsMet c needs (later.0 ok)),
        require_all-IsMet rest next ok,
      )

  needs_of-IsMet :
      has_errors (needs_of host providers i).diagnostics ≡ false
      → All (IsMet host providers (needs_of host providers i).depends_on) i.requires
  unfolding needs_of
  needs_of-IsMet ok =
      let start : Needs = record { depends_on = []; unresolved = []; diagnostics = [] } in
      let required = require_all host providers i i.requires start in
      let later = require_all_optional_keeps i.optional_requires required in
      All-mono _ i.requires (λ c. IsMet-mono required.depends_on _ c later.1)
        (require_all-IsMet i.requires start (later.0 ok))

-- Without an error every requirement of every instance is met.
pub resolve_needs-IsMet :
    (host : List Text) (providers : Dict (List Text)) (instances : List ResolvedPluginInstance)
    → has_errors (resolve_needs host providers instances).diagnostics ≡ false
    → All
        (λ i. All (IsMet host providers i.depends_on) i.requires)
        (resolve_needs host providers instances).instances
unfolding resolve_needs with_needs
resolve_needs-IsMet host providers [] ok = tt
resolve_needs-IsMet host providers (i ∷ rest) ok =
    let needs = needs_of host providers i in
    let (here, there) = or-false _ _ (sym (has_errors-append needs.diagnostics _) ∙ ok) in
    (
      All-mono _ i.requires
          (λ c.
            IsMet-mono host providers i needs.depends_on (sorted needs.depends_on) c
              (λ k m. includes-sorted needs.depends_on k ∙ m))
          (needs_of-IsMet host providers i here),
      resolve_needs-IsMet host providers rest there,
    )

-- The loop changes neither the keys of the instances nor what they provide.
pub resolve_needs-keys :
    (host : List Text) (providers : Dict (List Text)) (instances : List ResolvedPluginInstance)
    → instance_keys (resolve_needs host providers instances).instances ≡ instance_keys instances
unfolding resolve_needs with_needs
resolve_needs-keys host providers [] = refl
resolve_needs-keys host providers (i ∷ rest) =
    ap (λ ks. i.key ∷ ks) (resolve_needs-keys host providers rest)

pub resolve_needs-provides :
    (host : List Text) (providers : Dict (List Text)) (instances : List ResolvedPluginInstance)
    (k capability : Text)
    → any (provides_as k capability) (resolve_needs host providers instances).instances
      ≡ any (provides_as k capability) instances
unfolding resolve_needs with_needs
resolve_needs-provides host providers [] k capability = refl
resolve_needs-provides host providers (i ∷ rest) k capability =
    ap (λ b. provides_as k capability i || b)
      (resolve_needs-provides host providers rest k capability)
