-- ===== src/PluginApi/Resolver/Lookup.antt =====
-- packages/plugin-api/src/resolver/index.ts, `resolvePlugins`: finding instances by their keys.
use appspine_packages.Base.{
  ◌≡◌, refl, ◌∙◌, ap, inl, inr, Bool, true, false, ◌&&◌, some, List, [], ◌∷◌, ◌++◌, arith,
  Bool-cases, Option-cases, any, All, Text, includes, same, same_refl, same→eq, Distinct,
}
use appspine_packages.PluginApi.Resolver.Records.{ResolvedPluginInstance}
use appspine_packages.PluginApi.Resolver.Graph.{find_instance, in_order}
use appspine_packages.PluginApi.Resolver.Keys.{instance_keys}

module _ (instances : List ResolvedPluginInstance) where
  -- An instance is found under each key.
  abbrev pub IsFound : Text → Type 0
  IsFound k = (i : ResolvedPluginInstance) × (find_instance instances k ≡ some i) × (i.key ≡ k)

pub find_instance-of_key :
    (instances : List ResolvedPluginInstance) (k : Text)
    → includes (instance_keys instances) k ≡ true
    → IsFound instances k
unfolding find_instance includes
find_instance-of_key [] k m = cc
find_instance-of_key (i ∷ rest) k m = elim (Bool-cases (same i.key k)) [
  | inl e ↦ (i, rw e refl, same→eq i.key k e)
  | inr e ↦
      let (j, found, named) = find_instance-of_key rest k (ground arith) in (j, rw e found, named)
]

any-of_absent :
    (has : ResolvedPluginInstance → Bool) (instances : List ResolvedPluginInstance) (k : Text)
    → includes (instance_keys instances) k ≡ false
    → any (λ p. same p.key k && has p) instances ≡ false
unfolding includes
any-of_absent has [] k h = refl
any-of_absent has (p ∷ rest) k h = ground (arith, any-of_absent has rest k)

pub key-of_any :
    (has : ResolvedPluginInstance → Bool) (instances : List ResolvedPluginInstance) (k : Text)
    → any (λ p. same p.key k && has p) instances ≡ true
    → includes (instance_keys instances) k ≡ true
key-of_any has instances k h = elim (Bool-cases (includes (instance_keys instances) k)) [
  | inl e ↦ e
  | inr e ↦ absurd (ground (arith, any-of_absent has instances k))
]

pub All-at :
    (seen ks : List Text) (k : Text)
    → All (λ d. includes seen d ≡ true) ks
    → includes ks k ≡ true
    → includes seen k ≡ true
unfolding includes
All-at seen [] k a m = cc
All-at seen (j ∷ ks) k (here, a) m = ground (arith, All-at seen ks k a, same→eq j k)

-- What some instance of a key has, the one that is found has: keys stand once.
pub find_instance-has :
    (has : ResolvedPluginInstance → Bool) (instances : List ResolvedPluginInstance) (k : Text)
    (i : ResolvedPluginInstance)
    → Distinct (instance_keys instances)
    → any (λ p. same p.key k && has p) instances ≡ true
    → find_instance instances k ≡ some i
    → has i ≡ true
unfolding find_instance
find_instance-has has [] k i d h f = cc
find_instance-has has (p ∷ rest) k i (fresh, d) h f = elim (Bool-cases (same p.key k)) [
  | inl e ↦
      let f' : some p ≡ some i = rw e at f in
      let found : p ≡ i = cc in
      rw (← found) (ground (arith, any-of_absent has rest k (rw (← same→eq p.key k e) fresh)))
  | inr e ↦ find_instance-has has rest k i d (ground arith) (ground arith)
]

pub in_order-snoc :
    (instances : List ResolvedPluginInstance) (ks : List Text) (k : Text)
    (i : ResolvedPluginInstance)
    → find_instance instances k ≡ some i
    → in_order instances (ks ++ k ∷ []) ≡ in_order instances ks ++ i ∷ []
unfolding in_order
in_order-snoc instances [] k i f = rw (f, in_order) refl
in_order-snoc instances (j ∷ ks) k i f = elim (Option-cases (find_instance instances j)) [
  | inl e ↦ rw (e, in_order) (in_order-snoc instances ks k i f)
  | inr (p, e) ↦ rw (e, in_order) (ap (λ l. p ∷ l) (in_order-snoc instances ks k i f))
]

pub any-in_order :
    (has : ResolvedPluginInstance → Bool) (instances : List ResolvedPluginInstance) (ks : List Text)
    (k : Text) (i : ResolvedPluginInstance)
    → includes ks k ≡ true
    → find_instance instances k ≡ some i
    → has i ≡ true
    → any has (in_order instances ks) ≡ true
unfolding in_order includes
any-in_order has instances [] k i m f h = cc
any-in_order has instances (j ∷ ks) k i m f h = elim (Bool-cases (same j k)) [
  | inl e ↦ rw (ap (find_instance instances) (same→eq j k e) ∙ f, in_order) (ground arith)
  | inr e ↦ elim (Option-cases (find_instance instances j)) [
    | inl f' ↦ rw (f', in_order) (any-in_order has instances ks k i (ground arith) f h)
    | inr (p, f') ↦
        rw (f', in_order) (ground (arith, any-in_order has instances ks k i (ground arith) f h))
  ]
]

pub find_instance-All :
    (P : ResolvedPluginInstance → Type 0) (instances : List ResolvedPluginInstance) (k : Text)
    (i : ResolvedPluginInstance)
    → All P instances
    → find_instance instances k ≡ some i
    → P i
unfolding find_instance
find_instance-All P [] k i a f = cc
find_instance-All P (p ∷ rest) k i (here, a) f = elim (Bool-cases (same p.key k)) [
  | inl e ↦ let f' : some p ≡ some i = rw e at f in let found : p ≡ i = cc in rw (← found) here
  | inr e ↦ find_instance-All P rest k i a (rw e at f)
]

-- The instances come out under the keys by which they were asked for.
pub in_order-keys :
    (instances : List ResolvedPluginInstance) (ks : List Text)
    → ((k : Text) → includes ks k ≡ true → includes (instance_keys instances) k ≡ true)
    → instance_keys (in_order instances ks) ≡ ks
unfolding in_order includes
in_order-keys instances [] known = refl
in_order-keys instances (k ∷ ks) known =
    let (i, found, named) =
      find_instance-of_key instances k (known k (ground (arith, same_refl k))) in
    rw (found, in_order) (cc (named, in_order-keys instances ks (λ j m. known j (ground arith))))
