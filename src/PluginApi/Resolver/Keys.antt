-- ===== src/PluginApi/Resolver/Keys.antt =====
-- packages/plugin-api/src/resolver/index.ts, `resolvePlugins`: the keys of the instances that the
-- inventory yields.
use appspine_packages.Base.{
  ◌≡◌, refl, inl, inr, true, false, ◌||◌, List, [], ◌∷◌, ◌++◌, map, arith, or_else, if◌then◌else◌,
  Bool-cases, Option-cases, is_empty, Text, includes, same, same→eq, includes-append, get, Dict,
  Distinct, Distinct-append,
}
use mathlib.Core.List.{map-append}
use appspine_packages.PluginApi.Inventory.{
  PluginInventoryEntry, inventory_plugin_id_of, instance_key, default_instance_id,
}
use appspine_packages.PluginApi.Resolver.Records.{
  ResolvableManifest, ResolvedPluginInstance, DisabledInstance,
}
use appspine_packages.PluginApi.Resolver.Intake.{
  Intake, new_instance, intake_new, intake_found, intake_entry, intake_from,
}
use appspine_packages.PluginApi.Resolver.Graph.{ResolveOptions, take_in}

abbrev pub instance_keys : List ResolvedPluginInstance → List Text
instance_keys instances = map (λ i. i.key) instances

abbrev pub disabled_keys : List DisabledInstance → List Text
disabled_keys disabled = map (λ d. d.key) disabled

-- The keys that are enabled, disabled and seen: the first two make up the third, and no key stands
-- twice.
pub record IsSplit (enabled disabled seen : List Text) : Type 0 where
  pub enabled_once : Distinct enabled
  pub disabled_once : Distinct disabled
  pub all_seen : (k : Text) → (includes enabled k || includes disabled k) ≡ includes seen k
  pub apart : (k : Text) → includes enabled k ≡ true → includes disabled k ≡ false

pub includes-snoc :
    (xs : List Text) (x t : Text) → includes (xs ++ x ∷ []) t ≡ (includes xs t || same x t)
unfolding includes
includes-snoc xs x t = ground (arith, includes-append xs (x ∷ []) t)

Distinct-snoc :
    (xs : List Text) (x : Text) → Distinct xs → includes xs x ≡ false → Distinct (xs ++ x ∷ [])
unfolding includes
Distinct-snoc xs x d fresh =
    Distinct-append xs (x ∷ []) d (refl, tt) (λ t h. ground (arith, same→eq x t))

module _ {enabled disabled seen : List Text} (key : Text) (fresh : includes seen key ≡ false)
    (inv : IsSplit enabled disabled seen) where
  IsSplit-enable : IsSplit (enabled ++ key ∷ []) disabled (seen ++ key ∷ [])
  IsSplit-enable = record {
    enabled_once = Distinct-snoc enabled key inv.enabled_once (ground (arith, inv.all_seen key));
    disabled_once = inv.disabled_once;
    all_seen =
        λ k. ground (arith, inv.all_seen k, includes-snoc enabled key k, includes-snoc seen key k);
    apart = λ k h. ground (
      arith,
      inv.apart k,
      inv.all_seen k,
      inv.all_seen key,
      includes-snoc enabled key k,
      same→eq key k,
    );
  }

  IsSplit-disable : IsSplit enabled (disabled ++ key ∷ []) (seen ++ key ∷ [])
  IsSplit-disable = record {
    enabled_once = inv.enabled_once;
    disabled_once = Distinct-snoc disabled key inv.disabled_once (ground (arith, inv.all_seen key));
    all_seen =
        λ k. ground (arith, inv.all_seen k, includes-snoc disabled key k, includes-snoc seen key k);
    apart = λ k h. ground (
      arith,
      inv.apart k,
      inv.all_seen k,
      inv.all_seen key,
      includes-snoc disabled key k,
      same→eq key k,
    );
  }

abbrev pub HasOwnKeys : Intake → Type 0
HasOwnKeys st = IsSplit (instance_keys st.instances) (disabled_keys st.disabled) st.seen_keys

module _ (sha256_hex : Text → Text) (official_scope : Text) where
  intake_new-HasOwnKeys :
      (entry : PluginInventoryEntry) (found : ResolvableManifest) (instance_id key : Text)
      (st : Intake)
      → includes st.seen_keys key ≡ false
      → HasOwnKeys st
      → HasOwnKeys (
          intake_new sha256_hex official_scope entry found instance_id key
            (record st { seen_keys = st.seen_keys ++ key ∷ [] }))
  unfolding intake_new new_instance
  intake_new-HasOwnKeys entry found instance_id key st fresh inv = elim (Bool-cases entry.enabled) [
    | inl e ↦ rw (e, map-append) (IsSplit-enable key fresh inv)
    | inr e ↦ rw (e, map-append) (IsSplit-disable key fresh inv)
  ]

  intake_found-HasOwnKeys :
      (entry : PluginInventoryEntry) (found : ResolvableManifest) (st : Intake)
      → HasOwnKeys st
      → HasOwnKeys (intake_found sha256_hex official_scope entry found st)
  unfolding intake_found
  intake_found-HasOwnKeys entry found st inv =
      let instance_id : Text =
        if is_empty entry.instance_id then default_instance_id else entry.instance_id in
      let key = instance_key found.manifest.id instance_id in
      elim (Bool-cases (includes st.seen_keys key)) [
        | inl e ↦ rw e inv
        | inr e ↦ rw e (intake_new-HasOwnKeys entry found instance_id key st e inv)
      ]

  intake_entry-HasOwnKeys :
      (by_ref : Dict ResolvableManifest) (entry : PluginInventoryEntry) (st : Intake)
      → HasOwnKeys st
      → HasOwnKeys (intake_entry sha256_hex official_scope by_ref entry st)
  unfolding intake_entry
  intake_entry-HasOwnKeys by_ref entry st inv =
      elim (Option-cases
        (or_else (get entry.plugin by_ref) (get (inventory_plugin_id_of entry.plugin) by_ref))) [
          | inl e ↦ rw (e, intake_entry) inv
          | inr (found, e) ↦ rw (e, intake_entry) (intake_found-HasOwnKeys entry found st inv)
        ]

  pub intake_from-HasOwnKeys :
      (by_ref : Dict ResolvableManifest) (st : Intake) (entries : List PluginInventoryEntry)
      → HasOwnKeys st
      → HasOwnKeys (intake_from sha256_hex official_scope by_ref st entries)
  unfolding intake_from
  intake_from-HasOwnKeys by_ref st [] inv = inv
  intake_from-HasOwnKeys by_ref st (entry ∷ rest) inv =
      intake_from-HasOwnKeys by_ref (intake_entry sha256_hex official_scope by_ref entry st) rest
        (intake_entry-HasOwnKeys by_ref entry st inv)

-- Every key that the inventory yields is new: no key is enabled twice, disabled twice, or both.
pub take_in-HasOwnKeys :
    (sha256_hex : Text → Text) (options : ResolveOptions) → HasOwnKeys (take_in sha256_hex options)
unfolding take_in includes
take_in-HasOwnKeys sha256_hex options =
    intake_from-HasOwnKeys sha256_hex _ _ _ _
      (record { enabled_once = tt; disabled_once = tt; all_seen = λ k. refl; apart = λ k h. cc })
