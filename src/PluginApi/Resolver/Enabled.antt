-- ===== src/PluginApi/Resolver/Enabled.antt =====
-- packages/plugin-api/src/resolver/index.ts, the loop of `resolvePlugins` over the inventory: the keys of
-- the entries that are enabled, and of those that are not.
use appspine_packages.Base.{
  ◌≡◌, refl, ◌∙◌, sym, or-false, inl, inr, Bool, true, false, ◌||◌, ◌&&◌, not, Option, none, some,
  List, [], ◌∷◌, ◌++◌, arith, or_else, if◌then◌else◌, any, any-append, Bool-cases, Option-cases,
  is_empty, Text, same, includes, get, Dict,
}
use mathlib.Core.List.{map-append}
use appspine_packages.PluginApi.Inventory.{
  PluginInventoryEntry, inventory_plugin_id_of, instance_key, default_instance_id,
}
use appspine_packages.PluginApi.Diagnostics.{
  PluginDiagnostic, diagnostic, is_error, has_errors, has_errors-append,
}
use appspine_packages.PluginApi.Resolver.Records.{ResolvableManifest, diagnose}
use appspine_packages.PluginApi.Resolver.Intake.{
  Intake, new_instance, intake_new, intake_found, intake_entry, intake_from,
}
use appspine_packages.PluginApi.Resolver.Keys.{instance_keys, disabled_keys, includes-snoc}

abbrev instance_id_of : PluginInventoryEntry → Text
instance_id_of entry = if is_empty entry.instance_id then default_instance_id else entry.instance_id

-- The key is that of the entry: of the plugin that it names, by its ID or its package, and of its
-- instance ID.
abbrev named_in : Option ResolvableManifest → PluginInventoryEntry → Text → Bool
named_in none entry k = false
named_in (some found) entry k = same (instance_key found.manifest.id (instance_id_of entry)) k

abbrev pub is_named : Dict ResolvableManifest → Text → PluginInventoryEntry → Bool
is_named by_ref k entry =
    named_in (or_else (get entry.plugin by_ref) (get (inventory_plugin_id_of entry.plugin) by_ref))
      entry k

abbrev pub is_enabled_as : Dict ResolvableManifest → Text → PluginInventoryEntry → Bool
is_enabled_as by_ref k entry = entry.enabled && is_named by_ref k entry

abbrev pub is_disabled_as : Dict ResolvableManifest → Text → PluginInventoryEntry → Bool
is_disabled_as by_ref k entry = not entry.enabled && is_named by_ref k entry

-- What a step over some entries adds to the keys, where no error has been reported behind it.
pub record Adds (k : Text) (st later : Intake) (enabled disabled : Bool) : Type 0 where
  pub clean : has_errors st.diagnostics ≡ false
  pub enables :
      includes (instance_keys later.instances) k
      ≡ (includes (instance_keys st.instances) k || enabled)
  pub disables :
      includes (disabled_keys later.disabled) k
      ≡ (includes (disabled_keys st.disabled) k || disabled)

-- A list that ends in an error is not without errors.
not_clean :
    (ds : List PluginDiagnostic) (d : PluginDiagnostic)
    → has_errors (ds ++ d ∷ []) ≡ false
    → is_error d ≡ true
    → true ≡ false
unfolding has_errors
not_clean ds d h e = ground (arith, any-append is_error ds (d ∷ []))

module _ (sha256_hex : Text → Text) (official_scope : Text) (k : Text) where
  intake_new-Adds :
      (entry : PluginInventoryEntry) (found : ResolvableManifest) (instance_id key : Text)
      (st : Intake)
      → has_errors (intake_new sha256_hex official_scope entry found instance_id key st).diagnostics
        ≡ false
      → Adds k st
          (intake_new sha256_hex official_scope entry found instance_id key st)
          (entry.enabled && same key k)
          (not entry.enabled && same key k)
  unfolding intake_new new_instance
  intake_new-Adds entry found instance_id key st h = elim (Bool-cases entry.enabled) [
    | inl e ↦ rw e (record {
      clean = (or-false _ _ (sym (has_errors-append st.diagnostics _) ∙ rw e at h)).0;
      enables = rw map-append (includes-snoc (instance_keys st.instances) key k);
      disables = ground arith;
    })
    | inr e ↦ rw e (record {
      clean = rw e at h;
      enables = ground arith;
      disables = rw map-append (includes-snoc (disabled_keys st.disabled) key k);
    })
  ]

  intake_found-Adds :
      (entry : PluginInventoryEntry) (found : ResolvableManifest) (st : Intake)
      → has_errors (intake_found sha256_hex official_scope entry found st).diagnostics ≡ false
      → Adds k st
          (intake_found sha256_hex official_scope entry found st)
          (entry.enabled && named_in (some found) entry k)
          (not entry.enabled && named_in (some found) entry k)
  unfolding intake_found diagnose diagnostic
  intake_found-Adds entry found st h =
      let key = instance_key found.manifest.id (instance_id_of entry) in
      elim (Bool-cases (includes st.seen_keys key)) [
        | inl e ↦ cc (not_clean st.diagnostics _ (rw e at h) refl)
        | inr e ↦
            let added =
              intake_new-Adds entry found (instance_id_of entry) key
                (record st { seen_keys = st.seen_keys ++ key ∷ [] }) (rw e at h) in
            rw e
              (record { clean = added.clean; enables = added.enables; disables = added.disables })
      ]

  intake_entry-Adds :
      (by_ref : Dict ResolvableManifest) (entry : PluginInventoryEntry) (st : Intake)
      → has_errors (intake_entry sha256_hex official_scope by_ref entry st).diagnostics ≡ false
      → Adds k st
          (intake_entry sha256_hex official_scope by_ref entry st)
          (is_enabled_as by_ref k entry)
          (is_disabled_as by_ref k entry)
  unfolding intake_entry diagnose diagnostic
  intake_entry-Adds by_ref entry st h =
      elim (Option-cases
        (or_else (get entry.plugin by_ref) (get (inventory_plugin_id_of entry.plugin) by_ref))) [
          | inl e ↦ cc (not_clean st.diagnostics _ (rw (e, intake_entry) at h) refl)
          | inr (found, e) ↦
              rw (e, intake_entry) (intake_found-Adds entry found st (rw (e, intake_entry) at h))
        ]

  -- After the loop the keys are those of the entries, if there is no error.
  pub intake_from-Adds :
      (by_ref : Dict ResolvableManifest) (entries : List PluginInventoryEntry) (st : Intake)
      → has_errors (intake_from sha256_hex official_scope by_ref st entries).diagnostics ≡ false
      → Adds k st
          (intake_from sha256_hex official_scope by_ref st entries)
          (any (is_enabled_as by_ref k) entries)
          (any (is_disabled_as by_ref k) entries)
  unfolding intake_from
  intake_from-Adds by_ref [] st h = record {
    clean = h;
    enables = ground arith;
    disables = ground arith;
  }
  intake_from-Adds by_ref (entry ∷ rest) st h =
      let later =
        intake_from-Adds by_ref rest (intake_entry sha256_hex official_scope by_ref entry st) h in
      let now = intake_entry-Adds by_ref entry st later.clean in
      record {
        clean = now.clean;
        enables = ground (arith, now.enables, later.enables);
        disables = ground (arith, now.disables, later.disables);
      }
