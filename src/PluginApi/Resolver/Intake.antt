-- ===== src/PluginApi/Resolver/Intake.antt =====
-- packages/plugin-api/src/resolver/index.ts, the loop of `resolvePlugins` over the inventory: an
-- instance for each enabled entry, and the checks of the entry.
use appspine_packages.Base.{
  Bool, true, false, ◌&&◌, not, Option, none, some, List, [], ◌∷◌, ◌++◌, if◌then◌else◌, get_or,
  or_else, is_some, is_empty, Text, text, same, includes, starts_with, sorted, Dict, get,
}
use appspine_packages.PluginApi.Inventory.{
  PluginInventoryEntry, default_instance_id, instance_key, inventory_plugin_id_of,
}
use appspine_packages.PluginApi.Diagnostics.{PluginDiagnostic}
use appspine_packages.PluginApi.Json.{manifest_digest}
use appspine_packages.PluginApi.Manifest.{app_local, official, PluginManifest}
use appspine_packages.PluginApi.Resolver.Records.{
  ResolvableManifest, ResolvedPluginInstance, DisabledInstance, diagnose, quoted,
}
use appspine_packages.PluginApi.Resolver.Instances.{provided_capabilities}

-- What the loop over the inventory builds up.
pub record Intake : Type 0 where
  pub instances : List ResolvedPluginInstance
  pub disabled : List DisabledInstance
  pub seen_keys : List Text
  pub diagnostics : List PluginDiagnostic

-- The three checks of an enabled entry.
unfoldable pub optional_policy_check :
    PluginInventoryEntry → PluginManifest → Text → Text → List PluginDiagnostic
optional_policy_check entry manifest instance_id key =
    if not entry.required && not (is_some manifest.optional_failure_policy)
    then diagnose "optional-without-failure-policy"
        (quoted key (
          text
            " is marked optional but its manifest declares no optionalFailurePolicy (051 plan section 9)"
          ∷ []))
        (some manifest.id) (some instance_id) (text "inventory.required")
      ∷ []
    else []

config_ref_mismatch : Text → Text → Text → Text → PluginDiagnostic
config_ref_mismatch given declared plugin_id instance_id =
    diagnose "config-ref-mismatch"
      (text "inventory configRef \""
        ∷ given
        ∷ text "\" does not match the manifest's \""
        ∷ declared
        ∷ text "\""
        ∷ [])
      (some plugin_id) (some instance_id) (text "inventory.configRef")

unfoldable pub config_ref_check :
    PluginInventoryEntry → PluginManifest → Text → List PluginDiagnostic
unfolding config_ref_mismatch
config_ref_check entry manifest instance_id = elim entry.config_ref [
  | none ↦ []
  | some given ↦ elim manifest.config_schema [
    | none ↦ []
    | some schema ↦
        if not (is_empty given) && not (same given schema.config_ref)
        then config_ref_mismatch given schema.config_ref manifest.id instance_id ∷ []
        else []
  ]
]

abbrev claims_app_local : PluginManifest → Bool
claims_app_local manifest = elim manifest.distribution [
  | none ↦ false
  | some d ↦ elim d [ app_local ↦ true | official ↦ false ]
]

unfoldable pub provenance_check : Text → ResolvableManifest → Text → List PluginDiagnostic
provenance_check official_scope found instance_id =
    if claims_app_local found.manifest && starts_with found.package_name official_scope
    then diagnose "app-local-claim-from-official-scope"
        (quoted found.package_name (
          text " claims distribution \"app-local\" from the official scope "
          ∷ quoted official_scope []))
        (some found.manifest.id) (some instance_id) (text "distribution")
      ∷ []
    else []

module _ (sha256_hex : Text → Text) where
  unfoldable pub new_instance :
      PluginInventoryEntry → ResolvableManifest → Text → Text → ResolvedPluginInstance
  new_instance entry found instance_id key =
      let manifest = found.manifest in
      let declared : Option Text = elim manifest.config_schema [
        | none ↦ none
        | some s ↦ some s.config_ref
      ] in
      record {
        key = key;
        plugin_id = manifest.id;
        instance_id = instance_id;
        package_name = found.package_name;
        package_version = found.package_version;
        cardinality = manifest.cardinality;
        required = entry.required;
        config_ref = or_else entry.config_ref declared;
        manifest_digest =
            get_or found.manifest_digest (manifest_digest sha256_hex manifest.document);
        digest = get_or found.digest (manifest_digest sha256_hex manifest.document);
        provides = sorted (provided_capabilities manifest instance_id);
        requires = sorted manifest.requires;
        optional_requires = sorted (get_or manifest.optional_requires []);
        depends_on = [];
        unresolved_optional = [];
        replaces = get_or manifest.replaces [];
        manifest = manifest;
      }

  module _ (official_scope : Text) where
    -- The rest of the loop's body, once the manifest and the key are known and the key is new.
    unfoldable pub intake_new :
        PluginInventoryEntry → ResolvableManifest → Text → Text → Intake → Intake
    intake_new entry found instance_id key st =
        if entry.enabled
        then record st {
          instances = st.instances ++ new_instance entry found instance_id key ∷ [];
          diagnostics =
              st.diagnostics
              ++ (optional_policy_check entry found.manifest instance_id key
                  ++ (config_ref_check entry found.manifest instance_id
                      ++ provenance_check official_scope found instance_id));
        }
        else record st {
          disabled =
              st.disabled
              ++ record {
                key = key;
                plugin_id = found.manifest.id;
                instance_id = instance_id;
                package_name = found.package_name;
              }
                ∷ [];
        }

    unfoldable pub intake_found : PluginInventoryEntry → ResolvableManifest → Intake → Intake
    intake_found entry found st =
        let manifest = found.manifest in
        let instance_id =
          if is_empty entry.instance_id then default_instance_id else entry.instance_id in
        let key = instance_key manifest.id instance_id in
        if includes st.seen_keys key
        then record st {
          diagnostics =
              st.diagnostics
              ++ diagnose "duplicate-instance"
                  (text "two inventory entries resolve to " ∷ quoted key []) (some manifest.id)
                  (some instance_id) (text "inventory.instanceId")
                ∷ [];
        }
        else intake_new entry found instance_id key
            (record st { seen_keys = st.seen_keys ++ key ∷ [] })

    -- The body of the loop over the inventory.
    unfoldable pub intake_entry : Dict ResolvableManifest → PluginInventoryEntry → Intake → Intake
    intake_entry by_ref entry st =
        elim (or_else (get entry.plugin by_ref)
          (get (inventory_plugin_id_of entry.plugin) by_ref)) [
            | some found ↦ intake_found entry found st
            | none ↦ record st {
              diagnostics =
                  st.diagnostics
                  ++ diagnose "unknown-plugin"
                      (text "inventory references unknown plugin " ∷ quoted entry.plugin []) none
                      (some entry.instance_id) (text "inventory.plugin")
                    ∷ [];
            }
          ]

    unfoldable pub intake_from :
        Dict ResolvableManifest → Intake → List PluginInventoryEntry → Intake
    intake_from by_ref st [] = st
    intake_from by_ref st (entry ∷ rest) = intake_from by_ref (intake_entry by_ref entry st) rest
