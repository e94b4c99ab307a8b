-- ===== src/PluginApi/Resolver/Records.antt =====
-- packages/plugin-api/src/resolver/index.ts: the records that the resolver builds, and the shape of
-- most of its diagnostics.
use appspine_packages.Base.{ℕ, Bool, Option, none, some, List, ◌∷◌, Text, text, say, String}
use appspine_packages.PluginApi.Diagnostics.{PluginDiagnostic, diagnostic}
use appspine_packages.PluginApi.Manifest.{PluginCardinality, PluginManifest, ReplacementDeclaration}

-- `identity` tells the objects apart, as `!==` does.
pub record ResolvableManifest : Type 0 where
  pub identity : ℕ
  pub manifest : PluginManifest
  pub package_name : Text
  pub package_version : Text
  pub manifest_digest : Option Text
  pub digest : Option Text

pub record ResolvedPluginInstance : Type 0 where
  pub key : Text
  pub plugin_id : Text
  pub instance_id : Text
  pub package_name : Text
  pub package_version : Text
  pub cardinality : PluginCardinality
  pub required : Bool
  pub config_ref : Option Text
  pub manifest_digest : Text
  pub digest : Text
  pub provides : List Text
  pub requires : List Text
  pub optional_requires : List Text
  pub depends_on : List Text
  pub unresolved_optional : List Text
  pub replaces : List ReplacementDeclaration
  pub manifest : PluginManifest

pub record DisabledInstance : Type 0 where
  pub key : Text
  pub plugin_id : Text
  pub instance_id : Text
  pub package_name : Text

-- The third argument of `diagnostic` in most calls: a plugin, an instance and a path.
unfoldable pub diagnose : String → List Text → Option Text → Option Text → Text → PluginDiagnostic
unfolding text
diagnose code message plugin_id instance_id path =
    diagnostic (text code) (say message) (record {
      plugin_id = plugin_id;
      instance_id = instance_id;
      path = some path;
      severity = none;
    })

-- A text between quotation marks, in front of the rest of a message.
unfoldable pub quoted : Text → List Text → List Text
quoted t rest = text "\"" ∷ t ∷ text "\"" ∷ rest
