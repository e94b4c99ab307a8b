-- ===== src/PluginApi/Manifest.antt =====
-- packages/plugin-api/src/manifest.ts: the fields that the resolver and the runtime read. `document`
-- is the whole manifest as it was parsed, which is what its digest covers.
use appspine_packages.Base.{Option, List, Text, Dict}
use appspine_packages.PluginApi.Json.{Json}

pub data PluginCardinality : Type 0 where
  singleton multiple : PluginCardinality

pub data PluginDistribution : Type 0 where
  official app_local : PluginDistribution

pub record PluginEngineRequirement : Type 0 where
  pub appspine_plugin_api : Text
  pub node : Text
  pub frameworks : Option (Dict Text)

pub record BackendFacetContribution : Type 0 where
  pub export_name : Text
  pub controller_routes : Option (List Text)
  pub provider_tokens : Option (List Text)
  pub workers : Option (List Text)

pub record OperationsFacetContribution : Type 0 where
  pub health_indicator_id : Option Text

pub record PluginFacets : Type 0 where
  pub backend : Option BackendFacetContribution
  pub prisma : Option Json
  pub operations : Option OperationsFacetContribution

pub record ReplacementDeclaration : Type 0 where
  pub plugin : Text
  pub facet : Text
  pub contribution : Text
  pub reason : Text

pub record ConfigSchemaReference : Type 0 where
  pub config_ref : Text

-- Each field of the policy has one value that its type allows.
pub data OptionalFailurePolicy : Type 0 where
  degraded_instance : OptionalFailurePolicy

pub record PluginManifest : Type 0 where
  pub id : Text
  pub cardinality : PluginCardinality
  pub distribution : Option PluginDistribution
  pub engine : PluginEngineRequirement
  pub provides : List Text
  pub requires : List Text
  pub optional_requires : Option (List Text)
  pub conflicts : Option (List Text)
  pub replaces : Option (List ReplacementDeclaration)
  pub config_schema : Option ConfigSchemaReference
  pub optional_failure_policy : Option OptionalFailurePolicy
  pub facets : PluginFacets
  pub document : Json
