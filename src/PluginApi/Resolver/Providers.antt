-- ===== src/PluginApi/Resolver/Providers.antt =====
-- packages/plugin-api/src/resolver/index.ts, `resolvePlugins`: the map of capability providers.
use appspine_packages.Base.{
  ◌≡◌, Bool, ◌||◌, ◌&&◌, List, [], ◌∷◌, arith, get_or, any, Text, includes, same, includes-append,
  get, push_at, get-push_at, Dict,
}
use appspine_packages.PluginApi.Resolver.Records.{ResolvedPluginInstance}
use appspine_packages.PluginApi.Resolver.Checks.{providers_of, providers_from, add_provider}

abbrev pub provided_by : Dict (List Text) → Text → List Text
provided_by providers capability = get_or (get capability providers) []

abbrev pub provides_as : Text → Text → ResolvedPluginInstance → Bool
provides_as key capability i = same i.key key && includes i.provides capability

add_provider-includes :
    (key : Text) (capabilities : List Text) (providers : Dict (List Text)) (capability k : Text)
    → includes (provided_by (add_provider key capabilities providers) capability) k ≡ (
        includes (provided_by providers capability) k
        || (same key k && includes capabilities capability))
unfolding add_provider includes
add_provider-includes key [] providers capability k = ground arith
add_provider-includes key (c ∷ rest) providers capability k = ground (
  arith,
  add_provider-includes key rest (push_at c key providers) capability k,
  get-push_at c capability key providers,
  includes-append (provided_by providers capability) (key ∷ []) k,
)

providers_from-includes :
    (providers : Dict (List Text)) (instances : List ResolvedPluginInstance) (capability k : Text)
    → includes (provided_by (providers_from providers instances) capability) k
      ≡ (includes (provided_by providers capability) k || any (provides_as k capability) instances)
unfolding providers_from
providers_from-includes providers [] capability k = ground arith
providers_from-includes providers (i ∷ rest) capability k = ground (
  arith,
  providers_from-includes (add_provider i.key i.provides providers) rest capability k,
  add_provider-includes i.key i.provides providers capability k,
)

-- A key is listed for a capability exactly when an instance of that key provides it.
pub providers_of-includes :
    (instances : List ResolvedPluginInstance) (capability k : Text)
    → includes (provided_by (providers_of instances) capability) k
      ≡ any (provides_as k capability) instances
unfolding providers_of get includes
providers_of-includes instances capability k = providers_from-includes [] instances capability k
