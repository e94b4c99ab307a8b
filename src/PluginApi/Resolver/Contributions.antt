-- ===== src/PluginApi/Resolver/Contributions.antt =====
-- packages/plugin-api/src/resolver/index.ts: `collectContributions`, `replacementKeysOf` and the search
-- for contributions that two plugins make.
use appspine_packages.Base.{
  join, ◌&&◌, Option, none, some, List, [], ◌∷◌, ◌++◌, map, if◌then◌else◌, ◌==◌, get_or, is_empty,
  length, ltb, flat_map, Text, text, say, same, includes, dedupe, sorted, sort_by, by_key, Dict,
  push_at, String,
}
use appspine_packages.PluginApi.Capabilities.{qualify_capability}
use appspine_packages.PluginApi.Diagnostics.{PluginDiagnostic}
use appspine_packages.PluginApi.Json.{Json, arr, obj, str, Items, nil, cons, Fields, end, field}
use appspine_packages.PluginApi.Manifest.{singleton, multiple, BackendFacetContribution}
use appspine_packages.PluginApi.Resolver.Records.{ResolvedPluginInstance, diagnose}

pub record Contribution : Type 0 where
  pub kind : Text
  pub value : Text
  pub key : Text
  pub plugin_id : Text

abbrev contribute : ResolvedPluginInstance → Text → Text → Contribution
contribute instance_of kind value = record {
  kind = kind;
  value = value;
  key = instance_of.key;
  plugin_id = instance_of.plugin_id;
}

-- A field of an object, if the value is one.
field_of : Text → Fields → Option Json
field_of k end = none
field_of k (field j v rest) = if same j k then some v else field_of k rest

-- The strings among the items of an array.
strings_of : Items → List Text
strings_of nil = []
strings_of (cons (str s) rest) = s ∷ strings_of rest
strings_of (cons v rest) = strings_of rest

owned_models : Json → List Text
unfolding field_of strings_of
owned_models (obj fs) = elim (field_of (text "owns") fs) [ some (arr vs) ↦ strings_of vs | _ ↦ [] ]
owned_models v = []

backend_contributions : ResolvedPluginInstance → BackendFacetContribution → List Contribution
backend_contributions i backend =
    map (contribute i (text "route")) (get_or backend.controller_routes [])
    ++ (map (contribute i (text "provider-token")) (get_or backend.provider_tokens [])
        ++ (map (contribute i (text "worker")) (get_or backend.workers [])
            ++ (if is_empty backend.export_name
                then []
                else contribute i (text "backend-module")
                    (say (i.package_name ∷ text "#" ∷ backend.export_name ∷ []))
                  ∷ [])))

health_contribution : ResolvedPluginInstance → Text → List Contribution
health_contribution i indicator =
    if is_empty indicator
    then []
    else contribute i (text "health-indicator") (elim i.cardinality [
      | multiple ↦ qualify_capability indicator i.instance_id
      | singleton ↦ indicator
    ])
      ∷ []

unfoldable pub collect_contributions : ResolvedPluginInstance → List Contribution
unfolding backend_contributions health_contribution owned_models
collect_contributions i =
    let facets = i.manifest.facets in
    elim facets.backend [ none ↦ [] | some backend ↦ backend_contributions i backend ]
    ++ (elim facets.operations [
      | none ↦ []
      | some operations ↦ health_contribution i (get_or operations.health_indicator_id [])
    ]
        ++ elim facets.prisma [
          | none ↦ []
          | some prisma ↦ map (contribute i (text "prisma-model")) (owned_models prisma)
        ])

-- Contribution kinds that several instances of one plugin share.
unfoldable pub shared_across_instances : List Text
shared_across_instances = text "backend-module" ∷ text "prisma-model" ∷ []

unfoldable pub duplicate_code : Text → String
duplicate_code kind =
    if same kind (text "route")
    then "duplicate-route"
    else if same kind (text "provider-token")
    then "duplicate-provider-token"
    else if same kind (text "worker")
    then "duplicate-worker"
    else if same kind (text "backend-module")
    then "duplicate-backend-module"
    else if same kind (text "health-indicator")
    then "duplicate-health-indicator"
    else if same kind (text "prisma-model")
    then "duplicate-prisma-model"
    else "duplicate-contribution"

unfoldable pub contribution_id : Text → Text → Text
contribution_id owner value = say (owner ∷ text "::" ∷ value ∷ [])

unfoldable pub replacement_keys_of : List ResolvedPluginInstance → List Text
replacement_keys_of instances =
    flat_map (λ i. map (λ r. contribution_id r.plugin r.contribution) i.replaces) instances

-- The part before the first `::`, and the part behind it.
unfoldable pub cut_colons : Text → Text × Option Text
cut_colons [] = ([], none)
cut_colons (c ∷ []) = (c ∷ [], none)
cut_colons (c ∷ d ∷ s) =
    let (front, back) = cut_colons (d ∷ s) in
    if c == b':' && d == b':' then ([], some s) else (c ∷ front, back)

add_contributions :
    List Text → List Contribution → Dict (List Contribution) → Dict (List Contribution)
add_contributions suppressed [] owners = owners
add_contributions suppressed (c ∷ rest) owners = add_contributions suppressed rest (
    if includes suppressed (contribution_id c.plugin_id c.value)
    then owners
    else push_at (contribution_id c.kind c.value) c owners)

contribution_owners :
    List Text → List ResolvedPluginInstance → Dict (List Contribution) → Dict (List Contribution)
contribution_owners suppressed [] owners = owners
contribution_owners suppressed (i ∷ rest) owners =
    contribution_owners suppressed rest
      (add_contributions suppressed (collect_contributions i) owners)

-- The verdict on one contribution and all that make it.
unfoldable pub contested_contribution : Text × List Contribution → List PluginDiagnostic
contested_contribution (id, owners) =
    let (kind, back) = cut_colons id in
    let value = (cut_colons (get_or back [])).0 in
    if ltb (length owners) 2
    then []
    else if includes shared_across_instances kind
        && ltb (length (dedupe (map (λ o. o.plugin_id) owners))) 2
    then []
    else diagnose (duplicate_code kind)
        (kind
          ∷ text " \""
          ∷ value
          ∷ text "\" is contributed by "
          ∷ join (text ", ") (sorted (map (λ o. o.key) owners))
          ∷ [])
        none none (say (text "facets." ∷ kind ∷ []))
      ∷ []

unfoldable pub contribution_check : List ResolvedPluginInstance → List PluginDiagnostic
unfolding contribution_owners add_contributions
contribution_check instances =
    flat_map contested_contribution (
      sort_by (by_key (λ e. e.0))
        (contribution_owners (replacement_keys_of instances) instances []))
