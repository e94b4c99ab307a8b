-- ===== src/McpServer/ToolRegistry/Catalog.antt =====
-- packages/mcp-server/src/mcp-tool.registry.ts: the catalog and the tools that callers reach.
use appspine_packages.Base.{
  ◌≡◌, refl, sym, ap, ◌∙◌, Bool, false, Option, none, some, List, [], ◌∷◌, ◌++◌, map, arith, All,
  flat_map, all, select, or-false, includes-append, Text, same_refl, includes, Distinct, put,
  get-put, ok,
}
use mathlib.Core.List.{append-nil, append_assoc}
use appspine_packages.McpServer.ToolRegistry.{
  McpTool, configured_tool_prefix, fallback_matches, matches_scope, Registry, empty_registry,
  list_tools, get_tool, register_single, prefixed, register_tool, catalog_entry, catalog_snapshot,
}
use appspine_packages.M2mApiKey.Scopes.{match_scope, grants}

module _ {Handler : Type 0} where
  -- The registry after an application has registered its tools.
  unfoldable pub register_all :
      Option Text → List (McpTool Handler) → Registry Handler → Registry Handler
  register_all env [] registry = registry
  register_all env (tool ∷ tools) registry =
      register_all env tools (register_tool env tool registry).1

  -- The names a tool is registered under.
  abbrev pub names_of : Option Text → McpTool Handler → List Text
  names_of none tool = tool.name ∷ []
  names_of (some prefix) tool = tool.name ∷ prefixed (some prefix) tool.name ∷ []

  abbrev pub all_names : Option Text → List (McpTool Handler) → List Text
  all_names prefix tools = flat_map (names_of prefix) tools

  get-register_tool :
      (env prefix : Option Text) (tool : McpTool Handler) (registry : Registry Handler)
      (name : Text)
      → configured_tool_prefix env ≡ ok prefix
      → includes (names_of prefix tool) name ≡ false
      → get_tool name (register_tool env tool registry).1 ≡ get_tool name registry
  unfolding register_tool register_single get_tool includes
  get-register_tool env none tool registry name h k =
      rw h (get-put tool.name name tool registry.tool_map ∙ ground arith)
  get-register_tool env (some prefix) tool registry name h k = rw h (
      get-put (prefixed (some prefix) tool.name) name _ (put tool.name tool registry.tool_map)
      ∙ ground (arith, get-put tool.name name tool registry.tool_map))

  get-register_all :
      (env prefix : Option Text) (tools : List (McpTool Handler)) (registry : Registry Handler)
      (name : Text)
      → configured_tool_prefix env ≡ ok prefix
      → includes (all_names prefix tools) name ≡ false
      → get_tool name (register_all env tools registry) ≡ get_tool name registry
  unfolding register_all
  get-register_all env prefix [] registry name h k = refl
  get-register_all env prefix (tool ∷ tools) registry name h k =
      let (here, later) =
        or-false _ _
          (sym (includes-append (names_of prefix tool) (all_names prefix tools) name) ∙ k) in
      get-register_all env prefix tools _ name h later
      ∙ get-register_tool env prefix tool registry name h here

  abbrev pub scopes_of : Option (McpTool Handler) → Option (List Text)
  scopes_of none = none
  scopes_of (some tool) = some tool.required_scopes

  get-registered :
      (env prefix : Option Text) (tool : McpTool Handler) (registry : Registry Handler)
      → configured_tool_prefix env ≡ ok prefix
      → scopes_of (get_tool (prefixed prefix tool.name) (register_tool env tool registry).1)
        ≡ some tool.required_scopes
  unfolding register_tool register_single get_tool
  get-registered env none tool registry h =
      rw (h, get-put tool.name tool.name tool registry.tool_map, same_refl tool.name) refl
  get-registered env (some prefix) tool registry h =
      let name = prefixed (some prefix) tool.name in
      rw
        (
          h,
          get-put name name (record tool { name = name }) (put tool.name tool registry.tool_map),
          same_refl name,
        )
        refl

  -- The outside name of a tool is none of the names of the tools behind it.
  name_is_new :
      (prefix : Option Text) (tool : McpTool Handler) (rest : List Text)
      → Distinct (names_of prefix tool ++ rest)
      → (includes rest (prefixed prefix tool.name) ≡ false) × Distinct rest
  name_is_new none tool rest (new, d) = (new, d)
  name_is_new (some prefix) tool rest (_, (new, d)) = (new, d)

  register_all-reach :
      (env prefix : Option Text) (tools : List (McpTool Handler)) (registry : Registry Handler)
      → configured_tool_prefix env ≡ ok prefix
      → Distinct (all_names prefix tools)
      → All
          (λ e.
            scopes_of (get_tool e.name (register_all env tools registry)) ≡ some e.required_scopes)
          (map (catalog_entry prefix) tools)
  unfolding register_all catalog_entry
  register_all-reach env prefix [] registry h d = tt
  register_all-reach env prefix (tool ∷ tools) registry h d =
      let (new, later) = name_is_new prefix tool (all_names prefix tools) d in
      let next = (register_tool env tool registry).1 in
      (
        ap scopes_of (get-register_all env prefix tools next (prefixed prefix tool.name) h new)
            ∙ get-registered env prefix tool registry h,
        register_all-reach env prefix tools next h later,
      )

  logical-register_tool :
      (env prefix : Option Text) (tool : McpTool Handler) (registry : Registry Handler)
      → configured_tool_prefix env ≡ ok prefix
      → (register_tool env tool registry).1.logical_tools ≡ registry.logical_tools ++ tool ∷ []
  unfolding register_tool register_single
  logical-register_tool env none tool registry h = rw h refl
  logical-register_tool env (some prefix) tool registry h = rw h refl

  logical-register_all :
      (env prefix : Option Text) (tools : List (McpTool Handler)) (registry : Registry Handler)
      → configured_tool_prefix env ≡ ok prefix
      → (register_all env tools registry).logical_tools ≡ registry.logical_tools ++ tools
  unfolding register_all
  logical-register_all env prefix [] registry h = sym (append-nil _)
  logical-register_all env prefix (tool ∷ tools) registry h =
      logical-register_all env prefix tools _ h
      ∙ (ap (λ l. l ++ tools) (logical-register_tool env prefix tool registry h)
          ∙ append_assoc registry.logical_tools (tool ∷ []) tools)

  -- The catalog has one entry for each tool that was registered, in order, and a caller who uses an
  -- entry's name reaches a tool with the scopes that the entry states. The prefix is valid, and the
  -- names that the tools are registered under, with and without it, are different.
  pub catalog_snapshot_reach :
      (env prefix : Option Text) (tools : List (McpTool Handler))
      → configured_tool_prefix env ≡ ok prefix
      → Distinct (all_names prefix tools)
      → (catalog_snapshot env (register_all env tools empty_registry)
          ≡ ok (map (catalog_entry prefix) tools))
        × All
            (λ e.
              scopes_of (get_tool e.name (register_all env tools empty_registry))
              ≡ some e.required_scopes)
            (map (catalog_entry prefix) tools)
  unfolding catalog_snapshot
  catalog_snapshot_reach env prefix tools h d = (
    rw (h, logical-register_all env prefix tools empty_registry h) refl,
    register_all-reach env prefix tools empty_registry h d,
  )

select-agree {ℓ} :
    {A : Type ℓ} (p q : A → Bool) (xs : List A) → ((x : A) → p x ≡ q x) → select p xs ≡ select q xs
select-agree p q [] h = refl
select-agree p q (x ∷ xs) h = ground (arith, h x, select-agree p q xs h)

all_matches :
    (granted scopes : List Text)
    → all (matches_scope (some match_scope) granted) scopes
      ≡ all (matches_scope none granted) scopes
unfolding matches_scope fallback_matches match_scope grants
all_matches granted [] = refl
all_matches granted (s ∷ scopes) = ground (arith, all_matches granted scopes)

-- The registry lists the same tools whether the matching of scopes comes from @appspine/m2m-api-key or
-- is its own.
pub list_tools-match_scope :
    {Handler : Type 0} (scopes : List Text) (registry : Registry Handler)
    → list_tools (some match_scope) scopes registry ≡ list_tools none scopes registry
unfolding list_tools
list_tools-match_scope scopes registry =
    select-agree _ _ (map (λ e. e.1) registry.tool_map)
      (λ tool. all_matches scopes tool.required_scopes)
