-- ===== src/McpServer/ToolRegistry.antt =====
-- packages/mcp-server/src/mcp-tool.registry.ts: `McpToolRegistry`.
pub mod Catalog
use appspine_packages.Base.{
  Bool, true, false, ◌&&◌, ◌||◌, not, Option, none, some, List, [], ◌∷◌, ◌++◌, map, if◌then◌else◌,
  any, all, select, is_empty, leb, ◌==◌, Text, text, same, includes, split_on, Dict, get, put,
  Result, ok, err, ◌>>=◌, ℕ,
}

-- The handler of a tool is a value that the registry only hands on.
pub record McpTool (Handler : Type 0) : Type 0 where
  pub name : Text
  pub description : Text
  pub required_scopes : List Text
  pub handler : Handler

pub record McpCatalogEntry : Type 0 where
  pub name : Text
  pub description : Text
  pub required_scopes : List Text
  pub read_only_hint : Bool

pub data PrefixError : Type 0 where
  invalid_prefix : Text → PrefixError

-- `TOOL_PREFIX_PATTERN`
abbrev pub is_prefix_unit : ℕ → Bool
is_prefix_unit c =
    (leb 97 c && leb c 122)
    || ((leb 65 c && leb c 90) || ((leb 48 c && leb c 57) || (c == 95 || c == 45)))

-- `getConfiguredToolPrefix`, with the variable MCP_TOOL_PREFIX of the environment.
unfoldable pub configured_tool_prefix : Option Text → Result PrefixError (Option Text)
configured_tool_prefix none = ok none
configured_tool_prefix (some prefix) =
    if is_empty prefix
    then ok none
    else if all is_prefix_unit prefix
    then ok (some prefix)
    else err (invalid_prefix prefix)

abbrev second_of : List Text → Option Text
second_of (_ ∷ action ∷ _) = some action
second_of _ = none

abbrev is_read_scope : Text → Bool
is_read_scope scope = elim (second_of (split_on 58 scope)) [
  | none ↦ false
  | some action ↦ includes (text "read" ∷ text "list" ∷ text "get" ∷ []) action
]

unfoldable pub classify_tool_as_read_only : List Text → Bool
classify_tool_as_read_only scopes = not (is_empty scopes) && all is_read_scope scopes

abbrev first_of : List Text → Text
first_of [] = []
first_of (part ∷ _) = part

abbrev same_option : Option Text → Option Text → Bool
same_option none none = true
same_option (some a) (some b) = same a b
same_option _ _ = false

-- The matching that is used where no other package provides one.
unfoldable pub fallback_matches : List Text → Text → Bool
fallback_matches granted required =
    let wanted = split_on 58 required in
    includes granted (text "*")
    || any
        (λ g.
          let parts = split_on 58 g in
          same g (text "*")
          || (same (first_of parts) (first_of wanted)
              && (same_option (second_of parts) (some (text "*"))
                  || same_option (second_of parts) (second_of wanted))))
        granted

unfoldable pub matches_scope : Option (List Text → Text → Bool) → List Text → Text → Bool
matches_scope none granted required = fallback_matches granted required
matches_scope (some matcher) granted required = matcher granted required

pub record Registry (Handler : Type 0) : Type 0 where
  pub tool_map : Dict (McpTool Handler)
  pub logical_tools : List (McpTool Handler)

-- The name a tool is called by from outside.
abbrev pub prefixed : Option Text → Text → Text
prefixed none name = name
prefixed (some prefix) name = prefix ++ (95 ∷ name)

module _ {Handler : Type 0} where
  abbrev pub empty_registry : Registry Handler
  empty_registry = record { tool_map = []; logical_tools = [] }

  unfoldable pub list_tools :
      Option (List Text → Text → Bool) → List Text → Registry Handler → List (McpTool Handler)
  unfolding matches_scope
  list_tools matcher scopes registry =
      select (λ tool. all (matches_scope matcher scopes) tool.required_scopes)
        (map (λ e. e.1) registry.tool_map)

  unfoldable pub get_tool : Text → Registry Handler → Option (McpTool Handler)
  get_tool name registry = get name registry.tool_map

  -- `map.set` of a key that is there keeps its place and replaces its value.
  unfoldable pub register_single : McpTool Handler → Registry Handler → Registry Handler
  register_single tool registry = record registry {
    tool_map = put tool.name tool registry.tool_map;
  }

  unfoldable pub register_prefixed :
      Result PrefixError (Option Text)
      → McpTool Handler
      → Registry Handler
      → Result PrefixError (Unit {0}) × Registry Handler
  register_prefixed (err e) tool registry = (err e, registry)
  register_prefixed (ok none) tool registry = (ok tt, registry)
  register_prefixed (ok (some prefix)) tool registry =
      (ok tt, register_single (record tool { name = prefixed (some prefix) tool.name }) registry)

  -- An invalid prefix throws when the bare name is registered already.
  unfoldable pub register_tool :
      Option Text
      → McpTool Handler
      → Registry Handler
      → Result PrefixError (Unit {0}) × Registry Handler
  unfolding register_prefixed
  register_tool env tool registry =
      let single = register_single tool registry in
      register_prefixed (configured_tool_prefix env) tool
        (record single { logical_tools = single.logical_tools ++ tool ∷ [] })

  unfoldable pub catalog_entry : Option Text → McpTool Handler → McpCatalogEntry
  catalog_entry prefix tool = record {
    name = prefixed prefix tool.name;
    description = tool.description;
    required_scopes = tool.required_scopes;
    read_only_hint = classify_tool_as_read_only tool.required_scopes;
  }

  unfoldable pub catalog_snapshot :
      Option Text → Registry Handler → Result PrefixError (List McpCatalogEntry)
  catalog_snapshot env registry = do
    prefix ← configured_tool_prefix env
    ok (map (catalog_entry prefix) registry.logical_tools)
