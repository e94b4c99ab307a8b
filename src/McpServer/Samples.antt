-- ===== src/McpServer/Samples.antt =====
-- Two tools under a prefix, and a request in rounds.
use appspine_packages.Base.{
  ℕ, ◌≡◌, refl, Option, none, some, List, [], ◌∷◌, map, All, Distinct, Text, text, same, includes,
  Result, ok, String,
}
use appspine_packages.McpServer.ToolRegistry.{
  McpTool, configured_tool_prefix, empty_registry, get_tool, list_tools, catalog_entry,
  catalog_snapshot,
}
use appspine_packages.McpServer.ToolRegistry.Catalog.{
  register_all, all_names, scopes_of, catalog_snapshot_reach, list_tools-match_scope,
}
use appspine_packages.McpServer.RequestState.{Codec, Payload, StateError}
use appspine_packages.M2mApiKey.Scopes.{match_scope}

abbrev tool : String → String → McpTool ℕ
tool name scope = record {
  name = text name;
  description = text name;
  required_scopes = text scope ∷ [];
  handler = 0;
}

abbrev tools : List (McpTool ℕ)
tools = tool "find" "users:read" ∷ tool "drop" "users:write" ∷ []

abbrev env : Option Text
env = some (text "crm")

valid_env : configured_tool_prefix env ≡ ok env
unfolding configured_tool_prefix text
valid_env = refl

different : Distinct (all_names env tools)
unfolding includes same text
different = (refl, (refl, (refl, (refl, tt))))

catalog_snapshot_reach_example :
    (catalog_snapshot env (register_all env tools empty_registry)
      ≡ ok (map (catalog_entry env) tools))
    × All
        (λ e.
          scopes_of (get_tool e.name (register_all env tools empty_registry))
          ≡ some e.required_scopes)
        (map (catalog_entry env) tools)
catalog_snapshot_reach_example = catalog_snapshot_reach env env tools valid_env different

abbrev reader : List Text
reader = text "users:read" ∷ []

list_tools-match_scope_example :
    list_tools (some match_scope) reader (register_all env tools empty_registry)
    ≡ list_tools none reader (register_all env tools empty_registry)
list_tools-match_scope_example =
    list_tools-match_scope reader (register_all env tools empty_registry)

-- A codec whose sealed text is the list of the round and the datum.
abbrev plain_unseal : Text → Result StateError (Payload ℕ)
plain_unseal (r ∷ d ∷ []) = ok (record { round = r; payload_data = d })
plain_unseal _ = Result.err StateError.codec_rejected

abbrev plain : Codec ℕ
plain = record { seal = λ p. p.round ∷ p.payload_data ∷ []; unseal = plain_unseal }
