-- ===== src/Engine/Lookup.antt =====
-- crates/executor-engine/src/lookup.rs: which tool a path names.
use zoen_gateway.Prelude.{
  ◌∷◌, [], ◌++◌, Bool, Option, none, some, List, if◌then◌else◌, ◌||◌, take, select, and_then,
}
use zoen_gateway.Prelude.Text.{Text, ascii, text_eq, contains, starts_with}
use zoen_gateway.Prelude.Map.{Map, text_key, lookup, values}
use zoen_gateway.Prelude.Effect.{Result, ok, err}
use zoen_gateway.Core.Address.{ToolAddress, to_string, parse_tool_address}
use zoen_gateway.Core.Tool.{Tool, cli_path}
use zoen_gateway.Core.Store.{MemoryInner, get_tool, list_tools}
use zoen_gateway.Engine.Error.{ExecutorError, tool_not_found}

pub data Resolved : Type 0 where
  static dynamic : Tool → Resolved

abbrev pub tool : Resolved → Tool
tool (static t) = t
tool (dynamic t) = t

unfoldable pub classify : Tool → Resolved
classify t = if t.static_tool then static t else dynamic t

unfoldable pub all_tools : Map Text Tool → MemoryInner → List Tool
all_tools static_tools s = list_tools s ++ values static_tools

abbrev pub names : Text → Tool → Bool
names path t = text_eq (cli_path t) path || text_eq (to_string t.address) path

abbrev pub leads_to : Text → Tool → Bool
leads_to path t = text_eq (cli_path t) path || starts_with (path ++ ascii ".") (cli_path t)

abbrev pub paths : List Tool → List Text
paths [] = []
paths (t ∷ ts) = cli_path t ∷ paths ts

-- The only tool of a list.
abbrev pub only : List Tool → Option Tool
only (t ∷ []) = some t
only _ = none

-- A path that is no address: the tool that it names, or else the only one that it leads to.
unfoldable pub search_path : Map Text Tool → Text → MemoryInner → Result ExecutorError Resolved
search_path static_tools path s =
    let tools = all_tools static_tools s in
    elim (only (select (names path) tools)) [
      | some t ↦ ok (classify t)
      | none ↦ elim (only (select (leads_to path) tools)) [
        | some t ↦ ok (classify t)
        | none ↦ err (tool_not_found path (take 5 (select (contains path) (paths tools))) none)
      ]
    ]

abbrev pub found_at : ToolAddress → Option Tool → Result ExecutorError Resolved
found_at address (some t) = ok (dynamic t)
found_at address none = err (tool_not_found (to_string address) [] none)

abbrev pub stored_at : Text → MemoryInner → Option Tool
stored_at path s = and_then (parse_tool_address path) (λ address. get_tool address s)

unfoldable pub resolve_path : Map Text Tool → Text → MemoryInner → Result ExecutorError Resolved
resolve_path static_tools path s = elim (lookup path static_tools) [
  | some t ↦ ok (static t)
  | none ↦ elim (parse_tool_address path) [
    | some address ↦ found_at address (get_tool address s)
    | none ↦ elim (stored_at (ascii "tools." ++ path) s) [
      | some t ↦ ok (dynamic t)
      | none ↦ search_path static_tools path s
    ]
  ]
]
