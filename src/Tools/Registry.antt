-- ===== src/Tools/Registry.antt =====
-- backend/src/tango/tools/realtime-tool.ts: tools by name. Of a tool's definition only the name is
-- kept; what its `execute` does is a parameter of the session.
use ctrl_alt_ship.Prelude.{
  String, Bool, true, not, ◌&&◌, List, [], ◌∷◌, includes, if◌then◌else◌, Result, ok, err,
}
use ctrl_alt_ship.ToolError.{Thrown, other_error}

-- `new Set(names).size === names.length`
abbrev pub all_distinct : List String → Bool
all_distinct [] = true
all_distinct (name ∷ names) = not (includes names name) && all_distinct names

-- The constructor of `RealtimeToolRegistry`.
unfoldable pub new_registry : List String → Result Thrown (List String)
new_registry tools =
    if all_distinct tools then ok tools else err (other_error "Duplicate realtime tool definition")
