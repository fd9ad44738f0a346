-- ===== src/Tool/Registry.antt =====
-- internal/tool/tool.go: the registry of tools, by trimmed name.
use heike.Prelude.{
  String, ◌≡◌, [], Option, none, some, arith, ◌==◌, if◌then◌else◌, trim_space, Dict, lookup, insert,
  lookup-insert,
}
use heike.Tool.Validator.{Fields}

-- A tool; `execute` gives the output, or `none` for an error.
pub record Tool : Type 0 where
  pub name : String
  pub parameters : Fields
  pub execute : String → Option String

unfoldable pub normalize_tool_name : String → String
normalize_tool_name name = trim_space name

pub record Registry : Type 0 where
  pub tools : Dict Tool

unfoldable pub new_registry : Registry
new_registry = record { tools = [] }

-- `none` is the panic on an empty name.
unfoldable pub register : Registry → Tool → Option Registry
unfolding normalize_tool_name insert
register r t =
    let name = normalize_tool_name t.name in
    if name == "" then none else some (record { tools = insert name t r.tools })

unfoldable pub get_tool : Registry → String → Option Tool
unfolding normalize_tool_name lookup
get_tool r name = lookup (normalize_tool_name name) r.tools

-- After a tool is registered, its name, with any white space round it, finds that tool, and every
-- other name finds what it found before.
pub get_tool-register :
    (r s : Registry) (t : Tool) (name : String)
    → register r t ≡ some s
    → get_tool s name
      ≡ (if normalize_tool_name t.name == normalize_tool_name name then some t else get_tool r name)
unfolding register get_tool
get_tool-register r s t name h =
    ground (arith, lookup-insert (normalize_tool_name t.name) (normalize_tool_name name) t r.tools)
