-- ===== src/Zen/Tools.antt =====
-- The tools of a request of proxy_opencode/upstreams/zen/tools.py: the builtin schemas that are put
-- before the client's, and the client's tools that get another name because a builtin has theirs.
pub mod Mapping
pub mod Restore
use Prim.Native.String.{◌++◌ as ◌++ₛ◌}
use proxy_opencode.Prelude.{
  ℕ, zero, suc, ◌-◌, String, Bool, true, false, not, ◌&&◌, ◌||◌, Option, none, some, List, [], ◌∷◌,
  ◌++◌, length, take, keep, any, ltb, str_eq, is_some, if◌then◌else◌,
}
use proxy_opencode.Prelude.Dict.{Dict, get, put}
use proxy_opencode.Egress.Pool.Select.{among}

-- A tool, an object: its `name` under `function`, its own `name` where `function` is no object or
-- is missing, its own `name` beside an object `function` that has none, or no name at all. `schema` is
-- the rest of it.
pub data ToolName : Type 0 where
  function_name : String → ToolName
  bare_name : String → ToolName
  outer_name : String → ToolName
  nameless : ToolName

pub record Tool : Type 0 where
  pub name : ToolName
  pub schema : String

unfoldable pub minimal_tool_names : List String
minimal_tool_names = "bash" ∷ "edit" ∷ "glob" ∷ "read" ∷ []

unfoldable pub min_injected_tools : ℕ
min_injected_tools = 4

unfoldable pub inject_name_pool : List String
inject_name_pool =
    "bash" ∷ "edit" ∷ "glob" ∷ "read" ∷ "todowrite" ∷ "skill" ∷ "task" ∷ "list" ∷ "webfetch"
    ∷ "websearch" ∷ "grep" ∷ "write" ∷ []

-- The name that `tool_names` finds in one tool.
abbrev pub named : ToolName → Option String
named (function_name name) = some name
named (bare_name name) = some name
named (outer_name name) = some name
named nameless = none

-- `tool_names`; a list stands for the set.
unfoldable pub tool_names : List Tool → List String
tool_names [] = []
tool_names (t ∷ ts) =
    let rest = tool_names ts in elim (named t.name) [ none ↦ rest | some name ↦ name ∷ rest ]

unfoldable pub minimal_schema : String → Tool
minimal_schema name = record { name = function_name name; schema = "" }

-- `tool_names([t]) & names`, as a test.
unfoldable pub has_name_in : List String → Tool → Bool
unfolding among
has_name_in names t = elim (named t.name) [ none ↦ false | some name ↦ among names name ]

-- The names of the pool that the client does not use.
unfoldable pub unused : List String → List String → List String
unfolding keep among
unused client_names pool = keep (λ name. not (among client_names name)) pool

abbrev schemas : List String → List Tool
schemas [] = []
schemas (name ∷ names) = minimal_schema name ∷ schemas names

-- The mode `minimal`.
unfoldable pub inject_minimal : List Tool → List String → List Tool
unfolding unused inject_name_pool min_injected_tools keep has_name_in minimal_tool_names
inject_minimal builtins client_names =
    let injected = schemas (take min_injected_tools (unused client_names inject_name_pool)) in
    if ltb (length injected) min_injected_tools
    then keep (has_name_in minimal_tool_names) builtins
    else injected

-- `merge_tools`
unfoldable pub merge_tools : List Tool → String → List Tool → List Tool
unfolding tool_names keep has_name_in minimal_tool_names inject_minimal
merge_tools client_tools mode builtins =
    let client_names = tool_names client_tools in
    let injected =
      (if str_eq mode "full" || str_eq mode "all"
        then builtins
        else if str_eq mode "captured2"
        then keep (λ t. has_name_in minimal_tool_names t && not (has_name_in client_names t))
            builtins
        else inject_minimal builtins client_names) in
    injected ++ client_tools

-- A tool call of a message: the name of its function, or something else.
pub data Call : Type 0 where
  call : String → Call
  other_call : Call

-- A message, by its tool calls, where it has a list of them.
pub record Message : Type 0 where
  pub calls : Option (List Call)
  pub rest : String

unfoldable pub client_name : String → String
client_name name = "client_" ++ₛ name

-- The new name goes under `function`, where that is an object.
abbrev renamed : ToolName → String → ToolName
renamed (function_name old) name = function_name name
renamed (bare_name old) name = bare_name name
renamed (outer_name old) name = function_name name
renamed nameless name = nameless

-- The name of a tool, where a builtin has it.
unfoldable pub collision : List String → ToolName → Option String
unfolding among
collision reserved tool_name = elim (named tool_name) [
  | none ↦ none
  | some name ↦ if not (str_eq name "") && among reserved name then some name else none
]

abbrev pub with_first : Tool → List Tool × Dict String → List Tool × Dict String
with_first t (out, mapping) = (t ∷ out, mapping)

abbrev pub with_client_name : Tool → String → Tool
with_client_name t name = record t { name = renamed t.name (client_name name) }

-- The loop over the client's tools, with the mapping of the names.
unfoldable pub rename_tools : List String → List Tool → Dict String → List Tool × Dict String
unfolding collision put client_name
rename_tools reserved [] mapping = ([], mapping)
rename_tools reserved (t ∷ ts) mapping = elim (collision reserved t.name) [
  | none ↦ with_first t (rename_tools reserved ts mapping)
  | some name ↦
      with_first (with_client_name t name)
        (rename_tools reserved ts (put name (client_name name) mapping))
]

-- `mapping[name]`, for a name that has one.
unfoldable pub mapped : Dict String → String → String
unfolding get
mapped mapping name = elim (get name mapping) [ none ↦ name | some other ↦ other ]

unfoldable pub rename_call : Dict String → Call → Call
unfolding mapped
rename_call mapping (call name) = call (mapped mapping name)
rename_call mapping other_call = other_call

unfoldable pub rename_calls : Dict String → List Call → List Call
unfolding rename_call
rename_calls mapping [] = []
rename_calls mapping (c ∷ cs) = rename_call mapping c ∷ rename_calls mapping cs

unfoldable pub rename_messages : Dict String → List Message → List Message
unfolding rename_calls
rename_messages mapping [] = []
rename_messages mapping (m ∷ ms) =
    record m { calls = elim m.calls [ none ↦ none | some cs ↦ some (rename_calls mapping cs) ] }
    ∷ rename_messages mapping ms

-- `{v: k for k, v in mapping.items()}`
unfoldable pub reversed : Dict String → Dict String → Dict String
unfolding put
reversed [] d = d
reversed ((name, other) ∷ m) d = reversed m (put other name d)

-- `rename_collisions`, with what it stores for `restore_map`. With no collision the messages are
-- left as they are, and the map of an earlier request stays.
unfoldable pub rename_collisions :
    List Tool → List Message → List Tool → Dict String → (List Tool × List Message) × Dict String
unfolding rename_tools tool_names rename_messages reversed
rename_collisions client_tools messages builtins restore =
    let (out, mapping) = rename_tools (tool_names builtins) client_tools [] in
    elim mapping [
      | [] ↦ ((out, messages), restore)
      | m ∷ ms ↦ ((out, rename_messages (m ∷ ms) messages), reversed (m ∷ ms) [])
    ]
