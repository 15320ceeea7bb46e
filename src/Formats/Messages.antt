-- ===== src/Formats/Messages.antt =====
-- The messages of a chat completion, as both translations of proxy_opencode/formats build them.
use Prim.Native.String.{◌++◌ as ◌++ₛ◌}
use proxy_opencode.Prelude.{String, Option, none, some, List, [], ◌∷◌}

pub record ToolCall : Type 0 where
  pub id : String
  pub name : String
  pub arguments : String

-- A content of none is null; only the answer of a tool has a `tool_call_id`.
pub record ChatMessage : Type 0 where
  pub role : String
  pub content : Option String
  pub tool_calls : List ToolCall
  pub tool_call_id : Option String

abbrev pub plain : String → String → ChatMessage
plain role text = record { role = role; content = some text; tool_calls = []; tool_call_id = none }

abbrev pub tool_answer : String → String → ChatMessage
tool_answer id text = record {
  role = "tool";
  content = some text;
  tool_calls = [];
  tool_call_id = some id;
}

-- "\n".join(parts)
unfoldable pub join_lines : List String → String
join_lines [] = ""
join_lines (t ∷ []) = t
join_lines (t ∷ u ∷ ts) = t ++ₛ ("\n" ++ₛ join_lines (u ∷ ts))
