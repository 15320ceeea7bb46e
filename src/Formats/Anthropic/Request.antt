-- ===== src/Formats/Anthropic/Request.antt =====
-- `_flatten_system`, `_blocks_to_messages` and `to_chat_payload` of
-- proxy_opencode/formats/anthropic_proto.py. A text that is missing or false is the empty one, other
-- false values are none; what the source does with JSON values is an argument.
pub mod Converted
use proxy_opencode.Prelude.{
  ℕ, String, Bool, Option, none, some, List, [], ◌∷◌, ◌++◌, ◌&&◌, ◌==◌, str_eq, if◌then◌else◌,
}
use proxy_opencode.Zen.Aggregate.{is_empty, is_nil}
use proxy_opencode.Formats.Messages.{ToolCall, ChatMessage, plain, tool_answer, join_lines}

-- The content of a tool's result: a list, with the texts of its text blocks; a text; another value.
pub data Result (J : Type 0) : Type 0 where
  listed : List String → Result J
  text_result : String → Result J
  other_result : Option J → Result J

pub data RequestBlock (J : Type 0) : Type 0 where
  text_block : String → RequestBlock J
  tool_use_block : String → String → Option J → RequestBlock J
  tool_result_block : String → Result J → RequestBlock J
  skipped_block : RequestBlock J

-- The content of a message; `skipped` is a message that is no object, or has no such content.
pub data Turn (J : Type 0) : Type 0 where
  text_turn : String → String → Turn J
  block_turn : String → List (RequestBlock J) → Turn J
  skipped : Turn J

pub data System : Type 0 where
  system_text : String → System
  system_blocks : List String → System
  no_system : System

pub record ToolSchema (J : Type 0) : Type 0 where
  pub name : String
  pub description : String
  pub schema : Option J

pub record MessagesRequest (J : Type 0) : Type 0 where
  pub model : String
  pub system : System
  pub messages : List (Turn J)
  pub tools : List (ToolSchema J)
  pub stream : Bool
  pub max_tokens : ℕ
  pub temperature : Option J
  pub top_p : Option J
  pub stop_sequences : Option J

pub record ChatTool (J : Type 0) : Type 0 where
  pub name : String
  pub description : String
  pub parameters : J

-- `tool_choice` is "auto" where there are tools, and missing otherwise, like `tools`.
pub record MessagesPayload (J : Type 0) : Type 0 where
  pub model : String
  pub messages : List ChatMessage
  pub stream : Bool
  pub max_tokens : ℕ
  pub tools : List (ChatTool J)
  pub temperature : Option J
  pub top_p : Option J
  pub stop : Option J

-- `json.dumps`, the empty object, the empty text, and the schema of a tool without one.
pub record JsonValues (J : Type 0) : Type 0 where
  pub dumps : J → String
  pub empty_object : J
  pub empty_text : J
  pub default_schema : J

-- `_flatten_system`
unfoldable pub flatten_system : System → String
unfolding join_lines
flatten_system (system_text t) = t
flatten_system (system_blocks ts) = join_lines ts
flatten_system no_system = ""

abbrev value_or : {J : Type 0} → J → Option J → J
value_or default none = default
value_or default (some value) = value

unfoldable pub texts : {J : Type 0} → List (RequestBlock J) → List String
texts [] = []
texts (text_block t ∷ bs) = t ∷ texts bs
texts (_ ∷ bs) = texts bs

abbrev or_null : String → Option String
or_null t = if is_empty t then none else some t

-- The message of a turn's texts and tool calls, if it has any.
unfoldable pub turn_message : String → List String → List ToolCall → List ChatMessage
unfolding join_lines
turn_message role ts calls =
    if str_eq role "assistant"
    then if is_nil ts && is_nil calls
      then []
      else record {
        role = role;
        content = or_null (join_lines ts);
        tool_calls = calls;
        tool_call_id = none;
      }
        ∷ []
    else if is_nil ts
    then []
    else plain role (join_lines ts) ∷ []

abbrev pub role_or_user : String → String
role_or_user role = if is_empty role then "user" else role

abbrev pub system_messages : String → List ChatMessage
system_messages t = if is_empty t then [] else plain "system" t ∷ []

abbrev pub if_any : {J : Type 0} → List ChatMessage → MessagesPayload J → Option (MessagesPayload J)
if_any [] p = none
if_any (m ∷ ms) p = some p

module _ {J : Type 0} (json : JsonValues J) where
  unfoldable pub uses : List (RequestBlock J) → List ToolCall
  uses [] = []
  uses (tool_use_block id name input ∷ bs) =
      record { id = id; name = name; arguments = json.dumps (value_or json.empty_object input) }
      ∷ uses bs
  uses (_ ∷ bs) = uses bs

  unfoldable pub result_text : Result J → String
  unfolding join_lines
  result_text (listed ts) = join_lines ts
  result_text (text_result t) = t
  result_text (other_result value) = json.dumps (value_or json.empty_text value)

  unfoldable pub results : List (RequestBlock J) → List ChatMessage
  unfolding result_text
  results [] = []
  results (tool_result_block id r ∷ bs) = tool_answer id (result_text r) ∷ results bs
  results (_ ∷ bs) = results bs

  -- `_blocks_to_messages`
  unfoldable pub blocks_to_messages : String → List (RequestBlock J) → List ChatMessage
  unfolding texts uses results turn_message
  blocks_to_messages role bs = turn_message role (texts bs) (uses bs) ++ results bs

  -- The loop over the messages.
  unfoldable pub turn_messages : List (Turn J) → List ChatMessage
  unfolding blocks_to_messages
  turn_messages [] = []
  turn_messages (text_turn role t ∷ turns) = plain (role_or_user role) t ∷ turn_messages turns
  turn_messages (block_turn role bs ∷ turns) =
      blocks_to_messages (role_or_user role) bs ++ turn_messages turns
  turn_messages (skipped ∷ turns) = turn_messages turns

  unfoldable pub chat_tools : List (ToolSchema J) → List (ChatTool J)
  chat_tools [] = []
  chat_tools (t ∷ ts) =
      let rest = chat_tools ts in
      if is_empty t.name
      then rest
      else record {
        name = t.name;
        description = t.description;
        parameters = value_or json.default_schema t.schema;
      }
        ∷ rest

  -- `to_chat_payload`, none where it raises InvalidRequest.
  unfoldable pub to_chat_payload : MessagesRequest J → Option (MessagesPayload J)
  unfolding flatten_system turn_messages chat_tools
  to_chat_payload r =
      let messages = system_messages (flatten_system r.system) ++ turn_messages r.messages in
      if_any messages (record {
        model = r.model;
        messages = messages;
        stream = r.stream;
        max_tokens = if r.max_tokens == 0 then 4096 else r.max_tokens;
        tools = chat_tools r.tools;
        temperature = r.temperature;
        top_p = r.top_p;
        stop = r.stop_sequences;
      })
