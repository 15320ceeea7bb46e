-- ===== src/Formats/Responses/Request.antt =====
-- `_content_text`, `_input_items_to_messages` and `to_chat_payload` of
-- proxy_opencode/formats/responses_proto.py. A text that is missing or false is the empty one.
-- `dumps` is json.dumps, `is_blank` whether `str.strip` of a text is empty, and the schema of a tool
-- without one is an argument.
pub mod Answers
use Prim.Native.String.{◌++◌ as ◌++ₛ◌}
use proxy_opencode.Prelude.{
  ℕ, suc, String, Bool, true, Option, none, some, List, [], ◌∷◌, ◌++◌, ◌&&◌, not, ◌||◌, str_eq,
  if◌then◌else◌,
}
use proxy_opencode.Zen.Aggregate.{Slot, Completion, is_empty, is_nil}
use proxy_opencode.Formats.Messages.{ChatMessage, plain, tool_answer, join_lines}
use proxy_opencode.Formats.Responses.Data.{
  ChatUsage, usage_block, Item, message_item, function_call,
}

-- A part of a content: text, an image, or another one.
pub data ContentPart : Type 0 where
  text_part : String → ContentPart
  image_part other_part : ContentPart

pub data ItemContent : Type 0 where
  content_string : String → ItemContent
  content_parts : List ContentPart → ItemContent
  no_content : ItemContent

-- The output of a call: a text, or another value, none if it is false.
pub data Output (J : Type 0) : Type 0 where
  output_text : String → Output J
  output_value : Option J → Output J

-- An item of the input. A message has its role, `tool_call_id`, `call_id` and content; a call its
-- `call_id`, `id`, name and arguments.
pub data InputItem (J : Type 0) : Type 0 where
  message_input : String → String → String → ItemContent → InputItem J
  call_input : String → String → String → String → InputItem J
  output_input : String → Output J → InputItem J
  other_input : InputItem J

pub data Input (J : Type 0) : Type 0 where
  input_string : String → Input J
  input_items : List (InputItem J) → Input J
  no_input : Input J

pub record ToolInput (J : Type 0) : Type 0 where
  pub is_function : Bool
  pub name : String
  pub description : String
  pub schema : Option J

-- `instructions` is the empty text where it is no text.
pub record ResponsesRequest (J : Type 0) : Type 0 where
  pub model : String
  pub instructions : String
  pub input : Input J
  pub tools : List (ToolInput J)
  pub stream : Bool
  pub temperature : Option J
  pub top_p : Option J
  pub max_output_tokens : Option J

pub record ToolOutput (J : Type 0) : Type 0 where
  pub name : String
  pub description : String
  pub parameters : J

-- `tool_choice` is "auto" where there are tools, and missing otherwise, like `tools`.
pub record ChatPayload (J : Type 0) : Type 0 where
  pub model : String
  pub messages : List ChatMessage
  pub stream : Bool
  pub tools : List (ToolOutput J)
  pub temperature : Option J
  pub top_p : Option J
  pub max_tokens : Option J

unfoldable pub part_texts : List ContentPart → List String
part_texts [] = []
part_texts (text_part t ∷ ps) = t ∷ part_texts ps
part_texts (image_part ∷ ps) = "[image omitted]" ∷ part_texts ps
part_texts (other_part ∷ ps) = part_texts ps

-- `_content_text`
unfoldable pub content_text : ItemContent → String
unfolding part_texts join_lines
content_text (content_string t) = t
content_text (content_parts ps) = join_lines (part_texts ps)
content_text no_content = ""

abbrev pub or_string : String → String → String
or_string a b = if is_empty a then b else a

-- A message of the role `tool`; without an id it becomes one of the user.
unfoldable pub tool_turn : String → String → ChatMessage
tool_turn id text =
    if is_empty id
    then plain "user" (if is_empty text then "[tool result]" else "[tool result] " ++ₛ text)
    else tool_answer id text

unfoldable pub message_turn : String → String → String → String → List ChatMessage
unfolding tool_turn
message_turn role tool_call_id call_id text =
    if str_eq role "assistant" && is_empty text
    then []
    else if str_eq role "tool"
    then tool_turn (or_string tool_call_id call_id) text ∷ []
    else plain role text ∷ []

abbrev or_continue : List ChatMessage → List ChatMessage
or_continue [] = plain "user" "[no convertible input; continue]" ∷ []
or_continue (m ∷ ms) = m ∷ ms

module _ {J : Type 0} (dumps : J → String) (is_blank : String → Bool) (default_schema : J) where
  unfoldable pub shown_output : Output J → String
  shown_output (output_text t) = t
  shown_output (output_value none) = ""
  shown_output (output_value (some v)) = dumps v

  -- One round of the loop of `_input_items_to_messages`.
  unfoldable pub item_messages : InputItem J → List ChatMessage
  unfolding content_text message_turn shown_output
  item_messages (message_input role tool_call_id call_id content) =
      message_turn (or_string role "user") tool_call_id call_id (content_text content)
  item_messages (call_input call_id id name arguments) =
      record {
        role = "assistant";
        content = none;
        tool_calls =
            record { id = or_string call_id id; name = name; arguments = or_string arguments "{}" }
            ∷ [];
        tool_call_id = none;
      }
      ∷ []
  item_messages (output_input call_id output) = tool_answer call_id (shown_output output) ∷ []
  item_messages other_input = []

  -- `_input_items_to_messages`
  unfoldable pub input_items_to_messages : List (InputItem J) → List ChatMessage
  unfolding item_messages
  input_items_to_messages [] = []
  input_items_to_messages (i ∷ is) = item_messages i ++ input_items_to_messages is

  unfoldable pub input_messages : Input J → List ChatMessage
  unfolding input_items_to_messages
  input_messages (input_string t) = plain "user" t ∷ []
  input_messages (input_items is) = input_items_to_messages is
  input_messages no_input = []

  unfoldable pub function_tools : List (ToolInput J) → List (ToolOutput J)
  function_tools [] = []
  function_tools (t ∷ ts) =
      let rest = function_tools ts in
      if t.is_function
      then record {
        name = t.name;
        description = t.description;
        parameters = elim t.schema [ none ↦ default_schema | some s ↦ s ];
      }
        ∷ rest
      else rest

  -- `to_chat_payload`
  unfoldable pub responses_to_chat : ResponsesRequest J → ChatPayload J
  unfolding input_messages function_tools
  responses_to_chat r =
      let system = if is_blank r.instructions then [] else plain "system" r.instructions ∷ [] in
      record {
        model = r.model;
        messages = or_continue (system ++ input_messages r.input);
        stream = r.stream;
        tools = function_tools r.tools;
        temperature = r.temperature;
        top_p = r.top_p;
        max_tokens = r.max_output_tokens;
      }
