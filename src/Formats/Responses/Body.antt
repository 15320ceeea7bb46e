-- ===== src/Formats/Responses/Body.antt =====
-- `chat_to_responses_body` of proxy_opencode/formats/responses_proto.py: a chat completion becomes
-- the output of a response. The random ids are arguments: those of the reasoning and of the message,
-- and one for each place of a tool call; so is the time of a completion without its own.
use proxy_opencode.Prelude.{
  ℕ, suc, String, true, Option, none, some, List, [], ◌∷◌, ◌++◌, ◌==◌, if◌then◌else◌,
}
use proxy_opencode.Zen.Aggregate.{Slot, Completion, is_empty}
use proxy_opencode.Formats.Responses.Data.{
  ChatUsage, usage_block, Item, message_item, function_call,
}

pub data OutputItem : Type 0 where
  reasoning_item : String → OutputItem
  item : Item → OutputItem

pub record ResponseBody : Type 0 where
  pub id : String
  pub created_at : ℕ
  pub model : String
  pub output : List OutputItem
  pub usage : Option ChatUsage

-- The loop over the tool calls, from a place on.
unfoldable pub call_outputs : (ℕ → String) → ℕ → List Slot → List OutputItem
call_outputs new_id n [] = []
call_outputs new_id n (s ∷ ss) =
    item (
      function_call (new_id n) s.id s.name (if is_empty s.arguments then "{}" else s.arguments)
        true)
    ∷ call_outputs new_id (suc n) ss

abbrev reasoning_output : String → Option String → List OutputItem
reasoning_output id none = []
reasoning_output id (some t) = if is_empty t then [] else reasoning_item id ∷ []

-- The message, where it has a text or is the only item.
abbrev text_output : String → String → List OutputItem → List OutputItem
text_output id t [] = item (message_item id (some t)) ∷ []
text_output id t (o ∷ os) =
    if is_empty t then o ∷ os else (o ∷ os) ++ (item (message_item id (some t)) ∷ [])

unfoldable pub chat_to_responses_body :
    String → String → String → (ℕ → String) → ℕ → Completion ChatUsage → String → ResponseBody
unfolding call_outputs usage_block
chat_to_responses_body response_id reasoning_id message_id new_id now r model = record {
  id = response_id;
  created_at = if r.created == 0 then now else r.created;
  model = model;
  output =
      text_output message_id r.content
        (reasoning_output reasoning_id r.reasoning_content ++ call_outputs new_id 0 r.tool_calls);
  usage = usage_block r.usage;
}
