-- ===== src/Formats/Anthropic/Body.antt =====
-- `chat_to_anthropic_body` of proxy_opencode/formats/anthropic_proto.py: a chat completion becomes a
-- message. `loads` is json.loads, `none` where it raises ValueError; `no_input` is the empty object;
-- the random ids are arguments: one for the message, and one for each place of a tool call.
pub mod Agree
use proxy_opencode.Prelude.{
  ℕ, suc, ◌+◌, String, Option, none, some, List, [], ◌∷◌, ◌++◌, if◌then◌else◌,
}
use proxy_opencode.Zen.Aggregate.{Slot, Completion, is_empty}
use proxy_opencode.Formats.Anthropic.Stream.{ChatUsage, Usage, chat_usage, stop_reason}

-- A block of the message's content.
pub data Content (J : Type 0) : Type 0 where
  thinking_part : String → Content J
  text_part : String → Content J
  tool_part : String → String → J → Content J

pub record Message (J : Type 0) : Type 0 where
  pub id : String
  pub model : String
  pub content : List (Content J)
  pub stop_reason : String
  pub usage : Usage

module _ {J : Type 0} (loads : String → Option J) (no_input : J) where
  abbrev parsed : Option J → J
  parsed none = no_input
  parsed (some input) = input

  unfoldable pub tool_input : String → J
  tool_input arguments = parsed (loads (if is_empty arguments then "{}" else arguments))

  -- The loop over the tool calls, from a place on.
  unfoldable pub tool_parts : (ℕ → String) → ℕ → List Slot → List (Content J)
  unfolding tool_input
  tool_parts new_id n [] = []
  tool_parts new_id n (s ∷ ss) =
      tool_part (if is_empty s.id then new_id n else s.id) s.name (tool_input s.arguments)
      ∷ tool_parts new_id (suc n) ss

  abbrev thinking_parts : Option String → List (Content J)
  thinking_parts none = []
  thinking_parts (some t) = if is_empty t then [] else thinking_part t ∷ []

  abbrev text_parts : String → List (Content J)
  text_parts t = if is_empty t then [] else text_part t ∷ []

  abbrev or_blank : List (Content J) → List (Content J)
  or_blank [] = text_part "" ∷ []
  or_blank (p ∷ ps) = p ∷ ps

  -- `chat_to_anthropic_body`
  unfoldable pub chat_to_anthropic_body :
      String → (ℕ → String) → Completion ChatUsage → String → Message J
  unfolding tool_parts
  chat_to_anthropic_body message_id new_id r model = record {
    id = message_id;
    model = model;
    content = or_blank (
        thinking_parts r.reasoning_content
        ++ (text_parts r.content ++ tool_parts new_id 0 r.tool_calls));
    stop_reason = stop_reason (if is_empty r.finish_reason then "stop" else r.finish_reason);
    usage = chat_usage r.usage;
  }
