-- ===== src/Formats/Anthropic/Stream.antt =====
-- `stream_anthropic_events` of proxy_opencode/formats/anthropic_proto.py: chunks of a chat completion
-- become the events of a message. The events that are sent are a part of the state. The random ids
-- are arguments: one for the message, and for each index of a tool call one that is used where the
-- upstream sends none.
pub mod Reading
pub mod Accepted
pub mod Spoken
pub mod Calls
pub mod Ends
pub mod Ending
pub mod Arguments
pub mod Growth
pub mod Pieces
pub mod Same
use Prim.Native.String.{◌++◌ as ◌++ₛ◌}
use proxy_opencode.Prelude.{
  ℕ, suc, ◌+◌, ◌-◌, String, Bool, true, false, not, ◌&&◌, ◌||◌, Option, none, some, List, [], ◌∷◌,
  ◌++◌, leb, ◌==◌, str_eq, if◌then◌else◌,
}
use proxy_opencode.Zen.Aggregate.{CallDelta, Choice, Chunk, is_empty, is_nil, latest}

-- A usage block of the upstream, a missing counter being 0.
pub record ChatUsage : Type 0 where
  pub prompt_tokens : ℕ
  pub completion_tokens : ℕ
  pub cached_tokens : ℕ

-- The counters that the client gets; the last is left out where it is 0.
pub record Usage : Type 0 where
  pub input_tokens : ℕ
  pub output_tokens : ℕ
  pub cache_read_input_tokens : Option ℕ

-- `_chat_usage`
unfoldable pub chat_usage : Option ChatUsage → Usage
chat_usage none = record { input_tokens = 0; output_tokens = 0; cache_read_input_tokens = none }
chat_usage (some u) = record {
  input_tokens = u.prompt_tokens;
  output_tokens = u.completion_tokens;
  cache_read_input_tokens = if u.cached_tokens == 0 then none else some u.cached_tokens;
}

-- `MAX_TOKENS_STOP` and `STOP_REASON_MAP`
unfoldable pub stop_reason : String → String
stop_reason finish =
    if str_eq finish "length" || str_eq finish "max_tokens"
    then "max_tokens"
    else if str_eq finish "tool_calls" || str_eq finish "tool_use"
    then "tool_use"
    else if str_eq finish "content_filter"
    then "refusal"
    else "end_turn"

pub data Kind : Type 0 where
  thinking text tool : Kind

-- The block of a `content_block_start`, and the events; those of a delta have its text.
pub data Block : Type 0 where
  empty_thinking empty_text : Block
  tool_use : String → String → Block

pub data Event : Type 0 where
  message_start : String → String → Event
  content_block_start : ℕ → Block → Event
  content_block_delta : ℕ → Kind → String → Event
  content_block_stop : ℕ → Event
  message_delta : String → Usage → Event
  message_stop : Event

-- An entry of `tool_blocks`; it has no place until it is started.
pub record ToolBlock : Type 0 where
  pub index : ℕ
  pub id : String
  pub name : String
  pub block_index : Option ℕ

-- `_AnthropicStreamState`, and what was sent. `blocks` is one more than `block_index`.
pub record StreamState : Type 0 where
  pub blocks : ℕ
  pub open_type : Option Kind
  pub text_buf : String
  pub think_buf : String
  pub tool_blocks : List ToolBlock
  pub usage : Option ChatUsage
  pub finish_reason : Option String
  pub sent : List Event

unfoldable pub send : Event → StreamState → StreamState
send e st = record st { sent = st.sent ++ (e ∷ []) }

-- `close_open_block`
unfoldable pub close_open_block : StreamState → StreamState
unfolding send
close_open_block st = elim st.open_type [
  | none ↦ st
  | some k ↦ record (send (content_block_stop (st.blocks - 1)) st) { open_type = none }
]

-- Closing the open block and starting the next one.
unfoldable pub open_block : Kind → Block → StreamState → StreamState
unfolding send close_open_block
open_block k b st =
    let st' = close_open_block st in
    record (send (content_block_start st'.blocks b) st') {
      blocks = suc st'.blocks;
      open_type = some k;
    }

unfoldable pub is_open : Kind → Option Kind → Bool
is_open thinking (some thinking) = true
is_open text (some text) = true
is_open tool (some tool) = true
is_open k o = false

-- The part of the loop for a piece of reasoning, and the one for a piece of text.
unfoldable pub on_reasoning : String → StreamState → StreamState
unfolding send open_block is_open
on_reasoning piece st =
    if is_empty piece
    then st
    else let st' =
        if is_open thinking st.open_type then st else open_block thinking empty_thinking st in
      send (content_block_delta (st'.blocks - 1) thinking piece)
        (record st' { think_buf = st'.think_buf ++ₛ piece })

unfoldable pub on_text : String → StreamState → StreamState
unfolding send open_block is_open
on_text piece st =
    if is_empty piece
    then st
    else let st' = if is_open text st.open_type then st else open_block text empty_text st in
      send (content_block_delta (st'.blocks - 1) text piece)
        (record st' { text_buf = st'.text_buf ++ₛ piece })

-- The entry of an index in `tool_blocks`, which is added where it is missing.
unfoldable pub slot_at : ℕ → List ToolBlock → Option ToolBlock
slot_at i [] = none
slot_at i (s ∷ ss) = if s.index == i then some s else slot_at i ss

unfoldable pub put_slot : ToolBlock → List ToolBlock → List ToolBlock
put_slot s [] = s ∷ []
put_slot s (t ∷ ts) = if t.index == s.index then s ∷ ts else t ∷ put_slot s ts

unfoldable pub new_slot : (ℕ → String) → CallDelta → ToolBlock
new_slot new_id d = record {
  index = d.index;
  id = if is_empty d.id then new_id d.index else d.id;
  name = "";
  block_index = none;
}

unfoldable pub slot_for : (ℕ → String) → CallDelta → List ToolBlock → ToolBlock
unfolding slot_at new_slot
slot_for new_id d ss = elim (slot_at d.index ss) [ none ↦ new_slot new_id d | some s ↦ s ]

-- The name grows until the block is started.
unfoldable pub with_name : String → ToolBlock → ToolBlock
with_name name s = elim s.block_index [ none ↦ record s { name = s.name ++ₛ name } | some i ↦ s ]

-- The block is started at its first piece of arguments; a piece goes to the call's own block.
unfoldable pub on_arguments : String → ToolBlock → StreamState → StreamState
unfolding send open_block put_slot
on_arguments piece s st = elim s.block_index [
  | none ↦
      if is_empty piece
      then st
      else let st' = open_block tool (tool_use s.id s.name) st in
        let i = st'.blocks - 1 in
        send (content_block_delta i tool piece) (record st' {
          tool_blocks = put_slot (record s { block_index = some i }) st'.tool_blocks;
        })
  | some i ↦ if is_empty piece then st else send (content_block_delta i tool piece) st
]

-- One round of the loop over the deltas of tool calls.
unfoldable pub on_call : (ℕ → String) → CallDelta → StreamState → StreamState
unfolding slot_for with_name on_arguments put_slot
on_call new_id d st =
    let s = with_name d.name (slot_for new_id d st.tool_blocks) in
    on_arguments d.arguments s (record st { tool_blocks = put_slot s st.tool_blocks })

unfoldable pub on_calls : (ℕ → String) → List CallDelta → StreamState → StreamState
unfolding on_call
on_calls new_id [] st = st
on_calls new_id (d ∷ ds) st = on_calls new_id ds (on_call new_id d st)

unfoldable pub on_choice : (ℕ → String) → Choice → StreamState → StreamState
unfolding on_reasoning on_text on_calls
on_choice new_id c st =
    let st' = record st { finish_reason = latest c.finish_reason st.finish_reason } in
    on_calls new_id c.tool_calls (on_text c.content (on_reasoning c.reasoning_content st'))

unfoldable pub on_choices : (ℕ → String) → List Choice → StreamState → StreamState
unfolding on_choice
on_choices new_id [] st = st
on_choices new_id (c ∷ cs) st = on_choices new_id cs (on_choice new_id c st)

unfoldable pub on_chunks : (ℕ → String) → List (Chunk ChatUsage) → StreamState → StreamState
unfolding on_choices
on_chunks new_id [] st = st
on_chunks new_id (c ∷ cs) st =
    on_chunks new_id cs
      (on_choices new_id c.choices (record st { usage = latest c.usage st.usage }))

-- A call that never got arguments is sent as an empty block.
unfoldable pub flush_slot : ToolBlock → StreamState → StreamState
unfolding send
flush_slot s st = elim s.block_index [
  | none ↦
      record (send (content_block_stop st.blocks)
        (send (content_block_start st.blocks (tool_use s.id s.name)) st)) { blocks = suc st.blocks }
  | some i ↦ st
]

unfoldable pub flush_slots : List ToolBlock → StreamState → StreamState
unfolding flush_slot
flush_slots [] st = st
flush_slots (s ∷ ss) st = flush_slots ss (flush_slot s st)

unfoldable pub or_stop : Option String → String
or_stop none = "stop"
or_stop (some finish) = finish

-- What follows the loop over the chunks.
unfoldable pub end_stream : StreamState → StreamState
unfolding send close_open_block flush_slots chat_usage stop_reason or_stop
end_stream st =
    let st' = flush_slots st.tool_blocks (close_open_block st) in
    let reason =
      if is_nil st'.tool_blocks then stop_reason (or_stop st'.finish_reason) else "tool_use" in
    send message_stop (send (message_delta reason (chat_usage st'.usage)) st')

unfoldable pub start_stream : String → String → StreamState
start_stream message_id model = record {
  blocks = 0;
  open_type = none;
  text_buf = "";
  think_buf = "";
  tool_blocks = [];
  usage = none;
  finish_reason = none;
  sent = message_start message_id model ∷ [];
}

-- `stream_anthropic_events`
unfoldable pub stream_anthropic_events :
    String → (ℕ → String) → String → List (Chunk ChatUsage) → List Event
unfolding on_chunks end_stream start_stream
stream_anthropic_events message_id new_id model chunks =
    (end_stream (on_chunks new_id chunks (start_stream message_id model))).sent
