-- ===== src/Formats/Responses/Stream.antt =====
-- `stream_responses_events` of proxy_opencode/formats/responses_proto.py: chunks of a chat completion
-- become the events of a response. The events that are sent are a part of the state, each with its
-- sequence number. The random ids and the time are arguments: the ids of the response and of its
-- message, and one for each index of a tool call.
pub mod Numbers
pub mod Reading
pub mod Slots
pub mod Invariant
pub mod Calls
pub mod Closing
pub mod Finished
pub mod Effects
pub mod Held
pub mod Whole
use Prim.Native.String.{◌++◌ as ◌++ₛ◌}
use proxy_opencode.Prelude.{
  ℕ, suc, ◌+◌, String, Bool, true, false, not, ◌&&◌, ◌||◌, Option, none, some, List, [], ◌∷◌, ◌++◌,
  map, is_some, leb, ◌==◌, if◌then◌else◌,
}
use proxy_opencode.Prelude.Dict.{Dict, get}
unfoldable pub use proxy_opencode.Formats.Responses.Data.{
  usage_block, send, slot_at, put_slot, insert_call, sorted_calls, insert_item, sorted_items,
}
pub use proxy_opencode.Formats.Responses.Data.{
  ChatUsage, Item, Envelope, Event, CallSlot, StreamState, or_first, Setup, message_item,
  function_call, response_created, response_in_progress, response_completed, output_item_added,
  output_item_done, content_part_added, output_text_delta, output_text_done, content_part_done,
  arguments_delta, arguments_done,
}
use proxy_opencode.Zen.Aggregate.{CallDelta, Choice, Chunk, is_empty, is_nil, latest, or_text}

module _ (cfg : Setup) where
  -- `_name`
  unfoldable pub restored_name : String → String
  unfolding get
  restored_name raw = elim (get raw cfg.restore) [ none ↦ raw | some name ↦ name ]

  unfoldable pub envelope : Bool → List Item → Option ChatUsage → Envelope
  envelope completed output usage = record {
    id = cfg.response_id;
    created_at = cfg.created_at;
    model = cfg.model;
    completed = completed;
    output = output;
    usage = usage;
  }

  -- The part of the loop for a piece of text.
  unfoldable pub open_message : StreamState → StreamState
  unfolding send
  open_message st = elim st.msg_index [
    | some i ↦ st
    | none ↦ send (content_part_added cfg.msg_id st.next_item_index) (
        send (output_item_added st.next_item_index (message_item cfg.msg_id none)) (record st {
          msg_index = some st.next_item_index;
          next_item_index = suc st.next_item_index;
        }))
  ]

  unfoldable pub on_text : String → StreamState → StreamState
  unfolding open_message send
  on_text piece st =
      if is_empty piece
      then st
      else let st' = open_message st in
        send (output_text_delta cfg.msg_id (or_first st'.msg_index) piece)
          (record st' { text_buf = st'.text_buf ++ₛ piece })

  -- `setdefault`
  unfoldable pub slot_for : ℕ → List CallSlot → CallSlot
  unfolding slot_at
  slot_for i ss = elim (slot_at i ss) [
    | some s ↦ s
    | none ↦ record {
      index = i;
      id = "";
      name = "";
      arguments = "";
      item_id = cfg.item_id i;
      item_index = 0;
      announced = false;
    }
  ]

  unfoldable pub merged : CallDelta → CallSlot → CallSlot
  merged d s = record s {
    id = or_text d.id s.id;
    name = s.name ++ₛ d.name;
    arguments = s.arguments ++ₛ d.arguments;
  }

  -- A call is announced once it has an id or a name.
  unfoldable pub announce : CallSlot → StreamState → StreamState
  unfolding send put_slot restored_name
  announce s st =
      if not s.announced && (not (is_empty s.id) || not (is_empty s.name))
      then send
          (output_item_added st.next_item_index
            (function_call s.item_id s.id (restored_name s.name) "" false))
          (record st {
            next_item_index = suc st.next_item_index;
            tool_calls =
                put_slot (record s { item_index = st.next_item_index; announced = true })
                  st.tool_calls;
          })
      else record st { tool_calls = put_slot s st.tool_calls }

  unfoldable pub send_arguments : String → CallSlot → StreamState → StreamState
  unfolding send
  send_arguments piece s st =
      if not (is_empty piece) && s.announced
      then send (arguments_delta s.item_id s.item_index piece) st
      else st

  -- One round of the loop over the deltas of tool calls.
  unfoldable pub on_call : CallDelta → StreamState → StreamState
  unfolding slot_for merged announce send_arguments
  on_call d st =
      let st' = announce (merged d (slot_for d.index st.tool_calls)) st in
      send_arguments d.arguments (slot_for d.index st'.tool_calls) st'

  unfoldable pub on_calls : List CallDelta → StreamState → StreamState
  unfolding on_call
  on_calls [] st = st
  on_calls (d ∷ ds) st = on_calls ds (on_call d st)

  unfoldable pub on_choice : Choice → StreamState → StreamState
  unfolding on_text on_calls
  on_choice c st =
      on_calls c.tool_calls
        (on_text c.content (record st { finish_reason = latest c.finish_reason st.finish_reason }))

  unfoldable pub on_choices : List Choice → StreamState → StreamState
  unfolding on_choice
  on_choices [] st = st
  on_choices (c ∷ cs) st = on_choices cs (on_choice c st)

  unfoldable pub on_chunks : List (Chunk ChatUsage) → StreamState → StreamState
  unfolding on_choices
  on_chunks [] st = st
  on_chunks (c ∷ cs) st =
      on_chunks cs (on_choices c.choices (record st { usage = latest c.usage st.usage }))

  -- The text item is closed.
  unfoldable pub close_message : StreamState → StreamState
  unfolding send
  close_message st = elim st.msg_index [
    | none ↦ st
    | some i ↦ send (output_item_done i (message_item cfg.msg_id (some st.text_buf))) (
        send (content_part_done cfg.msg_id i st.text_buf)
          (send (output_text_done cfg.msg_id i st.text_buf) st))
  ]

  -- The items of the calls are closed.
  unfoldable pub close_calls : List CallSlot → StreamState → StreamState
  unfolding send restored_name
  close_calls [] st = st
  close_calls (s ∷ ss) st = close_calls ss (
      send
        (output_item_done s.item_index
          (function_call s.item_id s.id (restored_name s.name) s.arguments true))
        (send (arguments_done s.item_id s.item_index s.arguments) st))

  abbrev call_item : CallSlot → ℕ × Item
  call_item s = (s.item_index, function_call s.item_id s.id s.name s.arguments true)

  -- `final_output`
  unfoldable pub final_output : StreamState → List Item
  unfolding sorted_calls sorted_items
  final_output st =
      let calls = map call_item (sorted_calls st.tool_calls) in
      let message : ℕ × Item =
        (or_first st.msg_index, message_item cfg.msg_id (some st.text_buf)) in
      let items =
        if not (is_empty st.text_buf) || is_nil st.tool_calls then message ∷ calls else calls in
      map (λ x. x.1) (sorted_items items)

  unfoldable pub end_stream : StreamState → StreamState
  unfolding send close_message close_calls final_output envelope usage_block sorted_calls
  end_stream st =
      let st' = close_calls (sorted_calls st.tool_calls) (close_message st) in
      send (response_completed (envelope true (final_output st') (usage_block st'.usage))) st'

  unfoldable pub start_stream : StreamState
  unfolding send envelope
  start_stream = send (response_in_progress (envelope false [] none)) (
      send (response_created (envelope false [] none)) (record {
        seq = 0;
        msg_index = none;
        text_buf = "";
        tool_calls = [];
        next_item_index = 0;
        usage = none;
        finish_reason = none;
        sent = [];
      }))

  -- `stream_responses_events`
  unfoldable pub stream_responses_events : List (Chunk ChatUsage) → List (ℕ × Event)
  unfolding on_chunks end_stream start_stream
  stream_responses_events chunks = (end_stream (on_chunks chunks start_stream)).sent
