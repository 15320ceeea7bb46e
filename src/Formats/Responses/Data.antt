-- ===== src/Formats/Responses/Data.antt =====
-- The items, the events and the state of a stream of the Responses interface, of
-- proxy_opencode/formats/responses_proto.py.
use proxy_opencode.Prelude.{
  ℕ, suc, ◌+◌, String, Bool, Option, none, some, List, [], ◌∷◌, ◌++◌, leb, ◌==◌, if◌then◌else◌,
}
use proxy_opencode.Prelude.Dict.{Dict}

-- A usage block of the upstream, a missing counter being 0, and the one that the client gets.
pub record ChatUsage : Type 0 where
  pub prompt_tokens : ℕ
  pub completion_tokens : ℕ
  pub cached_tokens : ℕ
  pub reasoning_tokens : ℕ
  pub total_tokens : ℕ

-- `_usage_block`, `none` for the empty object.
unfoldable pub usage_block : Option ChatUsage → Option ChatUsage
usage_block none = none
usage_block (some u) = some (record u {
  total_tokens =
      if u.total_tokens == 0 then u.prompt_tokens + u.completion_tokens else u.total_tokens;
})

-- An output item: a message is still in progress without a text; of a tool call, the ids of the item
-- and of the call, the name, the arguments, and whether it is completed.
pub data Item : Type 0 where
  message_item : String → Option String → Item
  function_call : String → String → String → String → Bool → Item

pub record Envelope : Type 0 where
  pub id : String
  pub created_at : ℕ
  pub model : String
  pub completed : Bool
  pub output : List Item
  pub usage : Option ChatUsage

pub data Event : Type 0 where
  response_created response_in_progress response_completed : Envelope → Event
  output_item_added output_item_done : ℕ → Item → Event
  content_part_added : String → ℕ → Event
  output_text_delta output_text_done content_part_done : String → ℕ → String → Event
  arguments_delta arguments_done : String → ℕ → String → Event

-- An entry of `tool_calls`; `announced` is its membership in `tool_announced`.
pub record CallSlot : Type 0 where
  pub index : ℕ
  pub id : String
  pub name : String
  pub arguments : String
  pub item_id : String
  pub item_index : ℕ
  pub announced : Bool

-- `_StreamState`, and what was sent; `msg_open` is that `msg_index` is not none.
pub record StreamState : Type 0 where
  pub seq : ℕ
  pub msg_index : Option ℕ
  pub text_buf : String
  pub tool_calls : List CallSlot
  pub next_item_index : ℕ
  pub usage : Option ChatUsage
  pub finish_reason : Option String
  pub sent : List (ℕ × Event)

-- `next_seq` and `event`
unfoldable pub send : Event → StreamState → StreamState
send e st = record st { seq = suc st.seq; sent = st.sent ++ ((suc st.seq, e) ∷ []) }

unfoldable pub slot_at : ℕ → List CallSlot → Option CallSlot
slot_at i [] = none
slot_at i (s ∷ ss) = if s.index == i then some s else slot_at i ss

unfoldable pub put_slot : CallSlot → List CallSlot → List CallSlot
put_slot s [] = s ∷ []
put_slot s (t ∷ ts) = if t.index == s.index then s ∷ ts else t ∷ put_slot s ts

-- `sorted(st.tool_calls)`, by insertion.
unfoldable pub insert_call : CallSlot → List CallSlot → List CallSlot
insert_call s [] = s ∷ []
insert_call s (t ∷ ts) = if leb s.index t.index then s ∷ t ∷ ts else t ∷ insert_call s ts

unfoldable pub sorted_calls : List CallSlot → List CallSlot
unfolding insert_call
sorted_calls [] = []
sorted_calls (s ∷ ss) = insert_call s (sorted_calls ss)

-- The sort of the final items by their output index, which keeps the order of equal ones.
unfoldable pub insert_item : ℕ × Item → List (ℕ × Item) → List (ℕ × Item)
insert_item x [] = x ∷ []
insert_item x (y ∷ ys) = if leb x.0 y.0 then x ∷ y ∷ ys else y ∷ insert_item x ys

unfoldable pub sorted_items : List (ℕ × Item) → List (ℕ × Item)
unfolding insert_item
sorted_items [] = []
sorted_items (x ∷ xs) = insert_item x (sorted_items xs)

abbrev pub or_first : Option ℕ → ℕ
or_first none = 0
or_first (some i) = i

-- The state's constants: the ids, the time, the model, and the map of renamed tools.
pub record Setup : Type 0 where
  pub response_id : String
  pub created_at : ℕ
  pub msg_id : String
  pub item_id : ℕ → String
  pub model : String
  pub restore : Dict String
