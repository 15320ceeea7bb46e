-- ===== src/Formats/Responses/Request/Answers.antt =====
-- The messages of a tool's answer in a chat payload have an id.
use proxy_opencode.Prelude.{
  ◌≡◌, ◌≢◌, refl, String, Bool, true, false, Option, none, some, List, [], ◌∷◌, ◌&&◌, All,
  All-append, str_eq, if◌then◌else◌, Bool-cases, inl, inr,
}
use proxy_opencode.Zen.Aggregate.{is_empty}
use proxy_opencode.Formats.Messages.{ChatMessage, plain}
use proxy_opencode.Formats.Responses.Request.{
  InputItem, message_input, call_input, output_input, other_input, Input, input_string, input_items,
  no_input, ResponsesRequest, or_string, or_continue, tool_turn, message_turn, item_messages,
  input_items_to_messages, input_messages, responses_to_chat,
}

-- A message of the role `tool` answers a call by its id, and no other one does.
abbrev pub id_fits : String → Option String → Bool
id_fits role none = if str_eq role "tool" then false else true
id_fits role (some id) = str_eq role "tool" && (if is_empty id then false else true)

abbrev pub IsPaired : ChatMessage → Type 0
IsPaired m = id_fits m.role m.tool_call_id ≡ true

-- An output of a call names the call.
abbrev pub NamesCall : {J : Type 0} → InputItem J → Type 0
NamesCall (output_input call_id output) = is_empty call_id ≡ false
NamesCall i = Unit

abbrev pub items_of : {J : Type 0} → Input J → List (InputItem J)
items_of (input_items is) = is
items_of i = []

tool_turn-IsPaired : (id text : String) → IsPaired (tool_turn id text)
unfolding tool_turn
tool_turn-IsPaired id text = elim (Bool-cases (is_empty id)) [
  | inl e ↦ rw (tool_turn, e) refl
  | inr e ↦ rw (tool_turn, e) (rw e refl)
]

message_turn-IsPaired :
    (role tool_call_id call_id text : String)
    → All IsPaired (message_turn role tool_call_id call_id text)
unfolding message_turn
message_turn-IsPaired role tool_call_id call_id text =
    elim (Bool-cases (str_eq role "assistant" && is_empty text)) [
      | inl e ↦ rw (message_turn, e) tt
      | inr e ↦ elim (Bool-cases (str_eq role "tool")) [
        | inl t ↦
            rw (message_turn, e, t) (tool_turn-IsPaired (or_string tool_call_id call_id) text, tt)
        | inr t ↦ rw (message_turn, e, t) (rw t refl, tt)
      ]
    ]

or_continue-IsPaired :
    (ms : List ChatMessage)
    → All IsPaired ms
    → All IsPaired (or_continue ms) × (or_continue ms ≢ [])
or_continue-IsPaired [] h = ((refl, tt), λ e. cc)
or_continue-IsPaired (m ∷ ms) h = (h, λ e. cc)

module _ {J : Type 0} (dumps : J → String) (is_blank : String → Bool) (default_schema : J) where
  item_messages-IsPaired :
      (i : InputItem J) → NamesCall i → All IsPaired (item_messages dumps is_blank default_schema i)
  unfolding item_messages
  item_messages-IsPaired (message_input role tool_call_id call_id parts) n =
      message_turn-IsPaired (or_string role "user") tool_call_id call_id _
  item_messages-IsPaired (call_input call_id id name arguments) n = (refl, tt)
  item_messages-IsPaired (output_input call_id output) n = (rw n refl, tt)
  item_messages-IsPaired other_input n = tt

  items-IsPaired :
      (is : List (InputItem J))
      → All NamesCall is
      → All IsPaired (input_items_to_messages dumps is_blank default_schema is)
  unfolding input_items_to_messages
  items-IsPaired [] n = tt
  items-IsPaired (i ∷ is) n =
      All-append IsPaired _ _ (item_messages-IsPaired i n.0) (items-IsPaired is n.1)

  input-IsPaired :
      (i : Input J)
      → All NamesCall (items_of i)
      → All IsPaired (input_messages dumps is_blank default_schema i)
  unfolding input_messages
  input-IsPaired (input_string t) n = (refl, tt)
  input-IsPaired (input_items is) n = items-IsPaired is n
  input-IsPaired no_input n = tt

  -- If each output of a call in the input names its call, the chat payload has some message, and in
  -- it the messages of the role `tool`, and no others, have a `tool_call_id`, which is not empty:
  -- whatever the role and the ids of a message item are.
  pub responses_to_chat-IsPaired :
      (r : ResponsesRequest J)
      → All NamesCall (items_of r.input)
      → All IsPaired (responses_to_chat dumps is_blank default_schema r).messages
        × ((responses_to_chat dumps is_blank default_schema r).messages ≢ [])
  unfolding responses_to_chat
  responses_to_chat-IsPaired r n =
      let system = if is_blank r.instructions then [] else plain "system" r.instructions ∷ [] in
      let system_paired : All IsPaired system = elim (Bool-cases (is_blank r.instructions)) [
        | inl e ↦ rw e tt
        | inr e ↦ rw e (refl, tt)
      ] in
      or_continue-IsPaired _ (All-append IsPaired system _ system_paired (input-IsPaired r.input n))
