-- ===== src/Formats/Anthropic/Request/Converted.antt =====
-- What a request's tool calls and results become.
use mathlib.Core.List.{append-nil, append_assoc}
use mathlib.Core.Option.{some-injective}
use proxy_opencode.Prelude.{
  ◌≡◌, ◌≢◌, ◌∙◌, refl, sym, ap, String, true, none, some, List, [], ◌∷◌, ◌++◌, str_eq, eq_iff,
  if◌then◌else◌, Bool-cases, inl, inr,
}
use proxy_opencode.Zen.Aggregate.{is_empty, is_nil}
use proxy_opencode.Formats.Messages.{ToolCall, ChatMessage, tool_answer, join_lines}
use proxy_opencode.Formats.Anthropic.Request.{
  RequestBlock, listed, text_result, other_result, text_block, tool_use_block, tool_result_block,
  skipped_block, Turn, text_turn, block_turn, skipped, MessagesRequest, MessagesPayload,
  flatten_system, JsonValues, result_text, role_or_user, system_messages, if_any, texts, uses,
  results, turn_message, blocks_to_messages, turn_messages, to_chat_payload,
}

-- The tool calls of the messages, and the answers of tools, in their order.
unfoldable pub calls_of : List ChatMessage → List ToolCall
calls_of [] = []
calls_of (m ∷ ms) = m.tool_calls ++ calls_of ms

unfoldable pub answers_in : ChatMessage → List ChatMessage
answers_in m = elim m.tool_call_id [ none ↦ [] | some id ↦ m ∷ [] ]

unfoldable pub answers_of : List ChatMessage → List ChatMessage
unfolding answers_in
answers_of [] = []
answers_of (m ∷ ms) = answers_in m ++ answers_of ms

calls_of-append : (xs ys : List ChatMessage) → calls_of (xs ++ ys) ≡ calls_of xs ++ calls_of ys
unfolding calls_of
calls_of-append [] ys = refl
calls_of-append (x ∷ xs) ys =
    ap (λ zs. x.tool_calls ++ zs) (calls_of-append xs ys)
    ∙ sym (append_assoc x.tool_calls (calls_of xs) (calls_of ys))

answers_of-append :
    (xs ys : List ChatMessage) → answers_of (xs ++ ys) ≡ answers_of xs ++ answers_of ys
unfolding answers_of
answers_of-append [] ys = refl
answers_of-append (x ∷ xs) ys =
    ap (λ zs. answers_in x ++ zs) (answers_of-append xs ys)
    ∙ sym (append_assoc (answers_in x) (answers_of xs) (answers_of ys))

turn_message-calls :
    (role : String) (ts : List String) (calls : List ToolCall)
    → (calls_of (turn_message role ts calls) ≡ (if str_eq role "assistant" then calls else []))
      × (answers_of (turn_message role ts calls) ≡ [])
unfolding turn_message calls_of answers_of answers_in
turn_message-calls role ts calls = elim (Bool-cases (str_eq role "assistant")) [
  | inl a ↦ by_parts ts calls a
  | inr a ↦ elim (Bool-cases (is_nil ts)) [
    | inl n ↦ rw (turn_message, a, n) (refl, refl)
    | inr n ↦ rw (turn_message, a, n) (refl, refl)
  ]
]
  where
    by_parts :
        (ts : List String) (calls : List ToolCall)
        → str_eq role "assistant" ≡ true
        → (calls_of (turn_message role ts calls) ≡ (if str_eq role "assistant" then calls else []))
          × (answers_of (turn_message role ts calls) ≡ [])
    by_parts [] [] a = rw (turn_message, a) (refl, refl)
    by_parts [] (c ∷ cs) a = rw (turn_message, a) (append-nil (c ∷ cs), refl)
    by_parts (t ∷ ts) cs a = rw (turn_message, a) (append-nil cs, refl)

if_any-some :
    {J : Type 0} (ms : List ChatMessage) (p q : MessagesPayload J)
    → if_any ms p ≡ some q
    → (p ≡ q) × (ms ≢ [])
if_any-some [] p q e = absurd (cc)
if_any-some (m ∷ ms) p q e = (some-injective _ _ e, λ n. cc)

-- A role that is missing is not the assistant's.
assistant-role_or_user :
    (role : String) → str_eq (role_or_user role) "assistant" ≡ str_eq role "assistant"
assistant-role_or_user role = elim (Bool-cases (is_empty role)) [
  | inl e ↦ rw (e, (eq_iff role "").0 e) refl
  | inr e ↦ rw e refl
]

module _ {J : Type 0} (json : JsonValues J) where
  -- The calls that the blocks ask for: each with its id, its name and its input as JSON, which is
  -- the empty object's where there is none.
  unfoldable pub asks : List (RequestBlock J) → List ToolCall
  asks [] = []
  asks (tool_use_block id name (some input) ∷ bs) =
      record { id = id; name = name; arguments = json.dumps input } ∷ asks bs
  asks (tool_use_block id name none ∷ bs) =
      record { id = id; name = name; arguments = json.dumps json.empty_object } ∷ asks bs
  asks (text_block t ∷ bs) = asks bs
  asks (tool_result_block id r ∷ bs) = asks bs
  asks (skipped_block ∷ bs) = asks bs

  uses-asks : (bs : List (RequestBlock J)) → uses json bs ≡ asks bs
  unfolding uses asks
  uses-asks [] = refl
  uses-asks (tool_use_block id name (some input) ∷ bs) =
      ap (λ cs. record { id = id; name = name; arguments = json.dumps input } ∷ cs) (uses-asks bs)
  uses-asks (tool_use_block id name none ∷ bs) =
      ap (λ cs. record { id = id; name = name; arguments = json.dumps json.empty_object } ∷ cs)
        (uses-asks bs)
  uses-asks (text_block t ∷ bs) = uses-asks bs
  uses-asks (tool_result_block id r ∷ bs) = uses-asks bs
  uses-asks (skipped_block ∷ bs) = uses-asks bs

  -- A tool's message for the call of an id.
  abbrev pub said : String → String → ChatMessage
  said id t = record { role = "tool"; content = some t; tool_calls = []; tool_call_id = some id }

  -- The answers that the blocks bring: each for the call of its id, with its text, or the lines of its
  -- texts, or its JSON, which is the empty text's where there is none.
  unfoldable pub answers : List (RequestBlock J) → List ChatMessage
  unfolding join_lines
  answers [] = []
  answers (tool_result_block id (listed ts) ∷ bs) = said id (join_lines ts) ∷ answers bs
  answers (tool_result_block id (text_result t) ∷ bs) = said id t ∷ answers bs
  answers (tool_result_block id (other_result (some value)) ∷ bs) =
      said id (json.dumps value) ∷ answers bs
  answers (tool_result_block id (other_result none) ∷ bs) =
      said id (json.dumps json.empty_text) ∷ answers bs
  answers (text_block t ∷ bs) = answers bs
  answers (tool_use_block id name input ∷ bs) = answers bs
  answers (skipped_block ∷ bs) = answers bs

  results-same : (bs : List (RequestBlock J)) → results json bs ≡ answers bs
  unfolding results result_text answers
  results-same [] = refl
  results-same (tool_result_block id (listed ts) ∷ bs) =
      ap (λ ms. said id (join_lines ts) ∷ ms) (results-same bs)
  results-same (tool_result_block id (text_result t) ∷ bs) =
      ap (λ ms. said id t ∷ ms) (results-same bs)
  results-same (tool_result_block id (other_result (some value)) ∷ bs) =
      ap (λ ms. said id (json.dumps value) ∷ ms) (results-same bs)
  results-same (tool_result_block id (other_result none) ∷ bs) =
      ap (λ ms. said id (json.dumps json.empty_text) ∷ ms) (results-same bs)
  results-same (text_block t ∷ bs) = results-same bs
  results-same (tool_use_block id name input ∷ bs) = results-same bs
  results-same (skipped_block ∷ bs) = results-same bs

  -- The calls that the assistant's turns ask for, and the answers in all turns.
  unfoldable pub asked_tools : List (Turn J) → List ToolCall
  unfolding asks
  asked_tools [] = []
  asked_tools (block_turn role bs ∷ turns) =
      (if str_eq role "assistant" then asks bs else []) ++ asked_tools turns
  asked_tools (_ ∷ turns) = asked_tools turns

  unfoldable pub answered : List (Turn J) → List ChatMessage
  unfolding answers
  answered [] = []
  answered (block_turn role bs ∷ turns) = answers bs ++ answered turns
  answered (_ ∷ turns) = answered turns

  results-calls : (bs : List (RequestBlock J)) → calls_of (results json bs) ≡ []
  unfolding results calls_of
  results-calls [] = refl
  results-calls (text_block t ∷ bs) = results-calls bs
  results-calls (tool_use_block id name input ∷ bs) = results-calls bs
  results-calls (tool_result_block id r ∷ bs) = results-calls bs
  results-calls (skipped_block ∷ bs) = results-calls bs

  results-answers : (bs : List (RequestBlock J)) → answers_of (results json bs) ≡ results json bs
  unfolding results answers_of answers_in
  results-answers [] = refl
  results-answers (text_block t ∷ bs) = results-answers bs
  results-answers (tool_use_block id name input ∷ bs) = results-answers bs
  results-answers (tool_result_block id r ∷ bs) =
      ap (λ ms. tool_answer id (result_text json r) ∷ ms) (results-answers bs)
  results-answers (skipped_block ∷ bs) = results-answers bs

  turn_messages-calls :
      (turns : List (Turn J)) → calls_of (turn_messages json turns) ≡ asked_tools turns
  unfolding turn_messages blocks_to_messages asked_tools calls_of
  turn_messages-calls [] = refl
  turn_messages-calls (text_turn role t ∷ turns) = turn_messages-calls turns
  turn_messages-calls (block_turn role bs ∷ turns) =
      let first = turn_message (role_or_user role) (texts bs) (uses json bs) in
      let own = (turn_message-calls (role_or_user role) (texts bs) (uses json bs)).0 in
      calls_of-append (first ++ results json bs) (turn_messages json turns)
      ∙ ap (λ cs. cs ++ calls_of (turn_messages json turns))
          (calls_of-append first (results json bs)
            ∙ ap (λ cs. calls_of first ++ cs) (results-calls bs)
            ∙ append-nil (calls_of first)
            ∙ own
            ∙ ap (λ b. if b then uses json bs else []) (assistant-role_or_user role)
            ∙ ap (λ cs. if str_eq role "assistant" then cs else []) (uses-asks bs))
      ∙ ap (λ cs. (if str_eq role "assistant" then asks bs else []) ++ cs)
          (turn_messages-calls turns)
  turn_messages-calls (skipped ∷ turns) = turn_messages-calls turns

  turn_messages-answers :
      (turns : List (Turn J)) → answers_of (turn_messages json turns) ≡ answered turns
  unfolding turn_messages blocks_to_messages answered answers_of answers_in
  turn_messages-answers [] = refl
  turn_messages-answers (text_turn role t ∷ turns) = turn_messages-answers turns
  turn_messages-answers (block_turn role bs ∷ turns) =
      let first = turn_message (role_or_user role) (texts bs) (uses json bs) in
      let own = (turn_message-calls (role_or_user role) (texts bs) (uses json bs)).1 in
      answers_of-append (first ++ results json bs) (turn_messages json turns)
      ∙ ap (λ ms. ms ++ answers_of (turn_messages json turns))
          (answers_of-append first (results json bs)
            ∙ ap (λ ms. ms ++ answers_of (results json bs)) own
            ∙ results-answers bs
            ∙ results-same bs)
      ∙ ap (λ ms. answers bs ++ ms) (turn_messages-answers turns)
  turn_messages-answers (skipped ∷ turns) = turn_messages-answers turns

  system_messages-calls :
      (t : String) → (calls_of (system_messages t) ≡ []) × (answers_of (system_messages t) ≡ [])
  unfolding calls_of answers_of answers_in
  system_messages-calls t = elim (Bool-cases (is_empty t)) [
    | inl e ↦ rw e (refl, refl)
    | inr e ↦ rw e (refl, refl)
  ]

  -- A request that is accepted has some message in the chat payload, and nothing of the tools is
  -- lost: the tool calls of the payload's messages are the tool uses of the assistant's turns, each
  -- with its id, its name and its input, and its answers of tools are the tool results of all turns,
  -- each with its id and its text, both in their order.
  pub to_chat_payload-calls :
      (r : MessagesRequest J) (p : MessagesPayload J)
      → to_chat_payload json r ≡ some p
      → (p.messages ≢ [])
        × (calls_of p.messages ≡ asked_tools r.messages)
        × (answers_of p.messages ≡ answered r.messages)
  unfolding to_chat_payload
  to_chat_payload-calls r p e =
      let system = system_messages (flatten_system r.system) in
      let all = system ++ turn_messages json r.messages in
      let (same, some_message) = if_any-some all _ p e in
      let (c, a) = system_messages-calls (flatten_system r.system) in
      let kept : p.messages ≡ all = sym (ap (λ q. q.messages) same) in
      (
        λ n. some_message (sym kept ∙ n),
        ap calls_of kept
            ∙ calls_of-append system (turn_messages json r.messages)
            ∙ ap (λ cs. cs ++ calls_of (turn_messages json r.messages)) c
            ∙ turn_messages-calls r.messages,
        ap answers_of kept
            ∙ answers_of-append system (turn_messages json r.messages)
            ∙ ap (λ ms. ms ++ answers_of (turn_messages json r.messages)) a
            ∙ turn_messages-answers r.messages,
      )
