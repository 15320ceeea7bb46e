-- ===== src/Formats/Tests.antt =====
-- An event stream whose lines are split over the chunks, and streams with a text and a tool call.
use proxy_opencode.Prelude.{
  ◌≡◌, ◌≢◌, All, refl, ℕ, any, String, Bool, true, false, Option, none, some, List, [], ◌∷◌, ◌++◌,
  map,
}
use proxy_opencode.Formats.SseIter.{Bytes, parse}
use proxy_opencode.Formats.SseIter.Chunks.{parse_whole, emit_all, lines, concat}
use proxy_opencode.Zen.Aggregate.{CallDelta, Choice, Chunk, chunk_line, aggregate_sse}
use proxy_opencode.Formats.Anthropic.Stream as Anthropic
use proxy_opencode.Formats.Anthropic.Stream.Reading as AnthropicClient
use proxy_opencode.Formats.Anthropic.Stream.Same.{stream_anthropic_events-read, shown}
use proxy_opencode.Zen.Aggregate.Calls.{arguments_at}
use proxy_opencode.Formats.Anthropic.Stream.Arguments.{deltas_at}
use proxy_opencode.Formats.Anthropic.Stream.Pieces.{stream_anthropic_events-arguments}
use proxy_opencode.Formats.Anthropic.Request.{
  JsonValues, text_block, tool_use_block, tool_result_block, text_result, text_turn, block_turn,
  MessagesRequest, no_system, MessagesPayload, to_chat_payload,
}
use proxy_opencode.Formats.Anthropic.Request.Converted.{
  to_chat_payload-calls, calls_of, answers_of, asked_tools, answered,
}
use proxy_opencode.Formats.Responses.Request.{
  message_input, call_input, output_input, content_string, output_text, input_items,
  ResponsesRequest, responses_to_chat,
}
use proxy_opencode.Formats.Responses.Request.Answers.{responses_to_chat-IsPaired, IsPaired}
use proxy_opencode.Formats.Responses.Stream as Responses
use proxy_opencode.Formats.Responses.Stream.Reading as ResponsesClient
use proxy_opencode.Formats.Responses.Stream.Numbers.{stream_responses_events-numbered, up_to}
use proxy_opencode.Formats.Responses.Stream.Held.{calls_named, deltas}
use proxy_opencode.Formats.Responses.Stream.Whole.{
  stream_responses_events-read, message_of_text, item_of,
}

-- The parse keeps the bytes.
abbrev raw : Bytes → Option Bytes
raw bs = some bs

-- `data: {}`, a newline, and `data:7` without its newline.
abbrev chunks : List Bytes
chunks =
    (100 ∷ 97 ∷ 116 ∷ [])
    ∷ (97 ∷ 58 ∷ 32 ∷ 123 ∷ 125 ∷ 10 ∷ 100 ∷ [])
    ∷ (97 ∷ 116 ∷ 97 ∷ 58 ∷ 55 ∷ [])
    ∷ []

parse-chunks : parse raw [] chunks ≡ (123 ∷ 125 ∷ []) ∷ (55 ∷ []) ∷ []
unfolding parse
parse-chunks = refl

parse_whole_example : parse raw [] chunks ≡ emit_all raw (lines (concat chunks))
parse_whole_example = parse_whole raw chunks

abbrev delta : ℕ → String → String → String → CallDelta
delta index id name arguments = record {
  index = index;
  id = id;
  type = "";
  name = name;
  arguments = arguments;
}

abbrev said_choice : String → List CallDelta → Choice
said_choice content calls = record {
  finish_reason = none;
  content = content;
  reasoning_content = "";
  tool_calls = calls;
}

abbrev last_choice : Choice
last_choice = record {
  finish_reason = some "tool_calls";
  content = "";
  reasoning_content = "";
  tool_calls = [];
}

abbrev chunk : {U : Type 0} → Choice → Chunk U
chunk c = record { id = none; created = none; usage = none; choices = c ∷ [] }

-- A text, and two tool calls whose arguments alternate.
abbrev two_calls : {U : Type 0} → List (Chunk U)
two_calls =
    chunk (said_choice "Hi" [])
    ∷ chunk (said_choice " there" (delta 0 "a" "bash" "{" ∷ delta 1 "b" "read" "[" ∷ []))
    ∷ chunk (said_choice "" (delta 0 "" "" "}" ∷ delta 1 "" "" "]" ∷ []))
    ∷ chunk last_choice
    ∷ []

abbrev no_id : ℕ → String
no_id i = "id"

stream_anthropic_events-read_example :
    let whole = aggregate_sse {U = Anthropic.ChatUsage} "" 0 (map chunk_line two_calls) in
    (c : AnthropicClient.Client) × (AnthropicClient.read AnthropicClient.new_client
        (Anthropic.stream_anthropic_events "m" no_id "model" two_calls)
      ≡ some c)
    × (c.phase ≡ AnthropicClient.over)
    × (AnthropicClient.said Anthropic.thinking c.blocks ≡ shown whole.reasoning_content)
    × (AnthropicClient.said Anthropic.text c.blocks ≡ whole.content)
stream_anthropic_events-read_example = stream_anthropic_events-read "m" no_id "model" "" 0 two_calls

stream_anthropic_events-arguments_example :
    let calls =
      (aggregate_sse {U = Anthropic.ChatUsage} "" 0 (map chunk_line two_calls)).tool_calls in
    let events = Anthropic.stream_anthropic_events "m" no_id "model" two_calls in
    (block : ℕ → Option ℕ) × ((i j : ℕ)
      → block i ≡ some j
      → deltas_at j events ≡ arguments_at i calls)
    × ((i : ℕ) → block i ≡ none → arguments_at i calls ≡ "")
    × ((i i' j : ℕ) → block i ≡ some j → block i' ≡ some j → i ≡ i')
stream_anthropic_events-arguments_example =
    stream_anthropic_events-arguments "m" no_id "model" "" 0 two_calls

abbrev no_json : String → Option Bool
no_json s = none

abbrev setup : Responses.Setup
setup = record {
  response_id = "r";
  created_at = 0;
  msg_id = "m";
  item_id = no_id;
  model = "model";
  restore = ("client_bash", "bash") ∷ [];
}

stream_responses_events-numbered_example :
    (n : ℕ) × (map (λ x. x.0) (Responses.stream_responses_events setup two_calls) ≡ up_to n)
stream_responses_events-numbered_example = stream_responses_events-numbered setup two_calls

stream_responses_events-read_example :
    let whole = aggregate_sse {U = Responses.ChatUsage} "" 0 (map chunk_line two_calls) in
    (c : ResponsesClient.Client) × (ResponsesClient.read ResponsesClient.new_client
        (Responses.stream_responses_events setup two_calls)
      ≡ some c)
    × (c.phase ≡ ResponsesClient.over)
    × (c.finished ≡ message_of_text setup whole.content ++ map (item_of setup) whole.tool_calls)
unfolding any
stream_responses_events-read_example =
    stream_responses_events-read setup "" 0 two_calls (unfold calls_named deltas in refl)

-- Values of JSON are texts.
abbrev json : JsonValues String
json = record { dumps = λ t. t; empty_object = "{}"; empty_text = "''"; default_schema = "{}" }

-- A call and its result, with a text after the result.
abbrev request : MessagesRequest String
request = record {
  model = "big-pickle";
  system = no_system;
  messages =
      text_turn "user" "list"
      ∷ block_turn "assistant" (tool_use_block "a" "ls" none ∷ [])
      ∷ block_turn "user" (tool_result_block "a" (text_result "x") ∷ text_block "go on" ∷ [])
      ∷ [];
  tools = [];
  stream = false;
  max_tokens = 0;
  temperature = none;
  top_p = none;
  stop_sequences = none;
}

accepted : (p : MessagesPayload String) × (to_chat_payload json request ≡ some p)
unfolding to_chat_payload
accepted = (_, refl)

to_chat_payload-calls_example :
    (accepted.0.messages ≢ [])
    × (calls_of accepted.0.messages ≡ asked_tools json request.messages)
    × (answers_of accepted.0.messages ≡ answered json request.messages)
to_chat_payload-calls_example = to_chat_payload-calls json request accepted.0 accepted.1

-- A tool's turn without an id, and an output of a call.
abbrev responses_request : ResponsesRequest String
responses_request = record {
  model = "big-pickle";
  instructions = "";
  input = input_items (
      message_input "tool" "" "" (content_string "x")
      ∷ call_input "a" "" "ls" ""
      ∷ output_input "a" (output_text "y")
      ∷ []);
  tools = [];
  stream = true;
  temperature = none;
  top_p = none;
  max_output_tokens = none;
}

abbrev same : String → String
same t = t

abbrev blank : String → Bool
blank t = true

responses_to_chat-IsPaired_example :
    All IsPaired (responses_to_chat same blank "{}" responses_request).messages
    × ((responses_to_chat same blank "{}" responses_request).messages ≢ [])
responses_to_chat-IsPaired_example =
    responses_to_chat-IsPaired same blank "{}" responses_request (tt, (tt, (refl, tt)))
