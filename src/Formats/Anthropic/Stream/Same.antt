-- ===== src/Formats/Anthropic/Stream/Same.antt =====
-- A client that streams and a client that does not are told the same.
use Prim.Native.String.{◌++◌ as ◌++ₛ◌}
use package.text.Mathlib.TextLemmas.{append-nil}
use proxy_opencode.Prelude.{
  ℕ, ◌≡◌, ◌∙◌, refl, sym, ap, String, Option, none, some, List, [], ◌∷◌, map, if◌then◌else◌,
  Bool-cases, Option-cases, inl, inr,
}
use proxy_opencode.Zen.Aggregate.{
  CallDelta, Choice, Chunk, chunk_line, is_empty, is_nil, latest, join, Gathered, gather_choice,
  gather_choices, gather_chunk, gather, complete, nothing_yet, aggregate_sse,
}
use proxy_opencode.Zen.Aggregate.Parts.{no_piece, join-added}
use proxy_opencode.Formats.Anthropic.Stream.{
  Kind, tool, Block, empty_thinking, empty_text, tool_use, thinking, text, is_open, StreamState,
  ToolBlock, ChatUsage, send, close_open_block, open_block, on_reasoning, on_text, on_arguments,
  on_call, on_calls, on_choice, on_choices, on_chunks, start_stream, stream_anthropic_events,
}
use proxy_opencode.Formats.Anthropic.Stream.Reading.{Client, new_client, over, read, said}
use proxy_opencode.Formats.Anthropic.Stream.Ends.{on_chunks-Inv, start_stream-Inv, end_stream-read}

-- What was told so far: the reasoning and the text.
abbrev bufs : StreamState → String × String
bufs st = (st.think_buf, st.text_buf)

abbrev parts : {U : Type 0} → Gathered U → String × String
parts g = (join g.reasoning_parts, join g.content_parts)

abbrev with_piece : String → String → String × String → String × String
with_piece r t (rs, ts) = (rs ++ₛ r, ts ++ₛ t)

open_block-bufs : (k : Kind) (b : Block) (st : StreamState) → bufs (open_block k b st) ≡ bufs st
unfolding open_block close_open_block send
open_block-bufs k b st = elim (Option-cases st.open_type) [
  | inl e ↦ rw (close_open_block, e) refl
  | inr (o, e) ↦ rw (close_open_block, e) refl
]

ready-bufs :
    (k : Kind) (b : Block) (st : StreamState)
    → bufs (if is_open k st.open_type then st else open_block k b st) ≡ bufs st
ready-bufs k b st = elim (Bool-cases (is_open k st.open_type)) [
  | inl e ↦ rw e refl
  | inr e ↦ rw e (open_block-bufs k b st)
]

on_reasoning-bufs :
    (r : String) (st : StreamState) → bufs (on_reasoning r st) ≡ with_piece r "" (bufs st)
unfolding on_reasoning send
on_reasoning-bufs r st = elim (Bool-cases (is_empty r)) [
  | inl e ↦
      rw (on_reasoning, e) (λ i. (no_piece st.think_buf r e i, sym (append-nil st.text_buf) i))
  | inr e ↦
      let same = ready-bufs thinking empty_thinking st in
      rw (on_reasoning, e)
        (λ i. ((same i).0 ++ₛ r, (ap (λ p. p.1) same ∙ sym (append-nil st.text_buf)) i))
]

on_text-bufs : (t : String) (st : StreamState) → bufs (on_text t st) ≡ with_piece "" t (bufs st)
unfolding on_text send
on_text-bufs t st = elim (Bool-cases (is_empty t)) [
  | inl e ↦ rw (on_text, e) (λ i. (sym (append-nil st.think_buf) i, no_piece st.text_buf t e i))
  | inr e ↦
      let same = ready-bufs text empty_text st in
      rw (on_text, e)
        (λ i. ((ap (λ p. p.0) same ∙ sym (append-nil st.think_buf)) i, (same i).1 ++ₛ t))
]

on_arguments-bufs :
    (piece : String) (s : ToolBlock) (st : StreamState) → bufs (on_arguments piece s st) ≡ bufs st
unfolding on_arguments send
on_arguments-bufs piece s st = elim (Option-cases s.block_index) [
  | inl e ↦ elim (Bool-cases (is_empty piece)) [
    | inl p ↦ rw (on_arguments, e, p) refl
    | inr p ↦ rw (on_arguments, e, p) (open_block-bufs tool (tool_use s.id s.name) st)
  ]
  | inr (i, e) ↦ elim (Bool-cases (is_empty piece)) [
    | inl p ↦ rw (on_arguments, e, p) refl
    | inr p ↦ rw (on_arguments, e, p) refl
  ]
]

on_calls-bufs :
    (new_id : ℕ → String) (ds : List CallDelta) (st : StreamState)
    → bufs (on_calls new_id ds st) ≡ bufs st
unfolding on_calls on_call
on_calls-bufs new_id [] st = refl
on_calls-bufs new_id (d ∷ ds) st =
    on_calls-bufs new_id ds (on_call new_id d st) ∙ on_arguments-bufs d.arguments _ _

choice-bufs :
    {U : Type 0} (new_id : ℕ → String) (c : Choice) (st : StreamState) (g : Gathered U)
    → bufs st ≡ parts g
    → bufs (on_choice new_id c st) ≡ parts (gather_choice c g)
unfolding on_choice gather_choice
choice-bufs new_id c st g same =
    let st' = record st { finish_reason = latest c.finish_reason st.finish_reason } in
    let st'' = on_reasoning c.reasoning_content st' in
    on_calls-bufs new_id c.tool_calls (on_text c.content st'')
    ∙ on_text-bufs c.content st''
    ∙ ap (with_piece "" c.content) (on_reasoning-bufs c.reasoning_content st')
    ∙ (λ i. (
      (append-nil (st.think_buf ++ₛ c.reasoning_content)
            ∙ ap (λ p. p.0 ++ₛ c.reasoning_content) same
            ∙ sym (join-added g.reasoning_parts c.reasoning_content))
          i,
      (ap (λ t. t ++ₛ c.content) (append-nil st.text_buf ∙ ap (λ p. p.1) same)
            ∙ sym (join-added g.content_parts c.content))
          i,
    ))

choices-bufs :
    {U : Type 0} (new_id : ℕ → String) (cs : List Choice) (st : StreamState) (g : Gathered U)
    → bufs st ≡ parts g
    → bufs (on_choices new_id cs st) ≡ parts (gather_choices cs g)
unfolding on_choices gather_choices
choices-bufs new_id [] st g same = same
choices-bufs new_id (c ∷ cs) st g same =
    choices-bufs new_id cs (on_choice new_id c st) (gather_choice c g)
      (choice-bufs new_id c st g same)

chunks-bufs :
    (new_id : ℕ → String) (cs : List (Chunk ChatUsage)) (st : StreamState) (g : Gathered ChatUsage)
    → bufs st ≡ parts g
    → bufs (on_chunks new_id cs st) ≡ parts (gather (map chunk_line cs) g)
unfolding on_chunks gather gather_chunk
chunks-bufs new_id [] st g same = same
chunks-bufs new_id (c ∷ cs) st g same =
    chunks-bufs new_id cs _ (gather_chunk c g) (choices-bufs new_id c.choices _ _ same)

abbrev pub shown : Option String → String
shown none = ""
shown (some t) = t

shown-parts : (ps : List String) → shown (if is_nil ps then none else some (join ps)) ≡ join ps
unfolding join
shown-parts [] = refl
shown-parts (p ∷ ps) = refl

-- Whatever the upstream streams, a client reads the events of the message without a fault, to the
-- end: each block is started at the next index after the stop of the one before, no delta or stop
-- names a block that is not there or is of another kind, and every block is stopped before the
-- message ends. Its blocks say the same text and the same reasoning as the answer to a client that
-- does not stream.
pub stream_anthropic_events-read :
    (message_id : String) (new_id : ℕ → String) (model random_id : String) (now : ℕ)
    (chunks : List (Chunk ChatUsage))
    → let whole = aggregate_sse random_id now (map chunk_line chunks) in
      (c : Client) × (read new_client (stream_anthropic_events message_id new_id model chunks)
        ≡ some c)
      × (c.phase ≡ over)
      × (said thinking c.blocks ≡ shown whole.reasoning_content)
      × (said text c.blocks ≡ whole.content)
unfolding stream_anthropic_events aggregate_sse complete
stream_anthropic_events-read message_id new_id model random_id now chunks =
    let start = start_stream message_id model in
    let st = on_chunks new_id chunks start in
    let (c, reads, p, r, t, e) =
      end_stream-read st (on_chunks-Inv new_id chunks start (start_stream-Inv message_id model)) in
    let same : bufs st ≡ parts (gather (map chunk_line chunks) (nothing_yet now)) =
      chunks-bufs new_id chunks start (nothing_yet now) (unfold start_stream join in refl) in
    (c, reads, p, r ∙ ap (λ q. q.0) same ∙ sym (shown-parts _), t ∙ ap (λ q. q.1) same)
