-- ===== src/Formats/Anthropic/Stream/Pieces.antt =====
-- The arguments of the tool calls of a whole stream.
use Prim.Native.String.{◌++◌ as ◌++ₛ◌}
use package.text.Mathlib.TextLemmas.{nil-append, append-nil, append_assoc}
use proxy_opencode.Prelude.{
  ℕ, ◌≡◌, ◌∙◌, refl, sym, ap, String, Option, none, some, List, [], ◌∷◌, map, arith, ◌==◌,
  if◌then◌else◌, Bool-cases, Option-cases, inl, inr,
}
use proxy_opencode.Zen.Aggregate.{
  CallDelta, Choice, Chunk, chunk_line, is_nil, latest, aggregate_sse,
}
use proxy_opencode.Zen.Aggregate.Calls.{
  arguments_at, piece, delta_pieces, choice_pieces, pieces, aggregate_sse-arguments,
}
use proxy_opencode.Formats.Anthropic.Stream.{
  text, tool_use, content_block_start, content_block_stop, message_delta, message_stop, ChatUsage,
  StreamState, ToolBlock, send, close_open_block, slot_at, put_slot, slot_for, new_slot, with_name,
  on_call, on_calls, on_choice, on_choices, on_chunks, flush_slot, flush_slots, end_stream,
  start_stream, stop_reason, or_stop, chat_usage, stream_anthropic_events,
}
use proxy_opencode.Formats.Anthropic.Stream.Calls.{with_name-block_index}
use proxy_opencode.Formats.Anthropic.Stream.Growth.{more, on_arguments-Args}
use proxy_opencode.Formats.Anthropic.Stream.Arguments.{
  delta_at, deltas_at, place, place-put_slot, Args, silent, close-Args, on_reasoning-Args,
  on_text-Args, placed-Args, told-Args,
}

with_name-index : (name : String) (s : ToolBlock) → (with_name name s).index ≡ s.index
unfolding with_name
with_name-index name s = elim (Option-cases s.block_index) [
  | inl e ↦ rw (with_name, e) refl
  | inr (i, e) ↦ rw (with_name, e) refl
]

slot_for-index :
    (new_id : ℕ → String) (d : CallDelta) (ss : List ToolBlock)
    → ((slot_for new_id d ss).index ≡ d.index)
      × ((slot_for new_id d ss).block_index ≡ place d.index ss)
unfolding slot_for new_slot slot_at place
slot_for-index new_id d [] = (refl, refl)
slot_for-index new_id d (s ∷ ss) = elim (Bool-cases (s.index == d.index)) [
  | inl e ↦ rw (slot_for, place, e) (ground (arith, e), refl)
  | inr e ↦ rw (slot_for, place, e) (slot_for-index new_id d ss)
]

module _ (new_id : ℕ → String) where
  on_call-Args :
      (d : CallDelta) (told : ℕ → String) (st : StreamState)
      → Args st told
      → Args (on_call new_id d st) (more d told)
  unfolding on_call
  on_call-Args d told st h =
      let s = with_name d.name (slot_for new_id d st.tool_blocks) in
      let (i, at) = slot_for-index new_id d st.tool_blocks in
      let index : s.index ≡ d.index =
        with_name-index d.name (slot_for new_id d st.tool_blocks) ∙ i in
      let block : s.block_index ≡ place d.index st.tool_blocks =
        with_name-block_index d.name (slot_for new_id d st.tool_blocks) ∙ at in
      let same : (x : ℕ) → place x (put_slot s st.tool_blocks) ≡ place x st.tool_blocks = λ x.
        place-put_slot x s st.tool_blocks ∙ elim (Bool-cases (s.index == x)) [
          | inl e ↦
              let here : s.index ≡ x = ground (arith, e) in
              rw e (block ∙ ap (λ k. place k st.tool_blocks) (sym index ∙ here))
          | inr e ↦ rw e refl
        ] in
      on_arguments-Args d told s (record st { tool_blocks = put_slot s st.tool_blocks }) index
        (same d.index ∙ sym block) (placed-Args st told (put_slot s st.tool_blocks) same h)

  on_calls-Args :
      (ds : List CallDelta) (told : ℕ → String) (st : StreamState)
      → Args st told
      → Args (on_calls new_id ds st) (λ i. told i ++ₛ delta_pieces i ds)
  unfolding on_calls delta_pieces
  on_calls-Args [] told st h = told-Args st told _ (λ i. sym (append-nil (told i))) h
  on_calls-Args (d ∷ ds) told st h =
      told-Args _ _ _ (λ i. append_assoc (told i) (piece i d) (delta_pieces i ds))
        (on_calls-Args ds (more d told) (on_call new_id d st) (on_call-Args d told st h))

  noted-Args :
      (told : ℕ → String) (st : StreamState) (reason : Option String) (usage : Option ChatUsage)
      → Args st told
      → Args (record st { finish_reason = reason; usage = usage }) told
  noted-Args told st reason usage h = record {
    own = h.own;
    unplaced = h.unplaced;
    below = h.below;
    new = h.new;
    apart = h.apart;
    opened = h.opened;
    others = h.others;
  }

  on_choices-Args :
      (cs : List Choice) (told : ℕ → String) (st : StreamState)
      → Args st told
      → Args (on_choices new_id cs st) (λ i. told i ++ₛ choice_pieces i cs)
  unfolding on_choices on_choice choice_pieces
  on_choices-Args [] told st h = told-Args st told _ (λ i. sym (append-nil (told i))) h
  on_choices-Args (c ∷ cs) told st h =
      told-Args _ _ _
        (λ i. append_assoc (told i) (delta_pieces i c.tool_calls) (choice_pieces i cs))
        (on_choices-Args cs _ (on_choice new_id c st) (
          on_calls-Args c.tool_calls told _ (
            on_text-Args c.content _ told (
              on_reasoning-Args c.reasoning_content _ told
                (noted-Args told st (latest c.finish_reason st.finish_reason) st.usage h)))))

  on_chunks-Args :
      (cs : List (Chunk ChatUsage)) (told : ℕ → String) (st : StreamState)
      → Args st told
      → Args (on_chunks new_id cs st) (λ i. told i ++ₛ pieces i (map chunk_line cs))
  unfolding on_chunks pieces
  on_chunks-Args [] told st h = told-Args st told _ (λ i. sym (append-nil (told i))) h
  on_chunks-Args (c ∷ cs) told st h =
      told-Args _ _ _
        (λ i. append_assoc (told i) (choice_pieces i c.choices) (pieces i (map chunk_line cs)))
        (on_chunks-Args cs _ _ (
          on_choices-Args c.choices told _
            (noted-Args told st st.finish_reason (latest c.usage st.usage) h)))

  start_stream-Args : (message_id model : String) → Args (start_stream message_id model) (λ i. "")
  unfolding start_stream place slot_at deltas_at delta_at
  start_stream-Args message_id model = record {
    own = λ i j p. cc;
    unplaced = λ i p. refl;
    below = λ i j p. cc;
    new = λ j b. nil-append "";
    apart = λ i i' j p q. cc;
    opened = λ k p. cc;
    others = λ k p. cc;
  }

-- The end of the stream has no deltas.
flush_slots-silent :
    (j : ℕ) (ss : List ToolBlock) (st : StreamState)
    → deltas_at j (flush_slots ss st).sent ≡ deltas_at j st.sent
unfolding flush_slots flush_slot delta_at send
flush_slots-silent j [] st = refl
flush_slots-silent j (s ∷ ss) st = elim (Option-cases s.block_index) [
  | inl e ↦
      let start = content_block_start st.blocks (tool_use s.id s.name) in
      let stop = content_block_stop st.blocks in
      rw (flush_slot, e)
        (flush_slots-silent j ss _ ∙ silent j stop (send start st) refl ∙ silent j start st refl)
  | inr (i, e) ↦ rw (flush_slot, e) (flush_slots-silent j ss st)
]

end_stream-silent :
    (j : ℕ) (st : StreamState)
    → deltas_at j (end_stream st).sent ≡ deltas_at j (close_open_block st).sent
unfolding end_stream delta_at
end_stream-silent j st =
    let st' = flush_slots st.tool_blocks (close_open_block st) in
    let reason =
      if is_nil st'.tool_blocks then stop_reason (or_stop st'.finish_reason) else "tool_use" in
    let last = message_delta reason (chat_usage st'.usage) in
    silent j message_stop (send last st') refl
    ∙ silent j last st' refl
    ∙ flush_slots-silent j st.tool_blocks (close_open_block st)

-- Each tool call with arguments has a block of its own among those of the message: the deltas of
-- that block are the call's arguments in the aggregation of the same chunks, and nothing else,
-- however the pieces of several calls and of the text alternate in the stream. A call without a
-- block there has no arguments.
pub stream_anthropic_events-arguments :
    (message_id : String) (new_id : ℕ → String) (model random_id : String) (now : ℕ)
    (chunks : List (Chunk ChatUsage))
    → let calls = (aggregate_sse random_id now (map chunk_line chunks)).tool_calls in
      let events = stream_anthropic_events message_id new_id model chunks in
      (block : ℕ → Option ℕ) × ((i j : ℕ)
        → block i ≡ some j
        → deltas_at j events ≡ arguments_at i calls)
      × ((i : ℕ) → block i ≡ none → arguments_at i calls ≡ "")
      × ((i i' j : ℕ) → block i ≡ some j → block i' ≡ some j → i ≡ i')
unfolding stream_anthropic_events
stream_anthropic_events-arguments message_id new_id model random_id now chunks =
    let st = on_chunks new_id chunks (start_stream message_id model) in
    let h =
      close-Args st _
        (on_chunks-Args new_id chunks _ _ (start_stream-Args new_id message_id model)) in
    let whole : (i : ℕ)
        → "" ++ₛ pieces i (map chunk_line chunks)
          ≡ arguments_at i (aggregate_sse random_id now (map chunk_line chunks)).tool_calls =
      λ i.
        nil-append (pieces i (map chunk_line chunks))
        ∙ sym (aggregate_sse-arguments random_id now i (map chunk_line chunks)) in
    (
      (λ i. place i (close_open_block st).tool_blocks),
      (λ i j p. end_stream-silent j st ∙ h.own i j p ∙ whole i),
      (λ i p. sym (whole i) ∙ h.unplaced i p),
      h.apart,
    )
