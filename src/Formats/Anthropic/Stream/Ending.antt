-- ===== src/Formats/Anthropic/Stream/Ending.antt =====
-- The stop reason and the usage of a stream, and those of the answer that is put together from it.
use proxy_opencode.Prelude.{
  ℕ, ◌-◌, ◌≡◌, ◌∙◌, refl, sym, ap, String, Bool, false, Option, some, List, [], ◌∷◌, map, ◌==◌,
  if◌then◌else◌, Bool-cases, Option-cases, inl, inr,
}
use proxy_opencode.Zen.Aggregate.{
  CallDelta, Choice, Chunk, chunk_line, Slot, is_empty, is_nil, latest, merge_call,
  merge_tool_call_delta, Gathered, gather_choice, gather_choices, gather_chunk, gather,
}
use proxy_opencode.Formats.Anthropic.Stream.{
  Kind, tool, thinking, text, Block, tool_use, empty_thinking, empty_text, is_open, StreamState,
  ToolBlock, ChatUsage, send, close_open_block, open_block, on_reasoning, on_text, on_arguments,
  on_call, on_calls, on_choice, on_choices, on_chunks, put_slot, with_name, slot_for,
}

-- The finish reason, the usage, and whether there are no tool calls.
abbrev pub End : Type 0
End = Option String × Option ChatUsage × Bool

abbrev pub noted : StreamState → End
noted st = (st.finish_reason, st.usage, is_nil st.tool_blocks)

abbrev pub gathered : Gathered ChatUsage → End
gathered g = (g.finish_reason, g.usage, is_nil g.tool_calls)

noted-open_block : (k : Kind) (b : Block) (st : StreamState) → noted (open_block k b st) ≡ noted st
unfolding open_block close_open_block send
noted-open_block k b st = elim (Option-cases st.open_type) [
  | inl e ↦ rw (close_open_block, e) refl
  | inr (o, e) ↦ rw (close_open_block, e) refl
]

noted-ready :
    (k : Kind) (b : Block) (st : StreamState)
    → noted (if is_open k st.open_type then st else open_block k b st) ≡ noted st
noted-ready k b st = elim (Bool-cases (is_open k st.open_type)) [
  | inl e ↦ rw e refl
  | inr e ↦ rw e (noted-open_block k b st)
]

noted-on_reasoning : (r : String) (st : StreamState) → noted (on_reasoning r st) ≡ noted st
unfolding on_reasoning send
noted-on_reasoning r st = elim (Bool-cases (is_empty r)) [
  | inl e ↦ rw (on_reasoning, e) refl
  | inr e ↦ rw (on_reasoning, e) (noted-ready thinking empty_thinking st)
]

noted-on_text : (t : String) (st : StreamState) → noted (on_text t st) ≡ noted st
unfolding on_text send
noted-on_text t st = elim (Bool-cases (is_empty t)) [
  | inl e ↦ rw (on_text, e) refl
  | inr e ↦ rw (on_text, e) (noted-ready text empty_text st)
]

is_nil-put_slot : (s : ToolBlock) (ss : List ToolBlock) → is_nil (put_slot s ss) ≡ false
unfolding put_slot
is_nil-put_slot s [] = refl
is_nil-put_slot s (t ∷ ts) = elim (Bool-cases (t.index == s.index)) [
  | inl e ↦ rw e refl
  | inr e ↦ rw e refl
]

is_nil-merge_call : (d : CallDelta) (ss : List Slot) → is_nil (merge_call d ss) ≡ false
unfolding merge_call
is_nil-merge_call d [] = refl
is_nil-merge_call d (s ∷ ss) = elim (Bool-cases (s.index == d.index)) [
  | inl e ↦ rw e refl
  | inr e ↦ rw e refl
]

-- A piece of arguments adds no tool call to those there are.
noted-on_arguments :
    (piece : String) (s : ToolBlock) (st : StreamState)
    → is_nil st.tool_blocks ≡ false
    → noted (on_arguments piece s st) ≡ noted st
unfolding on_arguments send
noted-on_arguments piece s st some_calls = elim (Option-cases s.block_index) [
  | inl e ↦ elim (Bool-cases (is_empty piece)) [
    | inl p ↦ rw (on_arguments, e, p) refl
    | inr p ↦
        let opened = open_block tool (tool_use s.id s.name) st in
        let same = noted-open_block tool (tool_use s.id s.name) st in
        let put =
          is_nil-put_slot (record s { block_index = some (opened.blocks - 1) })
            opened.tool_blocks in
        rw (on_arguments, e, p) (λ i. ((same i).0, (same i).1, (put ∙ sym some_calls) i))
  ]
  | inr (i, e) ↦ elim (Bool-cases (is_empty piece)) [
    | inl p ↦ rw (on_arguments, e, p) refl
    | inr p ↦ rw (on_arguments, e, p) refl
  ]
]

noted-on_call :
    (new_id : ℕ → String) (d : CallDelta) (st : StreamState)
    → noted (on_call new_id d st) ≡ (st.finish_reason, st.usage, false)
unfolding on_call
noted-on_call new_id d st =
    let some_calls =
      is_nil-put_slot (with_name d.name (slot_for new_id d st.tool_blocks)) st.tool_blocks in
    noted-on_arguments d.arguments _ _ some_calls
    ∙ ap (λ b. (st.finish_reason, st.usage, b)) some_calls

noted-on_calls :
    (new_id : ℕ → String) (ds : List CallDelta) (st : StreamState) (ss : List Slot)
    → is_nil st.tool_blocks ≡ is_nil ss
    → noted (on_calls new_id ds st)
      ≡ (st.finish_reason, st.usage, is_nil (merge_tool_call_delta ds ss))
unfolding on_calls merge_tool_call_delta
noted-on_calls new_id [] st ss e = ap (λ b. (st.finish_reason, st.usage, b)) e
noted-on_calls new_id (d ∷ ds) st ss e =
    let now = noted-on_call new_id d st in
    noted-on_calls new_id ds (on_call new_id d st) (merge_call d ss)
      (ap (λ n. n.2) now ∙ sym (is_nil-merge_call d ss))
    ∙ ap (λ n. (n.0, n.1, is_nil (merge_tool_call_delta ds (merge_call d ss)))) now

noted-on_choice :
    (new_id : ℕ → String) (c : Choice) (st : StreamState) (g : Gathered ChatUsage)
    → noted st ≡ gathered g
    → noted (on_choice new_id c st) ≡ gathered (gather_choice c g)
unfolding on_choice gather_choice
noted-on_choice new_id c st g e =
    let st' = record st { finish_reason = latest c.finish_reason st.finish_reason } in
    let same =
      noted-on_text c.content (on_reasoning c.reasoning_content st')
      ∙ noted-on_reasoning c.reasoning_content st' in
    noted-on_calls new_id c.tool_calls _ g.tool_calls
      (ap (λ n. n.2) (same ∙ ap (λ n. (latest c.finish_reason n.0, n.1, n.2)) e))
    ∙ ap (λ n. (n.0, n.1, is_nil (merge_tool_call_delta c.tool_calls g.tool_calls)))
        (same ∙ ap (λ n. (latest c.finish_reason n.0, n.1, n.2)) e)

noted-on_choices :
    (new_id : ℕ → String) (cs : List Choice) (st : StreamState) (g : Gathered ChatUsage)
    → noted st ≡ gathered g
    → noted (on_choices new_id cs st) ≡ gathered (gather_choices cs g)
unfolding on_choices gather_choices
noted-on_choices new_id [] st g e = e
noted-on_choices new_id (c ∷ cs) st g e =
    noted-on_choices new_id cs (on_choice new_id c st) (gather_choice c g)
      (noted-on_choice new_id c st g e)

-- The stream notes what the aggregation gathers.
pub noted-on_chunks :
    (new_id : ℕ → String) (cs : List (Chunk ChatUsage)) (st : StreamState) (g : Gathered ChatUsage)
    → noted st ≡ gathered g
    → noted (on_chunks new_id cs st) ≡ gathered (gather (map chunk_line cs) g)
unfolding on_chunks gather gather_chunk
noted-on_chunks new_id [] st g e = e
noted-on_chunks new_id (c ∷ cs) st g e =
    noted-on_chunks new_id cs _ (gather_chunk c g)
      (noted-on_choices new_id c.choices _ _ (ap (λ n. (n.0, latest c.usage n.1, n.2)) e))
