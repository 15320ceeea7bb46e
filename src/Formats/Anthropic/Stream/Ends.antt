-- ===== src/Formats/Anthropic/Stream/Ends.antt =====
-- The loop over the chunks and the end of the stream.
use proxy_opencode.Prelude.{
  ap, if◌then◌else◌, ℕ, suc, ◌-◌, ◌≡◌, ◌∙◌, refl, sym, subst, String, true, Option, none, some,
  List, [], ◌∷◌, ◌++◌, arith, Option-cases, inl, inr,
}
use proxy_opencode.Zen.Aggregate.{is_nil, Choice, Chunk, latest}
use proxy_opencode.Formats.Anthropic.Stream.{
  stop_reason, chat_usage, or_stop, Kind, thinking, text, tool, tool_use, content_block_start,
  content_block_stop, message_delta, message_stop, Usage, ChatUsage, StreamState, ToolBlock, send,
  close_open_block, on_choice, on_choices, on_chunks, flush_slot, flush_slots, end_stream,
  start_stream,
}
use proxy_opencode.Formats.Anthropic.Stream.Reading.{
  reading, ended, over, Client, new_client, kind_of, none_open, read_event, read, said, read-send,
  is_reading,
}
use proxy_opencode.Formats.Anthropic.Stream.Accepted.{
  OpenIs, Followed, close_open_block-Inv, started, stopped,
}
use proxy_opencode.Formats.Anthropic.Stream.Spoken.{on_reasoning-Inv, on_text-Inv}
use proxy_opencode.Formats.Anthropic.Stream.Calls.{on_calls-Inv}

-- The notes of the finish reason and of the usage are not sent.
noted :
    (st : StreamState) (reason : Option String) (usage : Option ChatUsage)
    → Followed st
    → Followed (record st { finish_reason = reason; usage = usage })
noted st reason usage (c, h) = (
  c,
  record {
    reads = h.reads;
    phase = h.phase;
    count = h.count;
    opened = h.opened;
    slots = h.slots;
    thought = h.thought;
    told = h.told;
  },
)

on_choices-Inv :
    (new_id : ℕ → String) (cs : List Choice) (st : StreamState)
    → Followed st
    → Followed (on_choices new_id cs st)
unfolding on_choices on_choice
on_choices-Inv new_id [] st f = f
on_choices-Inv new_id (c ∷ cs) st f = on_choices-Inv new_id cs (on_choice new_id c st) (
    on_calls-Inv new_id c.tool_calls _ (
      on_text-Inv c.content _ (
        on_reasoning-Inv c.reasoning_content _
          (noted st (latest c.finish_reason st.finish_reason) st.usage f))))

pub on_chunks-Inv :
    (new_id : ℕ → String) (cs : List (Chunk ChatUsage)) (st : StreamState)
    → Followed st
    → Followed (on_chunks new_id cs st)
unfolding on_chunks
on_chunks-Inv new_id [] st f = f
on_chunks-Inv new_id (c ∷ cs) st f =
    on_chunks-Inv new_id cs _
      (on_choices-Inv new_id c.choices _ (noted st st.finish_reason (latest c.usage st.usage) f))

pub start_stream-Inv : (message_id model : String) → Followed (start_stream message_id model)
unfolding start_stream read read_event said none_open
start_stream-Inv message_id model = (
  record { phase = reading; blocks = []; ending = none },
  record {
    reads = refl;
    phase = refl;
    count = refl;
    opened = refl;
    slots = tt;
    thought = refl;
    told = refl;
  },
)

flush_slot-Inv :
    (s : ToolBlock) (st : StreamState)
    → Followed st × (st.open_type ≡ none)
    → Followed (flush_slot s st) × ((flush_slot s st).open_type ≡ none)
unfolding flush_slot send
flush_slot-Inv s st ((c, h), e) = elim (Option-cases s.block_index) [
  | inl p ↦
      let flushed : ℕ → Option Kind → StreamState = λ n o. record st {
        blocks = suc st.blocks;
        open_type = o;
        sent =
            (st.sent ++ (content_block_start st.blocks (tool_use s.id s.name) ∷ []))
            ++ (content_block_stop n ∷ []);
      } in
      let h' = started st c tool (tool_use s.id s.name) (unfold kind_of in refl) h e in
      let h'' = stopped _ _ tool h' refl in
      let before : suc st.blocks - 1 ≡ st.blocks = omega arith in
      rw (flush_slot, p)
        (
          subst (λ o. Followed (flushed st.blocks o)) (sym e)
              (subst (λ n. Followed (flushed n none)) before (_, h'')),
          e,
        )
  | inr (i, p) ↦ rw (flush_slot, p) ((c, h), e)
]

flush_slots-Inv :
    (ss : List ToolBlock) (st : StreamState)
    → Followed st × (st.open_type ≡ none)
    → Followed (flush_slots ss st) × ((flush_slots ss st).open_type ≡ none)
unfolding flush_slots
flush_slots-Inv [] st f = f
flush_slots-Inv (s ∷ ss) st f = flush_slots-Inv ss (flush_slot s st) (flush_slot-Inv s st f)

-- What the end of the stream leaves as it is.
abbrev kept : StreamState → (String × String) × (List ToolBlock × Option ChatUsage × Option String)
kept st = ((st.think_buf, st.text_buf), (st.tool_blocks, st.usage, st.finish_reason))

flush_slots-kept : (ss : List ToolBlock) (st : StreamState) → kept (flush_slots ss st) ≡ kept st
unfolding flush_slots flush_slot send
flush_slots-kept [] st = refl
flush_slots-kept (s ∷ ss) st = elim (Option-cases s.block_index) [
  | inl p ↦ rw (flush_slot, p) (flush_slots-kept ss _)
  | inr (i, p) ↦ rw (flush_slot, p) (flush_slots-kept ss st)
]

close_open_block-kept : (st : StreamState) → kept (close_open_block st) ≡ kept st
unfolding close_open_block send
close_open_block-kept st = elim (Option-cases st.open_type) [
  | inl p ↦ rw (close_open_block, p) refl
  | inr (k, p) ↦ rw (close_open_block, p) refl
]

-- The stop reason and the usage that the client gets.
abbrev pub ending_of : StreamState → String × Usage
ending_of st = (
  if is_nil st.tool_blocks then stop_reason (or_stop st.finish_reason) else "tool_use",
  chat_usage st.usage,
)

read_event-message_delta :
    (reason : String) (usage : Usage) (c : Client)
    → c.phase ≡ reading
    → none_open c.blocks ≡ true
    → read_event (message_delta reason usage) c
      ≡ some (record c { phase = ended; ending = some (reason, usage) })
unfolding read_event is_reading
read_event-message_delta reason usage c p o = ground (arith, p, o)

-- All that follows the loop is read, too.
pub end_stream-read :
    (st : StreamState)
    → Followed st
    → (c : Client) × (read new_client (end_stream st).sent ≡ some c)
      × (c.phase ≡ over)
      × (said thinking c.blocks ≡ st.think_buf)
      × (said text c.blocks ≡ st.text_buf)
      × (c.ending ≡ some (ending_of st))
unfolding end_stream send
end_stream-read st (c, h) =
    let (c', h', e) = close_open_block-Inv st c h in
    let closed = close_open_block st in
    let ((c'', h''), e') = flush_slots-Inv st.tool_blocks closed ((c', h'), e) in
    let shut : none_open c''.blocks ≡ true = subst (λ o. OpenIs o c''.blocks) e' h''.opened in
    let same = flush_slots-kept st.tool_blocks closed ∙ close_open_block-kept st in
    (
      record {
        phase = over;
        blocks = c''.blocks;
        ending = some (ending_of (flush_slots st.tool_blocks closed));
      },
      read-send new_client _ message_stop
          (read-send new_client _ (message_delta _ _) h''.reads
            (read_event-message_delta _ _ c'' h''.phase shut))
          (unfold read_event in refl),
      refl,
      h''.thought ∙ ap (λ q. q.0.0) same,
      h''.told ∙ ap (λ q. q.0.1) same,
      ap
          (λ q.
            some
              (if is_nil q.1.0 then stop_reason (or_stop q.1.2) else "tool_use", chat_usage q.1.1))
          same,
    )
