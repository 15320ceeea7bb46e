-- ===== src/Formats/Responses/Stream/Numbers.antt =====
-- The sequence numbers of the events.
use proxy_opencode.Prelude.{
  ℕ, zero, suc, ◌≡◌, ◌∙◌, refl, ap, String, not, ◌&&◌, ◌||◌, List, [], ◌∷◌, ◌++◌, map, Bool-cases,
  Option-cases, inl, inr,
}
use proxy_opencode.Zen.Aggregate.{CallDelta, Choice, Chunk, is_empty}
use proxy_opencode.Formats.Responses.Stream.{
  ChatUsage, Event, CallSlot, StreamState, send, Setup, open_message, on_text, slot_for, merged,
  announce, send_arguments, on_call, on_calls, on_choice, on_choices, on_chunks, close_message,
  close_calls, sorted_calls, end_stream, start_stream, stream_responses_events,
}

-- The numbers from 1 to n.
unfoldable pub up_to : ℕ → List ℕ
up_to zero = []
up_to (suc n) = up_to n ++ (suc n ∷ [])

abbrev numbers : List (ℕ × Event) → List ℕ
numbers = map (λ x. x.0)

record Numbered (st : StreamState) : Type 0 where
  in_order : numbers st.sent ≡ up_to st.seq

numbers-append : (xs ys : List (ℕ × Event)) → numbers (xs ++ ys) ≡ numbers xs ++ numbers ys
numbers-append [] ys = refl
numbers-append (x ∷ xs) ys = ap (λ ns. x.0 ∷ ns) (numbers-append xs ys)

next : {st : StreamState} (e : Event) → Numbered st → Numbered (send e st)
unfolding send up_to
next {st} e h = record {
  in_order =
      numbers-append st.sent ((suc st.seq, e) ∷ []) ∙ ap (λ ns. ns ++ (suc st.seq ∷ [])) h.in_order;
}

module _ (cfg : Setup) where
  open_message-Numbered : (st : StreamState) → Numbered st → Numbered (open_message cfg st)
  unfolding open_message
  open_message-Numbered st h = elim (Option-cases st.msg_index) [
    | inl e ↦ rw (open_message, e) (next _ (next _ (record { in_order = h.in_order })))
    | inr (i, e) ↦ rw (open_message, e) h
  ]

  on_text-Numbered :
      (piece : String) (st : StreamState) → Numbered st → Numbered (on_text cfg piece st)
  unfolding on_text
  on_text-Numbered piece st h = elim (Bool-cases (is_empty piece)) [
    | inl e ↦ rw (on_text, e) h
    | inr e ↦ rw (on_text, e) (next _ (record { in_order = (open_message-Numbered st h).in_order }))
  ]

  announce-Numbered : (s : CallSlot) (st : StreamState) → Numbered st → Numbered (announce cfg s st)
  unfolding announce
  announce-Numbered s st h =
      elim (Bool-cases (not s.announced && (not (is_empty s.id) || not (is_empty s.name)))) [
        | inl e ↦ rw (announce, e) (next _ (record { in_order = h.in_order }))
        | inr e ↦ rw (announce, e) (record { in_order = h.in_order })
      ]

  send_arguments-Numbered :
      (piece : String) (s : CallSlot) (st : StreamState)
      → Numbered st
      → Numbered (send_arguments cfg piece s st)
  unfolding send_arguments
  send_arguments-Numbered piece s st h = elim (Bool-cases (not (is_empty piece) && s.announced)) [
    | inl e ↦ rw (send_arguments, e) (next _ h)
    | inr e ↦ rw (send_arguments, e) h
  ]

  on_call-Numbered : (d : CallDelta) (st : StreamState) → Numbered st → Numbered (on_call cfg d st)
  unfolding on_call
  on_call-Numbered d st h =
      let s = merged cfg d (slot_for cfg d.index st.tool_calls) in
      let st' = announce cfg s st in
      send_arguments-Numbered d.arguments (slot_for cfg d.index st'.tool_calls) st'
        (announce-Numbered s st h)

  on_calls-Numbered :
      (ds : List CallDelta) (st : StreamState) → Numbered st → Numbered (on_calls cfg ds st)
  unfolding on_calls
  on_calls-Numbered [] st h = h
  on_calls-Numbered (d ∷ ds) st h =
      on_calls-Numbered ds (on_call cfg d st) (on_call-Numbered d st h)

  on_choices-Numbered :
      (cs : List Choice) (st : StreamState) → Numbered st → Numbered (on_choices cfg cs st)
  unfolding on_choices on_choice
  on_choices-Numbered [] st h = h
  on_choices-Numbered (c ∷ cs) st h = on_choices-Numbered cs (on_choice cfg c st) (
      on_calls-Numbered c.tool_calls _
        (on_text-Numbered c.content _ (record { in_order = h.in_order })))

  on_chunks-Numbered :
      (cs : List (Chunk ChatUsage)) (st : StreamState)
      → Numbered st
      → Numbered (on_chunks cfg cs st)
  unfolding on_chunks
  on_chunks-Numbered [] st h = h
  on_chunks-Numbered (c ∷ cs) st h =
      on_chunks-Numbered cs _ (on_choices-Numbered c.choices _ (record { in_order = h.in_order }))

  close_message-Numbered : (st : StreamState) → Numbered st → Numbered (close_message cfg st)
  unfolding close_message
  close_message-Numbered st h = elim (Option-cases st.msg_index) [
    | inl e ↦ rw (close_message, e) h
    | inr (i, e) ↦ rw (close_message, e) (next _ (next _ (next _ h)))
  ]

  close_calls-Numbered :
      (ss : List CallSlot) (st : StreamState) → Numbered st → Numbered (close_calls cfg ss st)
  unfolding close_calls
  close_calls-Numbered [] st h = h
  close_calls-Numbered (s ∷ ss) st h = close_calls-Numbered ss _ (next _ (next _ h))

  start_stream-Numbered : Numbered (start_stream cfg)
  unfolding start_stream send up_to
  start_stream-Numbered = record { in_order = refl }

  end_stream-Numbered : (st : StreamState) → Numbered st → Numbered (end_stream cfg st)
  unfolding end_stream
  end_stream-Numbered st h =
      next _ (close_calls-Numbered (sorted_calls st.tool_calls) _ (close_message-Numbered st h))

  -- The events of a response have the sequence numbers 1, 2, 3 and so on, in the order in which they
  -- are sent.
  pub stream_responses_events-numbered :
      (chunks : List (Chunk ChatUsage))
      → (n : ℕ) × (map (λ x. x.0) (stream_responses_events cfg chunks) ≡ up_to n)
  unfolding stream_responses_events
  stream_responses_events-numbered chunks =
      let st = on_chunks cfg chunks (start_stream cfg) in
      let last =
        end_stream-Numbered st
          (on_chunks-Numbered chunks (start_stream cfg) start_stream-Numbered) in
      ((end_stream cfg st).seq, last.in_order)
