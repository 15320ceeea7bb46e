-- ===== src/Formats/Responses/Stream/Whole.antt =====
-- The events of a response are read, and say what the aggregation of the same chunks says.
use proxy_opencode.Prelude.{
  ℕ, ◌≡◌, ◌∙◌, refl, ap, String, true, false, Option, none, some, List, [], ◌∷◌, ◌++◌, map, arith,
  eq_iff, if◌then◌else◌,
}
use proxy_opencode.Zen.Aggregate.{
  Chunk, chunk_line, Slot, is_empty, join, gather, ordered, complete, nothing_yet, aggregate_sse,
}
use proxy_opencode.Formats.Responses.Stream.{
  ChatUsage, Item, message_item, function_call, CallSlot, sorted_calls, Setup, restored_name,
  on_chunks, start_stream, stream_responses_events,
}
use proxy_opencode.Formats.Responses.Stream.Reading.{Client, over, new_client, read}
use proxy_opencode.Formats.Responses.Stream.Finished.{done_call, done_message, end_stream-read}
use proxy_opencode.Formats.Responses.Stream.Effects.{View, view, slot_view, sorted_calls-ordered}
use proxy_opencode.Formats.Responses.Stream.Held.{
  calls_named, deltas, Told, on_chunks-Held, start_stream-Held,
}

module _ (cfg : Setup) where
  -- The item of a call of the aggregation, and the items of an answer.
  abbrev pub item_of : Slot → Item
  item_of g = function_call (cfg.item_id g.index) g.id (restored_name cfg g.name) g.arguments true

  abbrev pub message_of_text : String → List Item
  message_of_text t = if is_empty t then [] else message_item cfg.msg_id (some t) ∷ []

  done_message-text :
      (m : Option ℕ) (t : String) → Told m t → done_message cfg m t ≡ message_of_text t
  done_message-text none t v = rw v refl
  done_message-text (some i) t v =
      let e : is_empty t ≡ false = ground (arith, eq_iff t "", v) in rw e refl

  -- An item by its view.
  by_view : View → Item
  by_view (i, id, name, arguments, item_id) =
      function_call item_id id (restored_name cfg name) arguments true

  map-by_view : (ss : List CallSlot) → map (done_call cfg) ss ≡ map by_view (map view ss)
  unfolding by_view
  map-by_view [] = refl
  map-by_view (s ∷ ss) = ap (λ xs. done_call cfg s ∷ xs) (map-by_view ss)

  map-item_of : (gs : List Slot) → map by_view (map (slot_view cfg) gs) ≡ map item_of gs
  unfolding by_view
  map-item_of [] = refl
  map-item_of (g ∷ gs) = ap (λ xs. item_of g ∷ xs) (map-item_of gs)

  -- If the first delta of each tool call has an id or a name, a client reads the events of the
  -- response without a fault, to the end: each item is added at the next output index, no delta or
  -- done event names an item that is not there, is of another kind or is done, the text or the
  -- arguments that are repeated at the end are those that came in pieces, and every item is done
  -- before the response is completed. The items that are done are those of the aggregation of the
  -- same chunks: a message with its text, unless that is empty, and its tool calls in the order of
  -- their indices, with their ids and arguments and with the names that the client declared.
  pub stream_responses_events-read :
      (random_id : String) (now : ℕ) (chunks : List (Chunk ChatUsage))
      → let whole = aggregate_sse random_id now (map chunk_line chunks) in
        calls_named [] (deltas chunks) ≡ true
        → (c : Client) × (read new_client (stream_responses_events cfg chunks) ≡ some c)
          × (c.phase ≡ over)
          × (c.finished ≡ message_of_text whole.content ++ map item_of whole.tool_calls)
  unfolding stream_responses_events aggregate_sse complete
  stream_responses_events-read random_id now chunks n =
      let st = on_chunks cfg chunks (start_stream cfg) in
      let g = gather (map chunk_line chunks) (nothing_yet now) in
      let (seen, h) =
        on_chunks-Held cfg chunks [] (start_stream cfg) (nothing_yet now) n
          (start_stream-Held cfg now) in
      let (c, inv) = h.followed in
      let (c', reads, phase, finished) = end_stream-read cfg st c inv in
      let texts : done_message cfg st.msg_index st.text_buf
          ≡ message_of_text (join g.content_parts) =
        done_message-text st.msg_index st.text_buf h.voice ∙ ap message_of_text h.text in
      let calls : map (done_call cfg) (sorted_calls st.tool_calls)
          ≡ map item_of (ordered g.tool_calls) =
        map-by_view (sorted_calls st.tool_calls)
        ∙ ap (map by_view) (sorted_calls-ordered cfg st.tool_calls g.tool_calls h.calls)
        ∙ map-item_of (ordered g.tool_calls) in
      (c', reads, phase, finished ∙ λ i. texts i ++ calls i)
