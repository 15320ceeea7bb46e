-- ===== src/Formats/Responses/Stream/Finished.antt =====
-- The items are finished, and the response with them.
use mathlib.Core.List.{append_assoc, append-nil}
use proxy_opencode.Prelude.{
  ℕ, suc, ◌+◌, ◌≡◌, ◌∙◌, refl, sym, ap, subst, String, true, Option, none, some, List, [], ◌∷◌,
  ◌++◌, map, length, arith, Option-cases, inl, inr,
}
use proxy_opencode.Formats.Responses.Stream.{
  Item, CallSlot, StreamState, send, sorted_calls, Setup, restored_name, close_message, close_calls,
  end_stream, message_item, function_call, output_text_done, content_part_done, output_item_done,
  arguments_done, response_completed,
}
use proxy_opencode.Formats.Responses.Stream.Reading.{
  over, Client, new_client, message_of, call_of, item_at, set_at, pending, read, read-send,
}
use proxy_opencode.Formats.Responses.Stream.Slots.{Shown-others}
use proxy_opencode.Formats.Responses.Stream.Invariant.{Inv, MessageIs, one_if, Shown-text}
use proxy_opencode.Formats.Responses.Stream.Closing.{
  Closing, read-text_done, read-part_done, read-arguments_done, read-message_done, read-call_done,
  closed, read-completed, pending-closed, All-sorted_calls, sorted_calls-Distinct,
  length-sorted_calls,
}

module _ (cfg : Setup) where
  -- The item of a call that is done, as the client gets it.
  abbrev pub done_call : CallSlot → Item
  done_call s = function_call s.item_id s.id (restored_name cfg s.name) s.arguments true

  abbrev pub done_message : Option ℕ → String → List Item
  done_message none t = []
  done_message (some i) t = message_item cfg.msg_id (some t) ∷ []

  close_calls-read :
      (ss : List CallSlot) (st : StreamState) (c : Client) (done : List Item)
      → Closing st c ss done
      → (c' : Client) × Closing (close_calls cfg ss st) c' [] (done ++ map done_call ss)
  unfolding close_calls send
  close_calls-read [] st c done h = (c, subst (Closing st c []) (sym (append-nil done)) h)
  close_calls-read (s ∷ ss) st c done h =
      let i = s.item_index in
      let shown = h.calls.0.shown in
      let name = restored_name cfg s.name in
      let next : Client = record c {
        items = set_at i (closed (call_of s.arguments)) c.items;
        finished = c.finished ++ (done_call s ∷ []);
      } in
      let (c', h') = close_calls-read ss _ next (done ++ (done_call s ∷ [])) (record {
        reads =
            read-send new_client _ _ (output_item_done i (done_call s))
              (read-send new_client st.sent _ (arguments_done s.item_id i s.arguments) h.reads
                (read-arguments_done c i s.item_id s.arguments h.phase shown))
              (read-call_done c i s.item_id s.arguments h.phase s.id name shown);
        phase = h.phase;
        calls = Shown-others c.items i (closed (call_of s.arguments)) ss h.apart.0 h.calls.1;
        apart = h.apart.1;
        waiting = pending-closed c.items i (call_of s.arguments) (length ss) shown refl h.waiting;
        finished = ap (λ f. f ++ (done_call s ∷ [])) h.finished;
      }) in
      (c', subst (Closing _ c' []) (append_assoc done (done_call s ∷ []) (map done_call ss)) h')

  close_message-read :
      (st : StreamState) (c : Client)
      → Inv st c
      → (c' : Client) × Closing
          (close_message cfg st)
          c'
          st.tool_calls
          (done_message st.msg_index st.text_buf)
  unfolding close_message send
  close_message-read st c h = elim (Option-cases st.msg_index) [
    | inl e ↦
        rw (close_message, e)
          (
            c,
            record {
              reads = h.reads;
              phase = h.phase;
              calls = h.calls;
              apart = h.apart;
              waiting = h.waiting ∙ ap (λ m. one_if m + length st.tool_calls) e ∙ omega arith;
              finished = h.finished;
            },
          )
    | inr (i, e) ↦
        let t = st.text_buf in
        let here : item_at i c.items ≡ some (message_of t) =
          subst (λ m. MessageIs c.items m t) e h.message in
        let next : Client = record c {
          items = set_at i (closed (message_of t)) c.items;
          finished = c.finished ++ (message_item cfg.msg_id (some t) ∷ []);
        } in
        let all : pending c.items ≡ suc (length st.tool_calls) =
          h.waiting ∙ ap (λ m. one_if m + length st.tool_calls) e ∙ omega arith in
        rw (close_message, e)
          (
            next,
            record {
              reads =
                  read-send new_client _ _ (output_item_done i (message_item cfg.msg_id (some t)))
                    (read-send new_client _ _ (content_part_done cfg.msg_id i t)
                      (read-send new_client st.sent _ (output_text_done cfg.msg_id i t) h.reads
                        (read-text_done c i cfg.msg_id t h.phase here))
                      (read-part_done c i cfg.msg_id t h.phase here))
                    (read-message_done c i cfg.msg_id t h.phase here);
              phase = h.phase;
              calls = Shown-text c.items i t (closed (message_of t)) st.tool_calls here h.calls;
              apart = h.apart;
              waiting =
                  pending-closed c.items i (message_of t) (length st.tool_calls) here refl all;
              finished = ap (λ f. f ++ (message_item cfg.msg_id (some t) ∷ [])) h.finished;
            },
          )
  ]

  -- All events are read; the finished items are the message, if there is one, and the calls.
  pub end_stream-read :
      (st : StreamState) (c : Client)
      → Inv st c
      → (c' : Client) × (read new_client (end_stream cfg st).sent ≡ some c')
        × (c'.phase ≡ over)
        × (c'.finished
            ≡ done_message st.msg_index st.text_buf ++ map done_call (sorted_calls st.tool_calls))
  unfolding end_stream send
  end_stream-read st c h =
      let (c1, h1) = close_message-read st c h in
      let ss = sorted_calls st.tool_calls in
      let (c2, h2) = close_calls-read ss (close_message cfg st) c1 _ (record {
        reads = h1.reads;
        phase = h1.phase;
        calls = All-sorted_calls _ st.tool_calls h1.calls;
        apart = sorted_calls-Distinct st.tool_calls h1.apart;
        waiting = h1.waiting ∙ sym (length-sorted_calls st.tool_calls);
        finished = h1.finished;
      }) in
      (
        record c2 { phase = over },
        read-send new_client _ _ (response_completed _) h2.reads
            (read-completed c2 _ h2.phase h2.waiting),
        refl,
        h2.finished,
      )
