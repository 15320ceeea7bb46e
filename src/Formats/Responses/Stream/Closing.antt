-- ===== src/Formats/Responses/Stream/Closing.antt =====
-- The events that finish the items, and the sort of the calls at the end of a stream.
use proxy_opencode.Prelude.{
  ℕ, suc, ◌≡◌, ◌≢◌, ◌∙◌, refl, sym, ap, String, true, false, some, List, [], ◌∷◌, ◌++◌, length, All,
  arith, leb, Bool-cases, eq_refl, inl, inr,
}
use proxy_opencode.Formats.Responses.Stream.{
  Item, CallSlot, StreamState, insert_call, sorted_calls, message_item, function_call,
  output_text_done, content_part_done, output_item_done, arguments_done, response_completed,
  Envelope,
}
use proxy_opencode.Formats.Responses.Stream.Reading.{
  Read, reading, over, Client, new_client, message_of, call_of, item_at, set_at, pending,
  read_event, read, read_whole, read_done, if_reading-yes, pending-set_at,
}
use proxy_opencode.Formats.Responses.Stream.Slots.{Shown, Distinct}

-- An item that is done.
abbrev pub closed : Read → Read
closed r = record r { unfinished = false }

module _ (c : Client) (i : ℕ) (id t : String) (p : c.phase ≡ reading) where
  pub read-text_done :
      item_at i c.items ≡ some (message_of t) → read_event (output_text_done id i t) c ≡ some c
  unfolding read_event read_whole
  read-text_done e = if_reading-yes c _ p ∙ rw (read_whole, e, eq_refl t) refl

  pub read-part_done :
      item_at i c.items ≡ some (message_of t) → read_event (content_part_done id i t) c ≡ some c
  unfolding read_event read_whole
  read-part_done e = if_reading-yes c _ p ∙ rw (read_whole, e, eq_refl t) refl

  pub read-arguments_done :
      item_at i c.items ≡ some (call_of t) → read_event (arguments_done id i t) c ≡ some c
  unfolding read_event read_whole
  read-arguments_done e = if_reading-yes c _ p ∙ rw (read_whole, e, eq_refl t) refl

  pub read-message_done :
      item_at i c.items ≡ some (message_of t)
      → read_event (output_item_done i (message_item id (some t))) c
        ≡ some (record c {
          items = set_at i (closed (message_of t)) c.items;
          finished = c.finished ++ (message_item id (some t) ∷ []);
        })
  unfolding read_event read_done
  read-message_done e = if_reading-yes c _ p ∙ rw (read_done, e, eq_refl t) refl

  pub read-call_done :
      (call_id name : String)
      → item_at i c.items ≡ some (call_of t)
      → read_event (output_item_done i (function_call id call_id name t true)) c
        ≡ some (record c {
          items = set_at i (closed (call_of t)) c.items;
          finished = c.finished ++ (function_call id call_id name t true ∷ []);
        })
  unfolding read_event read_done
  read-call_done call_id name e = if_reading-yes c _ p ∙ rw (read_done, e, eq_refl t) refl

pub read-completed :
    (c : Client) (e : Envelope)
    → c.phase ≡ reading
    → pending c.items ≡ 0
    → read_event (response_completed e) c ≡ some (record c { phase = over })
unfolding read_event
read-completed c e p w = if_reading-yes c _ p ∙ ground (arith, w)

-- The calls that are still to be closed are the items that are not finished.
pub record Closing (st : StreamState) (c : Client) (rest : List CallSlot) (done : List Item)
    : Type 0 where
  pub reads : read new_client st.sent ≡ some c
  pub phase : c.phase ≡ reading
  pub calls : All (Shown c.items) rest
  pub apart : Distinct rest
  pub waiting : pending c.items ≡ length rest
  pub finished : c.finished ≡ done

pub pending-closed :
    (items : List Read) (i : ℕ) (r : Read) (n : ℕ)
    → item_at i items ≡ some r
    → r.unfinished ≡ true
    → pending items ≡ suc n
    → pending (set_at i (closed r) items) ≡ n
pending-closed items i r n e u p = ground (arith, pending-set_at i (closed r) r items e, u, p)

-- Sorting keeps what holds of the calls.
All-insert_call :
    (P : CallSlot → Type 0) (s : CallSlot) (ss : List CallSlot)
    → P s
    → All P ss
    → All P (insert_call s ss)
unfolding insert_call
All-insert_call P s [] h hs = (h, tt)
All-insert_call P s (t ∷ ts) h hs = elim (Bool-cases (leb s.index t.index)) [
  | inl e ↦ rw e (h, hs)
  | inr e ↦ rw e (hs.0, All-insert_call P s ts h hs.1)
]

pub All-sorted_calls :
    (P : CallSlot → Type 0) (ss : List CallSlot) → All P ss → All P (sorted_calls ss)
unfolding sorted_calls
All-sorted_calls P [] h = tt
All-sorted_calls P (s ∷ ss) h =
    All-insert_call P s (sorted_calls ss) h.0 (All-sorted_calls P ss h.1)

insert_call-Distinct :
    (s : CallSlot) (ss : List CallSlot)
    → All (λ t. s.item_index ≢ t.item_index) ss
    → Distinct ss
    → Distinct (insert_call s ss)
unfolding insert_call
insert_call-Distinct s [] a d = (tt, tt)
insert_call-Distinct s (t ∷ ts) a d = elim (Bool-cases (leb s.index t.index)) [
  | inl e ↦ rw e (a, d)
  | inr e ↦ rw e (All-insert_call _ s ts (λ q. a.0 (sym q)) d.0, insert_call-Distinct s ts a.1 d.1)
]

pub sorted_calls-Distinct : (ss : List CallSlot) → Distinct ss → Distinct (sorted_calls ss)
unfolding sorted_calls
sorted_calls-Distinct [] d = tt
sorted_calls-Distinct (s ∷ ss) d =
    insert_call-Distinct s (sorted_calls ss)
      (All-sorted_calls (λ t. s.item_index ≢ t.item_index) ss d.0) (sorted_calls-Distinct ss d.1)

length-insert_call :
    (s : CallSlot) (ss : List CallSlot) → length (insert_call s ss) ≡ suc (length ss)
unfolding insert_call
length-insert_call s [] = refl
length-insert_call s (t ∷ ts) = ground (arith, length-insert_call s ts)

pub length-sorted_calls : (ss : List CallSlot) → length (sorted_calls ss) ≡ length ss
unfolding sorted_calls
length-sorted_calls [] = refl
length-sorted_calls (s ∷ ss) =
    length-insert_call s (sorted_calls ss) ∙ ap suc (length-sorted_calls ss)
