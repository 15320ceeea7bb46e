-- ===== src/Formats/Responses/Stream/Invariant.antt =====
-- What the client of a response has read so far, and that the loop over the chunks keeps it.
use Prim.Native.String.{◌++◌ as ◌++ₛ◌}
use mathlib.Core.Option.{some-injective}
use proxy_opencode.Prelude.{
  ℕ, suc, ◌+◌, ◌≡◌, ◌≢◌, ◌∙◌, refl, sym, ap, subst, String, true, false, Option, none, some, List,
  [], ◌∷◌, length, All, All-imp, arith, Bool-cases, Option-cases, inl, inr,
}
use proxy_opencode.Zen.Aggregate.{is_empty}
use proxy_opencode.Formats.Responses.Stream.{
  CallSlot, StreamState, send, or_first, Setup, open_message, on_text, output_item_added,
  content_part_added, output_text_delta, arguments_delta, message_item,
}
use proxy_opencode.Formats.Responses.Stream.Reading.{
  Read, reading, Client, new_client, message_of, call_of, item_at, set_at, pending, read_event,
  read, read_delta, read_whole, if_reading-yes, is_reading, new_item, read-send, item_at-next,
  length-set_at, item_at-set_at, item_at-set_other, pending-set_at,
}
use proxy_opencode.Formats.Responses.Stream.Slots.{Shown, Distinct}

abbrev pub MessageIs : List Read → Option ℕ → String → Type 0
MessageIs items none t = Unit
MessageIs items (some i) t = item_at i items ≡ some (message_of t)

abbrev pub one_if : Option ℕ → ℕ
one_if none = 0
one_if (some i) = 1

pub record Inv (st : StreamState) (c : Client) : Type 0 where
  pub reads : read new_client st.sent ≡ some c
  pub phase : c.phase ≡ reading
  pub count : length c.items ≡ st.next_item_index
  pub message : MessageIs c.items st.msg_index st.text_buf
  pub calls : All (Shown c.items) st.tool_calls
  pub apart : Distinct st.tool_calls
  pub waiting : pending c.items ≡ one_if st.msg_index + length st.tool_calls
  pub finished : c.finished ≡ []

abbrev pub Followed : StreamState → Type 0
Followed st = (c : Client) × Inv st c

pub Shown-next :
    (b : Read) (items : List Read) (ss : List CallSlot)
    → All (Shown items) ss
    → All (Shown (b ∷ items)) ss
Shown-next b items ss h =
    All-imp _ _ ss
      (λ s p. record { announced = p.announced; shown = item_at-next s.item_index b items p.shown })
      h

pub item_at-newest :
    (i : ℕ) (b : Read) (items : List Read) → length items ≡ i → item_at i (b ∷ items) ≡ some b
unfolding item_at
item_at-newest i b items e = ground (arith, e)

pub read-item_added :
    (c : Client) (i : ℕ) (item : _)
    → c.phase ≡ reading
    → length c.items ≡ i
    → read_event (output_item_added i item) c ≡ some (record c { items = new_item item ∷ c.items })
unfolding read_event is_reading
read-item_added c i item p e = ground (arith, p, e)

read-text_delta :
    (c : Client) (i : ℕ) (id t piece : String)
    → c.phase ≡ reading
    → item_at i c.items ≡ some (message_of t)
    → read_event (output_text_delta id i piece) c
      ≡ some (record c { items = set_at i (message_of (t ++ₛ piece)) c.items })
unfolding read_event read_delta
read-text_delta c i id t piece p e = if_reading-yes c _ p ∙ rw (read_delta, e) refl

pub read-arguments_delta :
    (c : Client) (i : ℕ) (id t piece : String)
    → c.phase ≡ reading
    → item_at i c.items ≡ some (call_of t)
    → read_event (arguments_delta id i piece) c
      ≡ some (record c { items = set_at i (call_of (t ++ₛ piece)) c.items })
unfolding read_event read_delta
read-arguments_delta c i id t piece p e = if_reading-yes c _ p ∙ rw (read_delta, e) refl

read-part_added :
    (c : Client) (i : ℕ) (id : String)
    → c.phase ≡ reading
    → item_at i c.items ≡ some (message_of "")
    → read_event (content_part_added id i) c ≡ some c
unfolding read_event read_whole
read-part_added c i id p e = if_reading-yes c _ p ∙ rw (read_whole, e) refl

-- No call has the output index of the message.
pub call_apart :
    (items : List Read) (i j : ℕ) (t a : String)
    → item_at i items ≡ some (message_of t)
    → item_at j items ≡ some (call_of a)
    → i ≢ j
call_apart items i j t a m s e =
    let both : some (message_of t) ≡ some (call_of a) = sym m ∙ ap (λ k. item_at k items) e ∙ s in
    let sorts : false ≡ true = ap (λ r. r.is_call) (some-injective _ _ both) in cc

pub Shown-text :
    (items : List Read) (i : ℕ) (t : String) (r : Read) (ss : List CallSlot)
    → item_at i items ≡ some (message_of t)
    → All (Shown items) ss
    → All (Shown (set_at i r items)) ss
Shown-text items i t r ss m h =
    All-imp _ _ ss
      (λ s p. record {
        announced = p.announced;
        shown =
            item_at-set_other i s.item_index r items
              (call_apart items i s.item_index t s.arguments m p.shown)
            ∙ p.shown;
      })
      h

-- The content of an item that is not finished grows.
pub pending-grown :
    (items : List Read) (i : ℕ) (r r' : Read)
    → item_at i items ≡ some r'
    → r.unfinished ≡ true
    → r'.unfinished ≡ true
    → pending (set_at i r items) ≡ pending items
pending-grown items i r r' h u u' = ground (arith, pending-set_at i r r' items h, u, u')

module _ (cfg : Setup) where
  open_message-Inv :
      (st : StreamState) (c : Client)
      → Inv st c
      → (st.msg_index ≡ none → st.text_buf ≡ "")
      → let st' = open_message cfg st in
        (c' : Client) × Inv st' c'
        × (st'.msg_index ≡ some (or_first st'.msg_index))
        × (st'.text_buf ≡ st.text_buf)
  unfolding open_message send new_item
  open_message-Inv st c h quiet = elim (Option-cases st.msg_index) [
    | inl e ↦
        let i = st.next_item_index in
        let item = message_item cfg.msg_id none in
        let here = item_at-newest i (message_of "") c.items h.count in
        let c' : Client = record c { items = message_of "" ∷ c.items } in
        let w : pending c.items ≡ 0 + length st.tool_calls =
          h.waiting ∙ ap (λ m. one_if m + length st.tool_calls) e in
        rw (open_message, e)
          (
            c',
            record {
              reads =
                  read-send new_client _ _ (content_part_added cfg.msg_id i)
                    (read-send new_client st.sent _ (output_item_added i item) h.reads
                      (read-item_added c i item h.phase h.count))
                    (read-part_added c' i cfg.msg_id h.phase here);
              phase = h.phase;
              count = ap suc h.count;
              message = here ∙ ap (λ t. some (message_of t)) (sym (quiet e));
              calls = Shown-next (message_of "") c.items st.tool_calls h.calls;
              apart = h.apart;
              waiting = unfold pending in omega (arith, w);
              finished = h.finished;
            },
            refl,
            refl,
          )
    | inr (i, e) ↦ rw (open_message, e) (c, h, e ∙ ap (λ m. some (or_first m)) (sym e), refl)
  ]

  pub on_text-Inv :
      (piece : String) (st : StreamState)
      → Followed st
      → (st.msg_index ≡ none → st.text_buf ≡ "")
      → Followed (on_text cfg piece st)
  unfolding on_text send
  on_text-Inv piece st (c, h) quiet = elim (Bool-cases (is_empty piece)) [
    | inl e ↦ rw (on_text, e) (c, h)
    | inr e ↦
        let st' = open_message cfg st in
        let i = or_first st'.msg_index in
        let (c', h', at, same) = open_message-Inv st c h quiet in
        let here : item_at i c'.items ≡ some (message_of st'.text_buf) =
          subst (λ m. MessageIs c'.items m st'.text_buf) at h'.message in
        let grown = message_of (st'.text_buf ++ₛ piece) in
        rw (on_text, e)
          (
            record c' { items = set_at i grown c'.items },
            record {
              reads =
                  read-send new_client st'.sent _ (output_text_delta cfg.msg_id i piece) h'.reads
                    (read-text_delta c' i cfg.msg_id st'.text_buf piece h'.phase here);
              phase = h'.phase;
              count = length-set_at i grown c'.items ∙ h'.count;
              message =
                  subst (λ m. MessageIs (set_at i grown c'.items) m (st'.text_buf ++ₛ piece))
                    (sym at) (item_at-set_at i grown c'.items here);
              calls = Shown-text c'.items i st'.text_buf grown st'.tool_calls here h'.calls;
              apart = h'.apart;
              waiting = pending-grown c'.items i grown _ here refl refl ∙ h'.waiting;
              finished = h'.finished;
            },
          )
  ]
