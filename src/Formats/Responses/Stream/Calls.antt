-- ===== src/Formats/Responses/Stream/Calls.antt =====
-- The deltas of tool calls keep what the client of a response has read.
use Prim.Native.String.{◌++◌ as ◌++ₛ◌}
use package.text.Mathlib.TextLemmas.{nil-append, append-nil}
use proxy_opencode.Prelude.{
  ℕ, suc, ◌+◌, ◌≡◌, ◌∙◌, refl, sym, ap, subst, String, true, false, not, ◌&&◌, ◌||◌, Option, none,
  some, List, [], ◌∷◌, ◌++◌, length, length-append, All, All-append, arith, ◌==◌, eq_iff,
  if◌then◌else◌, Bool-cases, Option-cases, inl, inr,
}
use proxy_opencode.Zen.Aggregate.{CallDelta, is_empty, or_text}
use proxy_opencode.Formats.Responses.Stream.{
  Event, CallSlot, StreamState, send, slot_at, put_slot, Setup, restored_name, slot_for, merged,
  announce, send_arguments, on_call, output_item_added, arguments_delta, function_call,
}
use proxy_opencode.Formats.Responses.Stream.Reading.{
  Read, Client, new_client, read_event, call_of, item_at, set_at, pending, read-send, item_at-next,
  length-set_at, item_at-set_other, set_at-same, new_item,
}
use proxy_opencode.Formats.Responses.Stream.Slots.{
  Shown, Distinct, slot_at-All, slot_at-index, slot_at-put_slot, put_slot-put_slot, put_slot-new,
  put_slot-Distinct, put_slot-Shown, put_slot-kept,
}
use proxy_opencode.Formats.Responses.Stream.Invariant.{
  Inv, Followed, MessageIs, one_if, item_at-newest, read-item_added, read-arguments_delta,
  call_apart, Shown-next, pending-grown,
}

-- The message stays what it is.
MessageIs-call :
    (items : List Read) (j : ℕ) (r : Read) (a t : String) (m : Option ℕ)
    → item_at j items ≡ some (call_of a)
    → MessageIs items m t
    → MessageIs (set_at j r items) m t
MessageIs-call items j r a t none h k = tt
MessageIs-call items j r a t (some i) h k =
    item_at-set_other j i r items (λ e. call_apart items i j t a k h (sym e)) ∙ k

MessageIs-next :
    (b : Read) (items : List Read) (t : String) (m : Option ℕ)
    → MessageIs items m t
    → MessageIs (b ∷ items) m t
MessageIs-next b items t none h = tt
MessageIs-next b items t (some i) h = item_at-next i b items h

-- The arguments of a call that is there grow.
module _ (cfg : Setup) (st : StreamState) (c : Client) (h : Inv st c) (old new : CallSlot)
    (piece : String) (found : slot_at old.index st.tool_calls ≡ some old)
    (index : new.index ≡ old.index) (item_index : new.item_index ≡ old.item_index)
    (announced : new.announced ≡ true) (arguments : new.arguments ≡ old.arguments ++ₛ piece) where
  abbrev grown : List Read
  grown = set_at old.item_index (call_of new.arguments) c.items

  shown : item_at old.item_index c.items ≡ some (call_of old.arguments)
  shown = (slot_at-All (Shown c.items) old.index st.tool_calls h.calls found).shown

  calls : All (Shown grown) (put_slot new st.tool_calls)
  calls =
      put_slot-Shown c.items old new item_index st.tool_calls index announced found h.apart h.calls

  kept :
      Distinct (put_slot new st.tool_calls)
      × (length (put_slot new st.tool_calls) ≡ length st.tool_calls)
  kept = put_slot-kept c.items old new item_index st.tool_calls index found h.apart

  pub argued :
      Followed
        (send_arguments cfg piece new (record st { tool_calls = put_slot new st.tool_calls }))
  unfolding send_arguments send
  argued = elim (Bool-cases (is_empty piece)) [
    | inl e ↦
        let same : new.arguments ≡ old.arguments =
          arguments
          ∙ ap (λ t. old.arguments ++ₛ t) ((eq_iff piece "").0 e)
          ∙ append-nil old.arguments in
        let still : grown ≡ c.items =
          set_at-same old.item_index (call_of new.arguments) c.items
            (shown ∙ ap (λ a. some (call_of a)) (sym same)) in
        rw (send_arguments, e)
          (
            c,
            record {
              reads = h.reads;
              phase = h.phase;
              count = h.count;
              message = h.message;
              calls = subst (λ items. All (Shown items) (put_slot new st.tool_calls)) still calls;
              apart = (kept).0;
              waiting = h.waiting ∙ ap (λ n. one_if st.msg_index + n) (sym (kept).1);
              finished = h.finished;
            },
          )
    | inr e ↦
        let event = arguments_delta new.item_id new.item_index piece in
        let sent_too : (not (is_empty piece) && new.announced) ≡ true =
          ground (arith, e, announced) in
        rw (send_arguments, sent_too)
          (
            record c { items = grown },
            record {
              reads = read-send new_client st.sent _ event h.reads (
                  subst
                    (λ j.
                      read_event (arguments_delta new.item_id j piece) c
                      ≡ some (record c { items = grown }))
                    (sym item_index)
                    (read-arguments_delta c old.item_index new.item_id old.arguments piece h.phase
                        shown
                      ∙ ap
                          (λ a.
                            some (record c { items = set_at old.item_index (call_of a) c.items }))
                          (sym arguments)));
              phase = h.phase;
              count = length-set_at old.item_index (call_of new.arguments) c.items ∙ h.count;
              message =
                  MessageIs-call c.items old.item_index (call_of new.arguments) old.arguments
                    st.text_buf st.msg_index shown h.message;
              calls = calls;
              apart = (kept).0;
              waiting =
                  pending-grown c.items old.item_index (call_of new.arguments) _ shown refl refl
                  ∙ h.waiting
                  ∙ ap (λ n. one_if st.msg_index + n) (sym (kept).1);
              finished = h.finished;
            },
          )
  ]

module _ (cfg : Setup) (d : CallDelta) (st : StreamState) where
  -- The steps of `on_call`, one after the other.
  on_call-steps :
      (old new : CallSlot) (st' : StreamState)
      → slot_for cfg d.index st.tool_calls ≡ old
      → announce cfg (merged cfg d old) st ≡ st'
      → slot_for cfg d.index st'.tool_calls ≡ new
      → on_call cfg d st ≡ send_arguments cfg d.arguments new st'
  unfolding on_call
  on_call-steps old new st' p q r =
      let after : StreamState → StreamState =
        λ x. send_arguments cfg d.arguments (slot_for cfg d.index x.tool_calls) x in
      ap (λ x. after (announce cfg (merged cfg d x) st)) p
      ∙ ap after q
      ∙ ap (λ x. send_arguments cfg d.arguments x st') r

  slot_at-put_same :
      (s : CallSlot) (ss : List CallSlot)
      → s.index ≡ d.index
      → slot_at d.index (put_slot s ss) ≡ some s
  slot_at-put_same s ss i =
      let here : (s.index == d.index) ≡ true = ground (arith, i) in
      slot_at-put_slot d.index s ss ∙ ap (λ b. if b then some s else slot_at d.index ss) here

  slot_for-put_slot :
      (s : CallSlot) (ss : List CallSlot)
      → s.index ≡ d.index
      → slot_for cfg d.index (put_slot s ss) ≡ s
  unfolding slot_for
  slot_for-put_slot s ss i = rw (slot_for, slot_at-put_same s ss i) refl

  -- A call that is there is announced already.
  on_call-old :
      (c : Client) (s : CallSlot)
      → Inv st c
      → slot_at d.index st.tool_calls ≡ some s
      → Followed (on_call cfg d st)
  unfolding announce slot_for merged
  on_call-old c s h e =
      let i : s.index ≡ d.index = slot_at-index d.index st.tool_calls e in
      let a : s.announced ≡ true =
        (slot_at-All (Shown c.items) d.index st.tool_calls h.calls e).announced in
      let new = merged cfg d s in
      let e' : slot_at s.index st.tool_calls ≡ some s =
        subst (λ k. slot_at k st.tool_calls ≡ some s) (sym i) e in
      let quiet : (not s.announced && (not (is_empty new.id) || not (is_empty new.name))) ≡ false =
        ground (arith, a) in
      let st' : StreamState = record st { tool_calls = put_slot new st.tool_calls } in
      let steps =
        on_call-steps s new st' (rw (slot_for, e) refl) (rw (announce, quiet) refl)
          (slot_for-put_slot new st.tool_calls i) in
      subst Followed (sym steps) (argued cfg st c h s new d.arguments e' refl refl a refl)

  -- The entry of a new call as it is announced, before the delta's arguments.
  abbrev fresh_call : CallSlot
  fresh_call = record {
    index = d.index;
    id = or_text d.id "";
    name = "" ++ₛ d.name;
    arguments = "";
    item_id = cfg.item_id d.index;
    item_index = st.next_item_index;
    announced = true;
  }

  abbrev announcement : Event
  announcement =
      output_item_added st.next_item_index (
        function_call fresh_call.item_id fresh_call.id (restored_name cfg fresh_call.name) "" false)

  abbrev announced_state : CallSlot → StreamState
  announced_state s = send announcement (record st {
    next_item_index = suc st.next_item_index;
    tool_calls = put_slot s st.tool_calls;
  })

  announced-Inv :
      (c : Client)
      → Inv st c
      → slot_at d.index st.tool_calls ≡ none
      → Inv (announced_state fresh_call) (record c { items = call_of "" ∷ c.items })
  unfolding send
  announced-Inv c h e =
      let items = call_of "" ∷ c.items in
      let here = item_at-newest st.next_item_index (call_of "") c.items h.count in
      let snoc : put_slot fresh_call st.tool_calls ≡ st.tool_calls ++ (fresh_call ∷ []) =
        put_slot-new fresh_call st.tool_calls e in
      let longer : length (put_slot fresh_call st.tool_calls) ≡ length st.tool_calls + 1 =
        ap length snoc ∙ length-append st.tool_calls (fresh_call ∷ []) in
      record {
        reads =
            read-send new_client st.sent _ announcement h.reads
              (unfold new_item in read-item_added c st.next_item_index _ h.phase h.count);
        phase = h.phase;
        count = ap suc h.count;
        message = MessageIs-next (call_of "") c.items st.text_buf st.msg_index h.message;
        calls = subst (All (Shown items)) (sym snoc) (
            All-append _ st.tool_calls (fresh_call ∷ [])
              (Shown-next (call_of "") c.items st.tool_calls h.calls)
              (record { announced = refl; shown = here }, tt));
        apart = put_slot-Distinct c.items fresh_call st.tool_calls h.calls h.apart h.count e;
        waiting = unfold pending in omega (arith, h.waiting, longer);
        finished = h.finished;
      }

  -- A new call with an id or a name is announced.
  on_call-new :
      (c : Client)
      → Inv st c
      → slot_at d.index st.tool_calls ≡ none
      → (not (is_empty d.id) || not (is_empty d.name)) ≡ true
      → Followed (on_call cfg d st)
  unfolding announce slot_for merged send
  on_call-new c h e calls_named =
      let blank : CallSlot = record fresh_call {
        id = "";
        name = "";
        item_index = 0;
        announced = false;
      } in
      let new : CallSlot = record fresh_call { arguments = "" ++ₛ d.arguments } in
      let loud : (not false && (not (is_empty (or_text d.id "")) || not (is_empty ("" ++ₛ d.name))))
          ≡ true =
        rw (nil-append d.name) (ground (arith, calls_named)) in
      let steps =
        on_call-steps blank new (announced_state new) (rw (slot_for, e) refl)
          (rw (announce, loud) refl) (slot_for-put_slot new st.tool_calls refl) in
      let found : slot_at d.index (put_slot fresh_call st.tool_calls) ≡ some fresh_call =
        slot_at-put_same fresh_call st.tool_calls refl in
      let same : put_slot new (put_slot fresh_call st.tool_calls) ≡ put_slot new st.tool_calls =
        put_slot-put_slot new fresh_call st.tool_calls refl in
      let after : List CallSlot → StreamState = λ ts.
        send_arguments cfg d.arguments new
          (record (announced_state fresh_call) { tool_calls = ts }) in
      subst Followed (sym steps) (
        subst (λ ts. Followed (after ts)) same
          (argued cfg (announced_state fresh_call) _ (announced-Inv c h e) fresh_call new
            d.arguments found refl refl refl refl))

  -- A delta of a call that is there, or that has an id or a name.
  pub on_call-Followed :
      Followed st
      → (slot_at d.index st.tool_calls ≡ none
          → (not (is_empty d.id) || not (is_empty d.name)) ≡ true)
      → Followed (on_call cfg d st)
  on_call-Followed (c, h) calls_named = elim (Option-cases (slot_at d.index st.tool_calls)) [
    | inl e ↦ on_call-new c h e (calls_named e)
    | inr (s, e) ↦ on_call-old c s h e
  ]
