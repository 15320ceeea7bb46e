-- ===== src/Formats/Responses/Stream/Held.antt =====
-- What is known of a response and of the aggregation in the loop over the chunks.
use Prim.Native.String.{◌++◌ as ◌++ₛ◌}
use mathlib.Core.List.{append_assoc}
use package.text.Mathlib.TextLemmas.{append-ne-nil_of_right_ne-nil}
use proxy_opencode.Prelude.{
  ℕ, ◌≡◌, ◌≢◌, ◌∙◌, refl, sym, ap, subst, String, Bool, true, false, not, ◌&&◌, ◌||◌, Option, none,
  some, List, [], ◌∷◌, ◌++◌, map, any, arith, ◌==◌, eq_iff, if◌then◌else◌, Bool-cases, Option-cases,
  inl, inr,
}
use proxy_opencode.Zen.Aggregate.{
  CallDelta, Choice, Chunk, chunk_line, Slot, merge_call, merge_tool_call_delta, is_empty, latest,
  join, Gathered, gather_choice, gather_choices, gather_chunk, gather, nothing_yet,
}
use proxy_opencode.Zen.Aggregate.Parts.{no_piece, join-added}
use proxy_opencode.Formats.Responses.Stream.{
  ChatUsage, StreamState, send, slot_at, Setup, open_message, on_text, on_call, on_calls, on_choice,
  on_choices, on_chunks, start_stream,
}
use proxy_opencode.Formats.Responses.Stream.Reading.{reading, read, read_event, pending}
use proxy_opencode.Formats.Responses.Stream.Slots.{slot_at-put_slot}
use proxy_opencode.Formats.Responses.Stream.Invariant.{Followed, on_text-Inv}
use proxy_opencode.Formats.Responses.Stream.Calls.{on_call-Followed}
use proxy_opencode.Formats.Responses.Stream.Effects.{
  view, slot_view, Effect, on_call-Effect, put-merge_call, put-index,
}

-- The deltas of tool calls of a stream, in order.
unfoldable pub choice_deltas : List Choice → List CallDelta
choice_deltas [] = []
choice_deltas (c ∷ cs) = c.tool_calls ++ choice_deltas cs

unfoldable pub deltas : List (Chunk ChatUsage) → List CallDelta
unfolding choice_deltas
deltas [] = []
deltas (c ∷ cs) = choice_deltas c.choices ++ deltas cs

-- The first delta of each tool call has an id or a name; the first argument has the indices so far.
unfoldable pub calls_named : List ℕ → List CallDelta → Bool
calls_named seen [] = true
calls_named seen (d ∷ ds) =
    let rest = calls_named (d.index ∷ seen) ds in
    (any (λ i. i == d.index) seen || not (is_empty d.id) || not (is_empty d.name)) && rest

abbrev pub Told : Option ℕ → String → Type 0
Told none t = t ≡ ""
Told (some i) t = t ≢ ""

module _ (cfg : Setup) where
  -- What is known in the loop: the indices seen, the text so far, and the aggregation's calls.
  pub record Held (seen : List ℕ) (st : StreamState) (told : String) (gs : List Slot) : Type 0 where
    pub followed : Followed st
    pub voice : Told st.msg_index st.text_buf
    pub covers : (i : ℕ) → slot_at i st.tool_calls ≡ none → any (λ j. j == i) seen ≡ false
    pub text : st.text_buf ≡ told
    pub calls : map view st.tool_calls ≡ map (slot_view cfg) gs

  on_text-Told :
      (piece : String) (st : StreamState)
      → let st' = on_text cfg piece st in
        Told st.msg_index st.text_buf
        → (st'.text_buf ≡ st.text_buf ++ₛ piece)
          × (st'.tool_calls ≡ st.tool_calls)
          × Told st'.msg_index st'.text_buf
  unfolding on_text open_message send
  on_text-Told piece st v = elim (Bool-cases (is_empty piece)) [
    | inl e ↦ rw (on_text, e) (no_piece st.text_buf piece e, refl, v)
    | inr e ↦
        let some_text : piece ≢ "" = λ p. ground (arith, (eq_iff piece "").1 p, e) in
        let more : st.text_buf ++ₛ piece ≢ "" =
          append-ne-nil_of_right_ne-nil st.text_buf some_text in
        elim (Option-cases st.msg_index) [
          | inl m ↦ rw (on_text, e, open_message, m) (refl, refl, more)
          | inr (i, m) ↦
              rw (on_text, e, open_message, m)
                (refl, refl, subst (λ x. Told x (st.text_buf ++ₛ piece)) (sym m) more)
        ]
  ]

  quiet : (m : Option ℕ) (t : String) → Told m t → m ≡ none → t ≡ ""
  quiet none t v e = v
  quiet (some i) t v e = cc

  on_text-Held :
      (piece : String) (seen : List ℕ) (st : StreamState) (told : String) (gs : List Slot)
      → Held seen st told gs
      → Held seen (on_text cfg piece st) (told ++ₛ piece) gs
  on_text-Held piece seen st told gs h =
      let (t, same, v) = on_text-Told piece st h.voice in
      record {
        followed = on_text-Inv cfg piece st h.followed (quiet st.msg_index st.text_buf h.voice);
        voice = v;
        covers = λ i e. h.covers i (ap (slot_at i) (sym same) ∙ e);
        text = t ∙ ap (λ x. x ++ₛ piece) h.text;
        calls = ap (map view) same ∙ h.calls;
      }

  covers_on :
      (d : CallDelta) (seen : List ℕ) (st : StreamState)
      → ((i : ℕ) → slot_at i st.tool_calls ≡ none → any (λ j. j == i) seen ≡ false)
      → Effect cfg d st (on_call cfg d st)
      → (i : ℕ) → slot_at i (on_call cfg d st).tool_calls ≡ none
      → any (λ j. j == i) (d.index ∷ seen) ≡ false
  unfolding any
  covers_on d seen st h e i p =
      let found : (if e.put.index == i then some e.put else slot_at i st.tool_calls) ≡ none =
        sym (slot_at-put_slot i e.put st.tool_calls) ∙ ap (slot_at i) (sym e.tool_calls) ∙ p in
      let index = put-index cfg d st (on_call cfg d st) e in
      elim (Bool-cases (d.index == i)) [
        | inl here ↦ absurd (ground (arith, found, index, here))
        | inr there ↦
            let old : slot_at i st.tool_calls ≡ none = ground (arith, found, index, there) in
            rw there (h i old)
      ]

  on_call-Held :
      (d : CallDelta) (seen : List ℕ) (st : StreamState) (told : String) (gs : List Slot)
      → (any (λ i. i == d.index) seen || not (is_empty d.id) || not (is_empty d.name)) ≡ true
      → Held seen st told gs
      → Held (d.index ∷ seen) (on_call cfg d st) told (merge_call d gs)
  on_call-Held d seen st told gs n h =
      let e = on_call-Effect cfg d st in
      record {
        followed =
            on_call-Followed cfg d st h.followed (λ p. ground (arith, n, h.covers d.index p));
        voice =
            subst (λ m. Told m (on_call cfg d st).text_buf) (sym e.msg_index)
              (subst (λ t. Told st.msg_index t) (sym e.text_buf) h.voice);
        covers = covers_on d seen st h.covers e;
        text = e.text_buf ∙ h.text;
        calls =
            ap (map view) e.tool_calls
            ∙ put-merge_call cfg d e.put st.tool_calls gs e.put_view h.calls;
      }

  on_calls-Held :
      (ds rest : List CallDelta) (seen : List ℕ) (st : StreamState) (told : String) (gs : List Slot)
      → calls_named seen (ds ++ rest) ≡ true
      → Held seen st told gs
      → (seen' : List ℕ) × (calls_named seen' rest ≡ true)
        × Held seen' (on_calls cfg ds st) told (merge_tool_call_delta ds gs)
  unfolding on_calls merge_tool_call_delta calls_named
  on_calls-Held [] rest seen st told gs n h = (seen, n, h)
  on_calls-Held (d ∷ ds) rest seen st told gs n h =
      let now : (any (λ i. i == d.index) seen || not (is_empty d.id) || not (is_empty d.name))
          ≡ true =
        ground (arith, n) in
      let later : calls_named (d.index ∷ seen) (ds ++ rest) ≡ true = ground (arith, n) in
      on_calls-Held ds rest (d.index ∷ seen) (on_call cfg d st) told (merge_call d gs) later
        (on_call-Held d seen st told gs now h)

  -- The notes of the finish reason and of the usage change nothing here.
  noted :
      (seen : List ℕ) (st : StreamState) (told : String) (gs : List Slot) (reason : Option String)
      (usage : Option ChatUsage)
      → Held seen st told gs
      → Held seen (record st { finish_reason = reason; usage = usage }) told gs
  noted seen st told gs reason usage h = record {
    followed = (
      h.followed.0,
      record {
        reads = h.followed.1.reads;
        phase = h.followed.1.phase;
        count = h.followed.1.count;
        message = h.followed.1.message;
        calls = h.followed.1.calls;
        apart = h.followed.1.apart;
        waiting = h.followed.1.waiting;
        finished = h.followed.1.finished;
      },
    );
    voice = h.voice;
    covers = h.covers;
    text = h.text;
    calls = h.calls;
  }

  -- What the aggregation has gathered.
  abbrev pub HeldBy : List ℕ → StreamState → Gathered ChatUsage → Type 0
  HeldBy seen st g = Held seen st (join g.content_parts) g.tool_calls

  on_choices-Held :
      (cs : List Choice) (rest : List CallDelta) (seen : List ℕ) (st : StreamState)
      (g : Gathered ChatUsage)
      → calls_named seen (choice_deltas cs ++ rest) ≡ true
      → HeldBy seen st g
      → (seen' : List ℕ) × (calls_named seen' rest ≡ true)
        × HeldBy seen' (on_choices cfg cs st) (gather_choices cs g)
  unfolding on_choices on_choice gather_choices gather_choice choice_deltas
  on_choices-Held [] rest seen st g n h = (seen, n, h)
  on_choices-Held (c ∷ cs) rest seen st g n h =
      let told =
        on_text-Held c.content seen _ (join g.content_parts) g.tool_calls
          (noted seen st _ _ (latest c.finish_reason st.finish_reason) st.usage h) in
      let later = choice_deltas cs ++ rest in
      let (seen', n', h') =
        on_calls-Held c.tool_calls later seen _ _ _
          (ap (calls_named seen) (sym (append_assoc c.tool_calls (choice_deltas cs) rest)) ∙ n)
          told in
      on_choices-Held cs rest seen' (on_choice cfg c st) (gather_choice c g) n' (
        subst (λ t. Held seen' (on_choice cfg c st) t (gather_choice c g).tool_calls)
          (sym (join-added g.content_parts c.content)) h')

  pub on_chunks-Held :
      (cs : List (Chunk ChatUsage)) (seen : List ℕ) (st : StreamState) (g : Gathered ChatUsage)
      → calls_named seen (deltas cs) ≡ true
      → HeldBy seen st g
      → (seen' : List ℕ) × HeldBy seen' (on_chunks cfg cs st) (gather (map chunk_line cs) g)
  unfolding on_chunks gather gather_chunk deltas
  on_chunks-Held [] seen st g n h = (seen, h)
  on_chunks-Held (c ∷ cs) seen st g n h =
      let (seen', n', h') =
        on_choices-Held c.choices (deltas cs) seen _ _ n
          (noted seen st _ _ st.finish_reason (latest c.usage st.usage) h) in
      on_chunks-Held cs seen' _ (gather_chunk c g) n' h'

  pub start_stream-Held : (now : ℕ) → HeldBy [] (start_stream cfg) (nothing_yet now)
  unfolding start_stream send read read_event join any pending
  start_stream-Held now = record {
    followed = (
      record { phase = reading; items = []; finished = [] },
      record {
        reads = refl;
        phase = refl;
        count = refl;
        message = tt;
        calls = tt;
        apart = tt;
        waiting = refl;
        finished = refl;
      },
    );
    voice = refl;
    covers = λ i e. refl;
    text = refl;
    calls = refl;
  }
