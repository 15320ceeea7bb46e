-- ===== src/Formats/Anthropic/Stream/Spoken.antt =====
-- The pieces of reasoning and of text keep what the client has read.
use Prim.Native.String.{◌++◌ as ◌++ₛ◌}
use package.text.Mathlib.TextLemmas.{append-nil}
use proxy_opencode.Prelude.{
  ℕ, ◌-◌, ◌≡◌, ◌∙◌, refl, sym, ap, subst, String, true, Option, none, some, List, [], ◌∷◌, length,
  All, All-imp, arith, ◌==◌, if◌then◌else◌, Bool-cases, inl, inr,
}
use proxy_opencode.Zen.Aggregate.{is_empty}
use proxy_opencode.Formats.Anthropic.Stream.{
  Kind, thinking, text, tool, Block, empty_thinking, empty_text, content_block_delta, is_open,
  StreamState, ToolBlock, send, open_block, on_reasoning, on_text,
}
use proxy_opencode.Formats.Anthropic.Stream.Reading.{
  Read, Client, new_client, kind_of, kind_at, add_at, is_reading, read_event, said, read-send,
  length-add_at, said-add_at-newest, none_open-add_at,
}
use proxy_opencode.Formats.Anthropic.Stream.Accepted.{
  OpenIs, Placed, Inv, Placed-add_at, Followed, open_block-Inv,
}

OpenIs-add_at :
    (o : Option Kind) (i : ℕ) (piece : String) (bs : List Read)
    → OpenIs o bs
    → OpenIs o (add_at i piece bs)
unfolding add_at
OpenIs-add_at none i piece bs h = none_open-add_at i piece bs ∙ h
OpenIs-add_at (some k) i piece [] h = absurd h
OpenIs-add_at (some k) i piece (b ∷ bs) h = elim (Bool-cases (i == length bs)) [
  | inl e ↦ rw (add_at, e) h
  | inr e ↦ rw (add_at, e) (h.0, h.1, none_open-add_at i piece bs ∙ h.2)
]

pub kind_at-newest :
    (o : Option Kind) (k : Kind) (n : ℕ) (bs : List Read)
    → OpenIs (some k) bs
    → length bs ≡ n
    → kind_at (n - 1) bs ≡ some k
unfolding kind_at
kind_at-newest o k n [] h l = absurd h
kind_at-newest o k n (b ∷ bs) h l = ground (arith, h, l)

is_open_refl : (k : Kind) → is_open k (some k) ≡ true
unfolding is_open
is_open_refl thinking = refl
is_open_refl text = refl
is_open_refl tool = refl

pub is_open_sound : (k : Kind) (o : Option Kind) → is_open k o ≡ true → o ≡ some k
unfolding is_open
is_open_sound thinking (some thinking) e = refl
is_open_sound text (some text) e = refl
is_open_sound tool (some tool) e = refl
is_open_sound thinking (some text) e = cc
is_open_sound thinking (some tool) e = cc
is_open_sound text (some thinking) e = cc
is_open_sound text (some tool) e = cc
is_open_sound tool (some thinking) e = cc
is_open_sound tool (some text) e = cc
is_open_sound k none e = ground arith

-- A delta is read for a block of its kind.
pub extended :
    (st : StreamState) (c : Client) (k : Kind) (i : ℕ) (piece think_buf text_buf : String)
    (ts : List ToolBlock)
    → Inv st c
    → kind_at i c.blocks ≡ some k
    → said thinking (add_at i piece c.blocks) ≡ think_buf
    → said text (add_at i piece c.blocks) ≡ text_buf
    → All (λ s. Placed c.blocks s.block_index) ts
    → Inv
        (send
          (content_block_delta i k piece)
          (record st { think_buf = think_buf; text_buf = text_buf; tool_blocks = ts }))
        (record c { blocks = add_at i piece c.blocks })
unfolding send
extended st c k i piece think_buf text_buf ts h at thought told placed = record {
  reads =
      read-send new_client st.sent (content_block_delta i k piece) h.reads
        (unfold read_event is_reading in ground (arith, h.phase, at, is_open_refl k));
  phase = h.phase;
  count = length-add_at i piece c.blocks ∙ h.count;
  opened = OpenIs-add_at st.open_type i piece c.blocks h.opened;
  slots = All-imp _ _ ts (λ s. Placed-add_at i piece c.blocks s.block_index) placed;
  thought = thought;
  told = told;
}

said-newest :
    (k l : Kind) (n : ℕ) (piece : String) (bs : List Read)
    → OpenIs (some l) bs
    → length bs ≡ n
    → said k (add_at (n - 1) piece bs) ≡ said k bs ++ₛ (if is_open k (some l) then piece else "")
said-newest k l n piece [] h e = absurd h
said-newest k l n piece (b ∷ bs) h e =
    let i : n - 1 ≡ length bs = omega (arith, e) in
    rw (i, sym h.1) (said-add_at-newest k piece b bs)

-- A delta of the open block, which is a block of reasoning or of text.
extended_newest :
    (st : StreamState) (c : Client) (k : Kind) (piece think_buf text_buf : String)
    → Inv st c
    → st.open_type ≡ some k
    → st.think_buf ++ₛ (if is_open thinking (some k) then piece else "") ≡ think_buf
    → st.text_buf ++ₛ (if is_open text (some k) then piece else "") ≡ text_buf
    → Followed (
        send
          (content_block_delta (st.blocks - 1) k piece)
          (record st { think_buf = think_buf; text_buf = text_buf }))
extended_newest st c k piece think_buf text_buf h e et ex =
    let top = subst (λ o. OpenIs o c.blocks) e h.opened in
    (
      _,
      extended st c k (st.blocks - 1) piece think_buf text_buf st.tool_blocks h
          (kind_at-newest (some k) k st.blocks c.blocks top h.count)
          (said-newest thinking k st.blocks piece c.blocks top h.count
            ∙ ap (λ t. t ++ₛ (if is_open thinking (some k) then piece else "")) h.thought
            ∙ et)
          (said-newest text k st.blocks piece c.blocks top h.count
            ∙ ap (λ t. t ++ₛ (if is_open text (some k) then piece else "")) h.told
            ∙ ex)
          h.slots,
    )

-- The state in which a piece of a kind is sent.
ready :
    (st : StreamState) (c : Client) (k : Kind) (b : Block)
    → kind_of b ≡ k
    → Inv st c
    → let st' = if is_open k st.open_type then st else open_block k b st in
      (c' : Client) × Inv st' c' × (st'.open_type ≡ some k)
ready st c k b kb h = elim (Bool-cases (is_open k st.open_type)) [
  | inl e ↦ rw e (c, h, is_open_sound k st.open_type e)
  | inr e ↦ let (c', h') = open_block-Inv st c k b kb h in rw e (c', h', unfold open_block in refl)
]

pub on_reasoning-Inv :
    (piece : String) (st : StreamState) → Followed st → Followed (on_reasoning piece st)
unfolding on_reasoning kind_of is_open
on_reasoning-Inv piece st (c, h) = elim (Bool-cases (is_empty piece)) [
  | inl e ↦ rw e (c, h)
  | inr e ↦
      let (c', h', o) = ready st c thinking empty_thinking refl h in
      rw e (extended_newest _ c' thinking piece _ _ h' o refl (append-nil _))
]

pub on_text-Inv : (piece : String) (st : StreamState) → Followed st → Followed (on_text piece st)
unfolding on_text kind_of is_open
on_text-Inv piece st (c, h) = elim (Bool-cases (is_empty piece)) [
  | inl e ↦ rw e (c, h)
  | inr e ↦
      let (c', h', o) = ready st c text empty_text refl h in
      rw e (extended_newest _ c' text piece _ _ h' o (append-nil _) refl)
]
