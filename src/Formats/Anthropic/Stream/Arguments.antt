-- ===== src/Formats/Anthropic/Stream/Arguments.antt =====
-- The arguments of the tool calls of a stream, whatever the order of their pieces.
use Prim.Native.String.{◌++◌ as ◌++ₛ◌}
use package.text.Mathlib.TextLemmas.{nil-append, append-nil, append_assoc}
use proxy_opencode.Prelude.{
  ℕ, suc, ◌-◌, ◌≤◌, ◌<◌, ◌≡◌, ◌≢◌, ◌∙◌, refl, sym, ap, String, false, Option, none, some, List, [],
  ◌∷◌, ◌++◌, arith, ◌==◌, if◌then◌else◌, Bool-cases, Option-cases, inl, inr,
}
use proxy_opencode.Zen.Aggregate.{is_empty}
use proxy_opencode.Formats.Anthropic.Stream.{
  Kind, thinking, text, tool, Block, empty_thinking, empty_text, Event, content_block_start,
  content_block_delta, content_block_stop, StreamState, ToolBlock, send, close_open_block,
  open_block, is_open, on_reasoning, on_text, slot_at, put_slot,
}
use proxy_opencode.Formats.Anthropic.Stream.Spoken.{is_open_sound}

-- The texts of the deltas of a block, one after the other.
unfoldable pub delta_at : ℕ → Event → String
delta_at j (content_block_delta i k t) = if i == j then t else ""
delta_at j e = ""

unfoldable pub deltas_at : ℕ → List Event → String
unfolding delta_at
deltas_at j [] = ""
deltas_at j (e ∷ es) = delta_at j e ++ₛ deltas_at j es

deltas_at-snoc :
    (j : ℕ) (es : List Event) (e : Event)
    → deltas_at j (es ++ (e ∷ [])) ≡ deltas_at j es ++ₛ delta_at j e
unfolding deltas_at
deltas_at-snoc j [] e = append-nil (delta_at j e) ∙ sym (nil-append (delta_at j e))
deltas_at-snoc j (e' ∷ es) e =
    ap (λ t. delta_at j e' ++ₛ t) (deltas_at-snoc j es e)
    ∙ sym (append_assoc (delta_at j e') (deltas_at j es) (delta_at j e))

pub deltas_at-send :
    (j : ℕ) (e : Event) (st : StreamState)
    → deltas_at j (send e st).sent ≡ deltas_at j st.sent ++ₛ delta_at j e
unfolding send
deltas_at-send j e st = deltas_at-snoc j st.sent e

-- The block of the tool call with an index.
abbrev pub index_of : Option ToolBlock → Option ℕ
index_of none = none
index_of (some s) = s.block_index

unfoldable pub place : ℕ → List ToolBlock → Option ℕ
unfolding slot_at
place i ss = index_of (slot_at i ss)

pub place-put_slot :
    (i : ℕ) (s : ToolBlock) (ss : List ToolBlock)
    → place i (put_slot s ss) ≡ (if s.index == i then s.block_index else place i ss)
unfolding place slot_at put_slot
place-put_slot i s [] = elim (Bool-cases (s.index == i)) [
  | inl e ↦ rw (place, e) refl
  | inr e ↦ rw (place, e) refl
]
place-put_slot i s (t ∷ ts) = elim (Bool-cases (t.index == s.index)) [
  | inl same ↦ elim (Bool-cases (s.index == i)) [
    | inl e ↦ rw (place, same, e) refl
    | inr e ↦
        let e' : (t.index == i) ≡ false = ground (arith, same, e) in rw (place, same, e, e') refl
  ]
  | inr differ ↦ elim (Bool-cases (t.index == i)) [
    | inl e ↦
        let e' : (s.index == i) ≡ false = ground (arith, differ, e) in
        rw (place, differ, e, e') refl
    | inr e ↦ rw (place, differ, e) (place-put_slot i s ts)
  ]
]

-- The pieces of each call so far, in the block of the call and in no other one.
pub record Args (st : StreamState) (told : ℕ → String) : Type 0 where
  pub own : (i j : ℕ) → place i st.tool_blocks ≡ some j → deltas_at j st.sent ≡ told i
  pub unplaced : (i : ℕ) → place i st.tool_blocks ≡ none → told i ≡ ""
  pub below : (i j : ℕ) → place i st.tool_blocks ≡ some j → j < st.blocks
  pub new : (j : ℕ) → st.blocks ≤ j → deltas_at j st.sent ≡ ""
  pub apart :
      (i i' j : ℕ) → place i st.tool_blocks ≡ some j → place i' st.tool_blocks ≡ some j → i ≡ i'
  pub opened : (k : Kind) → st.open_type ≡ some k → 0 < st.blocks
  pub others :
      (k : Kind)
      → st.open_type ≡ some k
      → k ≢ tool
      → (i j : ℕ) → place i st.tool_blocks ≡ some j
      → suc j < st.blocks

-- An event that is no delta.
pub silent :
    (j : ℕ) (e : Event) (st : StreamState)
    → delta_at j e ≡ ""
    → deltas_at j (send e st).sent ≡ deltas_at j st.sent
silent j e st q =
    deltas_at-send j e st ∙ ap (λ t. deltas_at j st.sent ++ₛ t) q ∙ append-nil (deltas_at j st.sent)

pub close-Args :
    (st : StreamState) (told : ℕ → String) → Args st told → Args (close_open_block st) told
unfolding close_open_block delta_at
close-Args st told h = elim (Option-cases st.open_type) [
  | inl e ↦ rw (close_open_block, e) h
  | inr (k, e) ↦
      let stop = content_block_stop (st.blocks - 1) in
      rw (close_open_block, e)
        (record {
          own = λ i j p. silent j stop st refl ∙ h.own i j p;
          unplaced = h.unplaced;
          below = h.below;
          new = λ j b. silent j stop st refl ∙ h.new j b;
          apart = h.apart;
          opened = λ k p. cc;
          others = λ k p. cc;
        })
]

-- A block that is opened is the block of no call yet.
pub open-Args :
    (st : StreamState) (told : ℕ → String) (k : Kind) (b : Block)
    → Args st told
    → Args (open_block k b st) told
      × ((i j : ℕ)
          → place i (open_block k b st).tool_blocks ≡ some j
          → suc j < (open_block k b st).blocks)
      × (deltas_at ((open_block k b st).blocks - 1) (open_block k b st).sent ≡ "")
unfolding open_block send delta_at
open-Args st told k b h =
    let st' = close_open_block st in
    let h' = close-Args st told h in
    let start = content_block_start st'.blocks b in
    (
      record {
        own = λ i j p. silent j start st' refl ∙ h'.own i j p;
        unplaced = h'.unplaced;
        below = λ i j p. omega (arith, h'.below i j p);
        new = λ j b. silent j start st' refl ∙ h'.new j (omega (arith, b));
        apart = h'.apart;
        opened = λ k p. omega arith;
        others = λ k p n i j q. omega (arith, h'.below i j q);
      },
      λ i j p. omega (arith, h'.below i j p),
      silent (suc st'.blocks - 1) start st' refl ∙ h'.new (suc st'.blocks - 1) (omega arith),
    )

ready-Args :
    (st : StreamState) (told : ℕ → String) (k : Kind) (b : Block)
    → k ≢ tool
    → Args st told
    → let st' = if is_open k st.open_type then st else open_block k b st in
      Args st' told
      × (0 < st'.blocks)
      × ((i j : ℕ) → place i st'.tool_blocks ≡ some j → suc j < st'.blocks)
ready-Args st told k b n h = elim (Bool-cases (is_open k st.open_type)) [
  | inl e ↦ let o = is_open_sound k st.open_type e in rw e (h, h.opened k o, h.others k o n)
  | inr e ↦
      let (h', q, fresh) = open-Args st told k b h in
      rw e (h', h'.opened k (unfold open_block in refl), q)
]

-- A piece of reasoning or of text goes to the newest block, which is no call's.
spoken-Args :
    (st : StreamState) (told : ℕ → String) (k : Kind) (t think_buf text_buf : String)
    → Args st told
    → 0 < st.blocks
    → ((i j : ℕ) → place i st.tool_blocks ≡ some j → suc j < st.blocks)
    → Args
        (send
          (content_block_delta (st.blocks - 1) k t)
          (record st { think_buf = think_buf; text_buf = text_buf }))
        told
unfolding send
spoken-Args st told k t think_buf text_buf h some_block others =
    let e = content_block_delta (st.blocks - 1) k t in
    let elsewhere : (j : ℕ) → st.blocks - 1 ≢ j → delta_at j e ≡ "" =
      λ j n. unfold delta_at in ground (arith, n) in
    record {
      own =
          λ i j p. silent j e st (elsewhere j (λ q. omega (arith, q, others i j p))) ∙ h.own i j p;
      unplaced = h.unplaced;
      below = h.below;
      new = λ j b. silent j e st (elsewhere j (λ q. omega (arith, q, b, some_block))) ∙ h.new j b;
      apart = h.apart;
      opened = h.opened;
      others = h.others;
    }

pub on_reasoning-Args :
    (t : String) (st : StreamState) (told : ℕ → String)
    → Args st told
    → Args (on_reasoning t st) told
unfolding on_reasoning
on_reasoning-Args t st told h = elim (Bool-cases (is_empty t)) [
  | inl e ↦ rw (on_reasoning, e) h
  | inr e ↦
      let (h', some_block, others) = ready-Args st told thinking empty_thinking (λ q. cc) h in
      rw (on_reasoning, e) (spoken-Args _ told thinking t _ _ h' some_block others)
]

pub on_text-Args :
    (t : String) (st : StreamState) (told : ℕ → String) → Args st told → Args (on_text t st) told
unfolding on_text
on_text-Args t st told h = elim (Bool-cases (is_empty t)) [
  | inl e ↦ rw (on_text, e) h
  | inr e ↦
      let (h', some_block, others) = ready-Args st told text empty_text (λ q. cc) h in
      rw (on_text, e) (spoken-Args _ told text t _ _ h' some_block others)
]

-- The places of the calls are what matters.
pub placed-Args :
    (st : StreamState) (told : ℕ → String) (ts : List ToolBlock)
    → ((i : ℕ) → place i ts ≡ place i st.tool_blocks)
    → Args st told
    → Args (record st { tool_blocks = ts }) told
placed-Args st told ts same h = record {
  own = λ i j p. h.own i j (sym (same i) ∙ p);
  unplaced = λ i p. h.unplaced i (sym (same i) ∙ p);
  below = λ i j p. h.below i j (sym (same i) ∙ p);
  new = h.new;
  apart = λ i i' j p q. h.apart i i' j (sym (same i) ∙ p) (sym (same i') ∙ q);
  opened = h.opened;
  others = λ k e n i j p. h.others k e n i j (sym (same i) ∙ p);
}

pub told-Args :
    (st : StreamState) (told told' : ℕ → String)
    → ((i : ℕ) → told i ≡ told' i)
    → Args st told
    → Args st told'
told-Args st told told' same h = record {
  own = λ i j p. h.own i j p ∙ same i;
  unplaced = λ i p. sym (same i) ∙ h.unplaced i p;
  below = h.below;
  new = h.new;
  apart = h.apart;
  opened = h.opened;
  others = h.others;
}
