-- ===== src/Formats/Anthropic/Stream/Calls.antt =====
-- The deltas of tool calls keep what the client has read.
use mathlib.Core.Option.{some-injective}
use proxy_opencode.Prelude.{
  ℕ, ◌-◌, ◌≡◌, ◌∙◌, refl, sym, subst, String, some, List, [], ◌∷◌, All, ◌==◌, Bool-cases,
  Option-cases, inl, inr,
}
use proxy_opencode.Zen.Aggregate.{CallDelta, is_empty}
use proxy_opencode.Formats.Anthropic.Stream.{
  thinking, text, tool, tool_use, is_open, StreamState, ToolBlock, open_block, on_calls, on_call,
  on_arguments, put_slot, slot_at, slot_for, new_slot, with_name,
}
use proxy_opencode.Formats.Anthropic.Stream.Reading.{
  Read, Client, kind_of, kind_at, add_at, said, said-add_at-other,
}
use proxy_opencode.Formats.Anthropic.Stream.Accepted.{Placed, Inv, Followed, open_block-Inv}
use proxy_opencode.Formats.Anthropic.Stream.Spoken.{extended, kind_at-newest}

All-put_slot :
    (P : ToolBlock → Type 0) (s : ToolBlock) (ss : List ToolBlock)
    → P s
    → All P ss
    → All P (put_slot s ss)
unfolding put_slot
All-put_slot P s [] h hs = (h, tt)
All-put_slot P s (t ∷ ts) h hs = elim (Bool-cases (t.index == s.index)) [
  | inl e ↦ rw e (h, hs.1)
  | inr e ↦ rw e (hs.0, All-put_slot P s ts h hs.1)
]

All-slot_at :
    (P : ToolBlock → Type 0) (i : ℕ) (ss : List ToolBlock) {s : ToolBlock}
    → All P ss
    → slot_at i ss ≡ some s
    → P s
unfolding slot_at
All-slot_at P i [] h e = cc
All-slot_at P i (t ∷ ts) {s} h e = elim (Bool-cases (t.index == i)) [
  | inl same ↦ subst P (some-injective _ _ (rw same at e)) h.0
  | inr differ ↦ All-slot_at P i ts h.1 (rw differ at e)
]

pub with_name-block_index :
    (name : String) (s : ToolBlock) → (with_name name s).block_index ≡ s.block_index
unfolding with_name
with_name-block_index name s = elim (Option-cases s.block_index) [
  | inl e ↦ rw (with_name, e) e
  | inr (i, e) ↦ rw (with_name, e) e
]

slot_for-Placed :
    (new_id : ℕ → String) (d : CallDelta) (bs : List Read) (ss : List ToolBlock)
    → All (λ s. Placed bs s.block_index) ss
    → Placed bs (slot_for new_id d ss).block_index
unfolding slot_for new_slot
slot_for-Placed new_id d bs ss h = elim (Option-cases (slot_at d.index ss)) [
  | inl e ↦ rw (slot_for, e) tt
  | inr (s, e) ↦ rw (slot_for, e) (All-slot_at (λ s. Placed bs s.block_index) d.index ss h e)
]

-- What a tool says is neither reasoning nor text.
said_by_tool :
    (st : StreamState) (c : Client) (i : ℕ) (piece : String)
    → Inv st c
    → kind_at i c.blocks ≡ some tool
    → (said thinking (add_at i piece c.blocks) ≡ st.think_buf)
      × (said text (add_at i piece c.blocks) ≡ st.text_buf)
unfolding is_open
said_by_tool st c i piece h p = (
  said-add_at-other thinking tool i piece c.blocks p refl ∙ h.thought,
  said-add_at-other text tool i piece c.blocks p refl ∙ h.told,
)

-- A delta of a tool call goes to a block of a tool.
on_arguments-Inv :
    (piece : String) (s : ToolBlock) (st : StreamState) (c : Client)
    → Inv st c
    → Placed c.blocks s.block_index
    → Followed (on_arguments piece s st)
unfolding on_arguments
on_arguments-Inv piece s st c h p = elim (Option-cases s.block_index) [
  | inl e ↦ elim (Bool-cases (is_empty piece)) [
    | inl no_piece ↦ rw (on_arguments, e, no_piece) (c, h)
    | inr a_piece ↦
        let st' = open_block tool (tool_use s.id s.name) st in
        let (c', h') = open_block-Inv st c tool (tool_use s.id s.name) (unfold kind_of in refl) h in
        let i = st'.blocks - 1 in
        let at : kind_at i c'.blocks ≡ some tool =
          kind_at-newest (some tool) tool st'.blocks c'.blocks (unfold open_block in h'.opened)
            h'.count in
        let quiet = said_by_tool st' c' i piece h' at in
        rw (on_arguments, e, a_piece)
          (
            _,
            extended st' c' tool i piece _ _ _ h' at quiet.0 quiet.1 (
                All-put_slot (λ s. Placed c'.blocks s.block_index)
                  (record s { block_index = some i }) st'.tool_blocks at h'.slots),
          )
  ]
  | inr (i, e) ↦ elim (Bool-cases (is_empty piece)) [
    | inl no_piece ↦ rw (on_arguments, e, no_piece) (c, h)
    | inr a_piece ↦
        let at : kind_at i c.blocks ≡ some tool = subst (Placed c.blocks) e p in
        let quiet = said_by_tool st c i piece h at in
        rw (on_arguments, e, a_piece)
          (_, extended st c tool i piece _ _ st.tool_blocks h at quiet.0 quiet.1 h.slots)
  ]
]

on_call-Inv :
    (new_id : ℕ → String) (d : CallDelta) (st : StreamState)
    → Followed st
    → Followed (on_call new_id d st)
unfolding on_call
on_call-Inv new_id d st (c, h) =
    let s = slot_for new_id d st.tool_blocks in
    let placed : Placed c.blocks (with_name d.name s).block_index =
      subst (Placed c.blocks) (sym (with_name-block_index d.name s))
        (slot_for-Placed new_id d c.blocks st.tool_blocks h.slots) in
    on_arguments-Inv d.arguments (with_name d.name s)
      (record st { tool_blocks = put_slot (with_name d.name s) st.tool_blocks }) c
      (record {
        reads = h.reads;
        phase = h.phase;
        count = h.count;
        opened = h.opened;
        slots =
            All-put_slot (λ s. Placed c.blocks s.block_index) (with_name d.name s) st.tool_blocks
              placed h.slots;
        thought = h.thought;
        told = h.told;
      })
      placed

pub on_calls-Inv :
    (new_id : ℕ → String) (ds : List CallDelta) (st : StreamState)
    → Followed st
    → Followed (on_calls new_id ds st)
unfolding on_calls
on_calls-Inv new_id [] st f = f
on_calls-Inv new_id (d ∷ ds) st f = on_calls-Inv new_id ds _ (on_call-Inv new_id d st f)
