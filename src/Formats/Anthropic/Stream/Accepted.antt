-- ===== src/Formats/Anthropic/Stream/Accepted.antt =====
-- What the translation of a stream sends is what a client can read.
use proxy_opencode.Prelude.{
  ℕ, suc, ◌-◌, ◌≡◌, ◌∙◌, refl, ap, subst, String, true, Option, none, some, List, [], ◌∷◌, length,
  All, All-imp, arith, Option-cases, inl, inr,
}
use proxy_opencode.Formats.Anthropic.Stream.{
  Kind, thinking, text, tool, Block, content_block_start, content_block_stop, StreamState, send,
  close_open_block, open_block,
}
use proxy_opencode.Formats.Anthropic.Stream.Reading.{
  Read, reading, Client, new_client, kind_of, kind_at, opened_at, add_at, stop_at, none_open,
  is_reading, read_event, read, said, read-send, kind_at-next, kind_at-add_at, kind_at-stop_at,
  length-stop_at, said-stop_at, said-empty,
}

-- The newest block, and no other, is open, and has the kind that the state notes.
abbrev pub OpenIs : Option Kind → List Read → Type 0
OpenIs none bs = none_open bs ≡ true
OpenIs (some k) [] = ⊥
OpenIs (some k) (b ∷ bs) = (b.opened ≡ true) × (b.kind ≡ k) × (none_open bs ≡ true)

-- A started tool call has a block of a tool.
abbrev pub Placed : List Read → Option ℕ → Type 0
Placed bs none = Unit
Placed bs (some i) = kind_at i bs ≡ some tool

-- The client has read what was sent.
pub record Inv (st : StreamState) (c : Client) : Type 0 where
  pub reads : read new_client st.sent ≡ some c
  pub phase : c.phase ≡ reading
  pub count : length c.blocks ≡ st.blocks
  pub opened : OpenIs st.open_type c.blocks
  pub slots : All (λ s. Placed c.blocks s.block_index) st.tool_blocks
  pub thought : said thinking c.blocks ≡ st.think_buf
  pub told : said text c.blocks ≡ st.text_buf

Placed-stop_at : (i : ℕ) (bs : List Read) (p : Option ℕ) → Placed bs p → Placed (stop_at i bs) p
Placed-stop_at i bs none h = tt
Placed-stop_at i bs (some j) h = kind_at-stop_at j i bs ∙ h

pub Placed-add_at :
    (i : ℕ) (piece : String) (bs : List Read) (p : Option ℕ)
    → Placed bs p
    → Placed (add_at i piece bs) p
Placed-add_at i piece bs none h = tt
Placed-add_at i piece bs (some j) h = kind_at-add_at j i piece bs ∙ h

Placed-next : (b : Read) (bs : List Read) (p : Option ℕ) → Placed bs p → Placed (b ∷ bs) p
Placed-next b bs none h = tt
Placed-next b bs (some j) h = kind_at-next j b bs h

stop_newest :
    (c : Client) (k : Kind) (n : ℕ)
    → c.phase ≡ reading
    → length c.blocks ≡ n
    → OpenIs (some k) c.blocks
    → (read_event (content_block_stop (n - 1)) c
        ≡ some (record c { blocks = stop_at (n - 1) c.blocks }))
      × (none_open (stop_at (n - 1) c.blocks) ≡ true)
unfolding read_event opened_at stop_at none_open is_reading
stop_newest c k n p l h = by_blocks c.blocks refl h
  where
    by_blocks :
        (bs : List Read)
        → c.blocks ≡ bs
        → OpenIs (some k) bs
        → (read_event (content_block_stop (n - 1)) c
            ≡ some (record c { blocks = stop_at (n - 1) c.blocks }))
          × (none_open (stop_at (n - 1) c.blocks) ≡ true)
    by_blocks [] e h = absurd h
    by_blocks (b ∷ bs) e h = rw e (ground (arith, p, h, l, e), ground (arith, h, l, e))

pub stopped :
    (st : StreamState) (c : Client) (k : Kind)
    → Inv st c
    → st.open_type ≡ some k
    → Inv
        (record (send (content_block_stop (st.blocks - 1)) st) { open_type = none })
        (record c { blocks = stop_at (st.blocks - 1) c.blocks })
unfolding send
stopped st c k h e =
    let i = st.blocks - 1 in
    let fits =
      stop_newest c k st.blocks h.phase h.count (subst (λ o. OpenIs o c.blocks) e h.opened) in
    record {
      reads = read-send new_client st.sent (content_block_stop i) h.reads fits.0;
      phase = h.phase;
      count = length-stop_at i c.blocks ∙ h.count;
      opened = fits.1;
      slots = All-imp _ _ st.tool_blocks (λ s. Placed-stop_at i c.blocks s.block_index) h.slots;
      thought = said-stop_at thinking i c.blocks ∙ h.thought;
      told = said-stop_at text i c.blocks ∙ h.told;
    }

-- A client that has read what was sent, for a state that is computed.
abbrev pub Followed : StreamState → Type 0
Followed st = (c : Client) × Inv st c

pub close_open_block-Inv :
    (st : StreamState) (c : Client)
    → Inv st c
    → (c' : Client) × Inv (close_open_block st) c' × ((close_open_block st).open_type ≡ none)
unfolding close_open_block
close_open_block-Inv st c h = elim (Option-cases st.open_type) [
  | inl e ↦ rw (close_open_block, e) (c, h, e)
  | inr (k, e) ↦ rw (close_open_block, e) (_, stopped st c k h e, refl)
]

pub started :
    (st : StreamState) (c : Client) (k : Kind) (b : Block)
    → kind_of b ≡ k
    → Inv st c
    → st.open_type ≡ none
    → Inv
        (record (send (content_block_start st.blocks b) st) {
          blocks = suc st.blocks;
          open_type = some k;
        })
        (record c { blocks = record { kind = kind_of b; content = ""; opened = true } ∷ c.blocks })
unfolding send
started st c k b kb h e =
    let closed : none_open c.blocks ≡ true = subst (λ o. OpenIs o c.blocks) e h.opened in
    record {
      reads =
          read-send new_client st.sent (content_block_start st.blocks b) h.reads
            (unfold read_event is_reading in ground (arith, h.phase, h.count, closed));
      phase = h.phase;
      count = ap suc h.count;
      opened = (refl, kb, closed);
      slots = All-imp _ _ st.tool_blocks (λ s. Placed-next _ c.blocks s.block_index) h.slots;
      thought = said-empty thinking (kind_of b) true c.blocks ∙ h.thought;
      told = said-empty text (kind_of b) true c.blocks ∙ h.told;
    }

pub open_block-Inv :
    (st : StreamState) (c : Client) (k : Kind) (b : Block)
    → kind_of b ≡ k
    → Inv st c
    → (c' : Client) × Inv (open_block k b st) c'
unfolding open_block
open_block-Inv st c k b kb h =
    let (c', h', e) = close_open_block-Inv st c h in
    (_, started (close_open_block st) c' k b kb h' e)
