-- ===== src/Formats/Anthropic/Stream/Reading.antt =====
-- A client that reads the events of a message and keeps its blocks, the newest one first. Like the
-- clients that the source names, it takes a delta by the index of its block, also after the block's
-- stop; everything else has to come in the order of the interface.
use Prim.Native.String.{◌++◌ as ◌++ₛ◌}
use package.text.Mathlib.TextLemmas.{append-nil, append_assoc}
use proxy_opencode.Prelude.{
  ℕ, ◌<◌, ◌≡◌, ◌∙◌, refl, sym, String, Bool, true, false, not, ◌&&◌, Option, none, some, List, [],
  ◌∷◌, ◌++◌, length, arith, ◌==◌, if◌then◌else◌, Bool-cases, Option-cases, inl, inr,
}
use proxy_opencode.Formats.Anthropic.Stream.{
  Kind, thinking, text, tool, Block, empty_thinking, empty_text, tool_use, Event, message_start,
  content_block_start, content_block_delta, content_block_stop, message_delta, message_stop,
  is_open, Usage,
}

pub record Read : Type 0 where
  pub kind : Kind
  pub content : String
  pub opened : Bool

pub data Phase : Type 0 where
  fresh reading ended over : Phase

-- `ending` is the stop reason with the usage.
pub record Client : Type 0 where
  pub phase : Phase
  pub blocks : List Read
  pub ending : Option (String × Usage)

abbrev pub new_client : Client
new_client = record { phase = fresh; blocks = []; ending = none }

unfoldable pub kind_of : Block → Kind
kind_of empty_thinking = thinking
kind_of empty_text = text
kind_of (tool_use id name) = tool

-- The kind of the block of an index, and whether this block is open.
unfoldable pub kind_at : ℕ → List Read → Option Kind
kind_at i [] = none
kind_at i (b ∷ bs) = if i == length bs then some b.kind else kind_at i bs

unfoldable pub opened_at : ℕ → List Read → Bool
opened_at i [] = false
opened_at i (b ∷ bs) = if i == length bs then b.opened else opened_at i bs

unfoldable pub add_at : ℕ → String → List Read → List Read
add_at i piece [] = []
add_at i piece (b ∷ bs) =
    if i == length bs
    then record b { content = b.content ++ₛ piece } ∷ bs
    else b ∷ add_at i piece bs

unfoldable pub stop_at : ℕ → List Read → List Read
stop_at i [] = []
stop_at i (b ∷ bs) = if i == length bs then record b { opened = false } ∷ bs else b ∷ stop_at i bs

unfoldable pub none_open : List Read → Bool
none_open [] = true
none_open (b ∷ bs) = not b.opened && none_open bs

unfoldable pub is_reading : Phase → Bool
is_reading reading = true
is_reading p = false

-- The client's reading of one event, if it comes in order.
unfoldable pub read_event : Event → Client → Option Client
unfolding kind_of kind_at opened_at add_at stop_at none_open is_reading is_open
read_event (message_start id model) c = elim c.phase [
  | fresh ↦ some (record c { phase = reading })
  | p ↦ none
]
read_event (content_block_start i b) c =
    if is_reading c.phase && (i == length c.blocks) && none_open c.blocks
    then some
        (record c { blocks = record { kind = kind_of b; content = ""; opened = true } ∷ c.blocks })
    else none
read_event (content_block_delta i k piece) c =
    if is_reading c.phase && is_open k (kind_at i c.blocks)
    then some (record c { blocks = add_at i piece c.blocks })
    else none
read_event (content_block_stop i) c =
    if is_reading c.phase && opened_at i c.blocks
    then some (record c { blocks = stop_at i c.blocks })
    else none
read_event (message_delta reason usage) c =
    if is_reading c.phase && none_open c.blocks
    then some (record c { phase = ended; ending = some (reason, usage) })
    else none
read_event message_stop c = elim c.phase [ ended ↦ some (record c { phase = over }) | p ↦ none ]

unfoldable pub read : Client → List Event → Option Client
unfolding read_event
read c [] = some c
read c (e ∷ es) = elim (read_event e c) [ none ↦ none | some c' ↦ read c' es ]

-- What the blocks of a kind say, the oldest one first.
unfoldable pub said : Kind → List Read → String
unfolding is_open
said k [] = ""
said k (b ∷ bs) = said k bs ++ₛ (if is_open k (some b.kind) then b.content else "")

read-cons :
    (c : Client) (e : Event) (es : List Event) {c' : Client}
    → read_event e c ≡ some c'
    → read c (e ∷ es) ≡ read c' es
unfolding read
read-cons c e es h = rw (read, h) refl

-- The last event is read after the others.
pub read-send :
    (c : Client) (es : List Event) (e : Event) {d d' : Client}
    → read c es ≡ some d
    → read_event e d ≡ some d'
    → read c (es ++ (e ∷ [])) ≡ some d'
unfolding read
read-send c [] e h g = ground (arith, h, g)
read-send c (e' ∷ es) e {d} {d'} h g = elim (Option-cases (read_event e' c)) [
  | inl p ↦ absurd (ground (arith, h, p))
  | inr (c', p) ↦
      read-cons c e' (es ++ (e ∷ [])) p ∙ read-send c' es e (sym (read-cons c e' es p) ∙ h) g
]

-- A block that is there has a smaller index than the next one.
pub kind_at-bound : (i : ℕ) (bs : List Read) {k : Kind} → kind_at i bs ≡ some k → i < length bs
unfolding kind_at
kind_at-bound i [] h = cc
kind_at-bound i (b ∷ bs) {k} h = ground (arith, kind_at-bound i bs {k = k})

pub kind_at-next :
    (i : ℕ) (b : Read) (bs : List Read) {k : Kind}
    → kind_at i bs ≡ some k
    → kind_at i (b ∷ bs) ≡ some k
unfolding kind_at
kind_at-next i b bs {k} h = ground (arith, kind_at-bound i bs {k = k})

pub length-add_at :
    (i : ℕ) (piece : String) (bs : List Read) → length (add_at i piece bs) ≡ length bs
unfolding add_at
length-add_at i piece [] = refl
length-add_at i piece (b ∷ bs) = ground (arith, length-add_at i piece bs)

pub kind_at-add_at :
    (i j : ℕ) (piece : String) (bs : List Read) → kind_at i (add_at j piece bs) ≡ kind_at i bs
unfolding kind_at add_at
kind_at-add_at i j piece [] = refl
kind_at-add_at i j piece (b ∷ bs) =
    ground (arith, kind_at-add_at i j piece bs, length-add_at j piece bs)

pub length-stop_at : (i : ℕ) (bs : List Read) → length (stop_at i bs) ≡ length bs
unfolding stop_at
length-stop_at i [] = refl
length-stop_at i (b ∷ bs) = ground (arith, length-stop_at i bs)

pub kind_at-stop_at : (i j : ℕ) (bs : List Read) → kind_at i (stop_at j bs) ≡ kind_at i bs
unfolding kind_at stop_at
kind_at-stop_at i j [] = refl
kind_at-stop_at i j (b ∷ bs) = ground (arith, kind_at-stop_at i j bs, length-stop_at j bs)

pub said-stop_at : (k : Kind) (i : ℕ) (bs : List Read) → said k (stop_at i bs) ≡ said k bs
unfolding said stop_at
said-stop_at k i [] = refl
said-stop_at k i (b ∷ bs) = elim (Bool-cases (i == length bs)) [
  | inl e ↦ rw e refl
  | inr e ↦ rw (e, said-stop_at k i bs) refl
]

-- A block with no content says nothing.
pub said-empty :
    (k l : Kind) (o : Bool) (bs : List Read)
    → said k (record { kind = l; content = ""; opened = o } ∷ bs) ≡ said k bs
unfolding said
said-empty k l o bs = elim (Bool-cases (is_open k (some l))) [
  | inl e ↦ rw e (append-nil (said k bs))
  | inr e ↦ rw e (append-nil (said k bs))
]

-- A text that is added to the newest block is said last; one that is added to a block of another
-- kind is not said.
pub said-add_at-newest :
    (k : Kind) (piece : String) (b : Read) (bs : List Read)
    → said k (add_at (length bs) piece (b ∷ bs))
      ≡ said k (b ∷ bs) ++ₛ (if is_open k (some b.kind) then piece else "")
unfolding said add_at
said-add_at-newest k piece b bs =
    let here : (length bs == length bs) ≡ true = ground arith in
    elim (Bool-cases (is_open k (some b.kind))) [
      | inl e ↦ rw (here, e) (sym (append_assoc (said k bs) b.content piece))
      | inr e ↦ rw (here, e) (sym (append-nil (said k bs ++ₛ "")))
    ]

pub said-add_at-other :
    (k l : Kind) (i : ℕ) (piece : String) (bs : List Read)
    → kind_at i bs ≡ some l
    → is_open k (some l) ≡ false
    → said k (add_at i piece bs) ≡ said k bs
unfolding said add_at kind_at
said-add_at-other k l i piece [] h o = refl
said-add_at-other k l i piece (b ∷ bs) h o = elim (Bool-cases (i == length bs)) [
  | inl e ↦ let same : some b.kind ≡ some l = rw e at h in rw (e, same, o) refl
  | inr e ↦ rw (e, said-add_at-other k l i piece bs (rw e at h) o) refl
]

pub none_open-add_at :
    (i : ℕ) (piece : String) (bs : List Read) → none_open (add_at i piece bs) ≡ none_open bs
unfolding none_open add_at
none_open-add_at i piece [] = refl
none_open-add_at i piece (b ∷ bs) = ground (arith, none_open-add_at i piece bs)
