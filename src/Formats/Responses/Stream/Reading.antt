-- ===== src/Formats/Responses/Stream/Reading.antt =====
-- A client that reads the events of a response and keeps its items, the newest one first.
use Prim.Native.String.{◌++◌ as ◌++ₛ◌}
use mathlib.Core.Option.{some-injective}
use proxy_opencode.Prelude.{
  ℕ, ◌+◌, ◌<◌, ◌≡◌, ◌≢◌, ◌∙◌, refl, sym, ap, String, Bool, true, false, not, ◌&&◌, Option, none,
  some, List, [], ◌∷◌, ◌++◌, length, arith, ◌==◌, str_eq, if◌then◌else◌, Bool-cases, Option-cases,
  inl, inr,
}
use proxy_opencode.Formats.Responses.Stream.{
  Item, message_item, function_call, Event, response_created, response_in_progress,
  response_completed, output_item_added, output_item_done, content_part_added, output_text_delta,
  output_text_done, content_part_done, arguments_delta, arguments_done,
}

pub record Read : Type 0 where
  pub is_call : Bool
  pub content : String
  pub unfinished : Bool

pub data Phase : Type 0 where
  fresh created reading over : Phase

-- `finished` has the items of the events `output_item_done`, in their order.
pub record Client : Type 0 where
  pub phase : Phase
  pub items : List Read
  pub finished : List Item

abbrev pub new_client : Client
new_client = record { phase = fresh; items = []; finished = [] }

abbrev pub message_of : String → Read
message_of t = record { is_call = false; content = t; unfinished = true }

abbrev pub call_of : String → Read
call_of a = record { is_call = true; content = a; unfinished = true }

-- The item of an output index, and its replacement.
unfoldable pub item_at : ℕ → List Read → Option Read
item_at i [] = none
item_at i (b ∷ bs) = if i == length bs then some b else item_at i bs

unfoldable pub set_at : ℕ → Read → List Read → List Read
set_at i r [] = []
set_at i r (b ∷ bs) = let rest = set_at i r bs in if i == length bs then r ∷ bs else b ∷ rest

-- The number of items that are not finished.
unfoldable pub pending : List Read → ℕ
pending [] = 0
pending (b ∷ bs) = (if b.unfinished then 1 else 0) + pending bs

unfoldable pub is_reading : Phase → Bool
is_reading reading = true
is_reading p = false

-- A new item starts with no content.
unfoldable pub new_item : Item → Read
new_item (message_item id t) = message_of ""
new_item (function_call id call_id name arguments completed) = call_of ""

abbrev same_sort : Bool → Bool → Bool
same_sort true b = b
same_sort false b = not b

-- An item of the sort that an event is about, if it is not finished.
abbrev live : Bool → Option Read → Option Read
live want none = none
live want (some r) = if same_sort want r.is_call && r.unfinished then some r else none

-- A delta adds to the content; the event at the end repeats the whole content.
unfoldable pub read_delta : Bool → ℕ → String → Client → Option Client
unfolding item_at set_at
read_delta want i piece c = elim (live want (item_at i c.items)) [
  | none ↦ none
  | some r ↦
      some (record c { items = set_at i (record r { content = r.content ++ₛ piece }) c.items })
]

unfoldable pub read_whole : Bool → ℕ → String → Client → Option Client
unfolding item_at
read_whole want i whole c = elim (live want (item_at i c.items)) [
  | none ↦ none
  | some r ↦ if str_eq r.content whole then some c else none
]

unfoldable pub read_done : Bool → ℕ → String → Item → Client → Option Client
unfolding item_at set_at
read_done want i whole item c = elim (live want (item_at i c.items)) [
  | none ↦ none
  | some r ↦
      if str_eq r.content whole
      then some (record c {
        items = set_at i (record r { unfinished = false }) c.items;
        finished = c.finished ++ (item ∷ []);
      })
      else none
]

abbrev if_reading : Client → Option Client → Option Client
if_reading c next = if is_reading c.phase then next else none

pub if_reading-yes :
    (c : Client) (next : Option Client) → c.phase ≡ reading → if_reading c next ≡ next
unfolding is_reading
if_reading-yes c next p = ground (arith, p)

-- The client's reading of one event, if it comes in order.
unfoldable pub read_event : Event → Client → Option Client
unfolding is_reading new_item read_delta read_whole read_done pending item_at
read_event (response_created e) c = elim c.phase [
  | fresh ↦ some (record c { phase = created })
  | p ↦ none
]
read_event (response_in_progress e) c = elim c.phase [
  | created ↦ some (record c { phase = reading })
  | p ↦ none
]
read_event (output_item_added i item) c =
    if_reading c
      (if i == length c.items then some (record c { items = new_item item ∷ c.items }) else none)
read_event (content_part_added id i) c = if_reading c (read_whole false i "" c)
read_event (output_text_delta id i piece) c = if_reading c (read_delta false i piece c)
read_event (arguments_delta id i piece) c = if_reading c (read_delta true i piece c)
read_event (output_text_done id i t) c = if_reading c (read_whole false i t c)
read_event (content_part_done id i t) c = if_reading c (read_whole false i t c)
read_event (arguments_done id i a) c = if_reading c (read_whole true i a c)
read_event (output_item_done i (message_item id none)) c = none
read_event (output_item_done i (message_item id (some t))) c =
    if_reading c (read_done false i t (message_item id (some t)) c)
read_event (output_item_done i (function_call id call_id name arguments completed)) c =
    if_reading c (
      if completed
      then read_done true i arguments (function_call id call_id name arguments completed) c
      else none)
read_event (response_completed e) c =
    if_reading c (if pending c.items == 0 then some (record c { phase = over }) else none)

unfoldable pub read : Client → List (ℕ × Event) → Option Client
unfolding read_event
read c [] = some c
read c ((n, e) ∷ es) = elim (read_event e c) [ none ↦ none | some c' ↦ read c' es ]

read-cons :
    (c : Client) (n : ℕ) (e : Event) (es : List (ℕ × Event)) {c' : Client}
    → read_event e c ≡ some c'
    → read c ((n, e) ∷ es) ≡ read c' es
unfolding read
read-cons c n e es h = rw (read, h) refl

-- The last event is read after the others.
pub read-send :
    (c : Client) (es : List (ℕ × Event)) (n : ℕ) (e : Event) {d d' : Client}
    → read c es ≡ some d
    → read_event e d ≡ some d'
    → read c (es ++ ((n, e) ∷ [])) ≡ some d'
unfolding read
read-send c [] n e h g = ground (arith, h, g)
read-send c ((n', e') ∷ es) n e {d} {d'} h g = elim (Option-cases (read_event e' c)) [
  | inl p ↦ absurd (ground (arith, h, p))
  | inr (c', p) ↦
      read-cons c n' e' (es ++ ((n, e) ∷ [])) p
      ∙ read-send c' es n e (sym (read-cons c n' e' es p) ∙ h) g
]

pub item_at-bound : (i : ℕ) (bs : List Read) {r : Read} → item_at i bs ≡ some r → i < length bs
unfolding item_at
item_at-bound i [] h = cc
item_at-bound i (b ∷ bs) {r} h = ground (arith, item_at-bound i bs {r = r})

pub item_at-next :
    (i : ℕ) (b : Read) (bs : List Read) {r : Read}
    → item_at i bs ≡ some r
    → item_at i (b ∷ bs) ≡ some r
unfolding item_at
item_at-next i b bs {r} h = ground (arith, item_at-bound i bs {r = r})

pub length-set_at : (i : ℕ) (r : Read) (bs : List Read) → length (set_at i r bs) ≡ length bs
unfolding set_at
length-set_at i r [] = refl
length-set_at i r (b ∷ bs) = ground (arith, length-set_at i r bs)

pub item_at-set_at :
    (i : ℕ) (r : Read) (bs : List Read) {r' : Read}
    → item_at i bs ≡ some r'
    → item_at i (set_at i r bs) ≡ some r
unfolding item_at set_at
item_at-set_at i r [] h = cc
item_at-set_at i r (b ∷ bs) {r'} h =
    ground (arith, item_at-set_at i r bs {r' = r'}, length-set_at i r bs)

pub item_at-set_other :
    (i j : ℕ) (r : Read) (bs : List Read) → i ≢ j → item_at j (set_at i r bs) ≡ item_at j bs
unfolding item_at set_at
item_at-set_other i j r [] h = refl
item_at-set_other i j r (b ∷ bs) h =
    ground (arith, item_at-set_other i j r bs h, length-set_at i r bs, h)

pub set_at-same : (i : ℕ) (r : Read) (bs : List Read) → item_at i bs ≡ some r → set_at i r bs ≡ bs
unfolding item_at set_at
set_at-same i r [] h = refl
set_at-same i r (b ∷ bs) h = elim (Bool-cases (i == length bs)) [
  | inl e ↦ rw e (ap (λ x. x ∷ bs) (sym (some-injective _ _ (rw e at h))))
  | inr e ↦ rw e (ap (λ xs. b ∷ xs) (set_at-same i r bs (rw e at h)))
]

-- What is pending after an item is replaced.
abbrev weight : Read → ℕ
weight r = if r.unfinished then 1 else 0

pub pending-set_at :
    (i : ℕ) (r r' : Read) (bs : List Read)
    → item_at i bs ≡ some r'
    → pending (set_at i r bs) + weight r' ≡ pending bs + weight r
unfolding item_at set_at pending
pending-set_at i r r' [] h = cc
pending-set_at i r r' (b ∷ bs) h = elim (Bool-cases (i == length bs)) [
  | inl e ↦ let same : b ≡ r' = some-injective _ _ (rw e at h) in rw (e, same) (omega arith)
  | inr e ↦ rw e (omega (arith, pending-set_at i r r' bs (rw e at h)))
]
