-- ===== src/Formats/SseIter.antt =====
-- The reader of event streams of proxy_opencode/formats/sse_iter.py. A byte is a number; the parse
-- of a line's data as a JSON object is an argument.
pub mod Chunks
use proxy_opencode.Prelude.{
  ℕ, zero, suc, Bool, true, false, not, ◌&&◌, ◌||◌, Option, none, some, List, [], ◌∷◌, ◌++◌, length,
  drop, leb, ◌==◌, if◌then◌else◌,
}

abbrev pub Bytes : Type 0
Bytes = List ℕ

unfoldable pub newline : ℕ
newline = 10

-- `buffer.split(b"\n", 1)`, for a buffer with a newline.
unfoldable pub split_line : Bytes → Option (Bytes × Bytes)
unfolding newline
split_line [] = none
split_line (b ∷ bs) =
    let later = split_line bs in
    if b == newline
    then some ([], bs)
    else elim later [ none ↦ none | some (line, rest) ↦ some (b ∷ line, rest) ]

-- The white space of `bytes.strip`.
unfoldable pub is_space : ℕ → Bool
is_space b = (b == 32) || (leb 9 b && leb b 13)

unfoldable pub strip_left : Bytes → Bytes
unfolding is_space
strip_left [] = []
strip_left (b ∷ bs) = let rest = strip_left bs in if is_space b then rest else b ∷ bs

unfoldable pub strip_right : Bytes → Bytes
unfolding is_space
strip_right [] = []
strip_right (b ∷ bs) = elim (strip_right bs) [
  | [] ↦ if is_space b then [] else b ∷ []
  | c ∷ cs ↦ b ∷ c ∷ cs
]

unfoldable pub strip : Bytes → Bytes
unfolding strip_left strip_right
strip bs = strip_right (strip_left bs)

unfoldable pub starts_with : Bytes → Bytes → Bool
starts_with [] bs = true
starts_with (a ∷ want) [] = false
starts_with (a ∷ want) (b ∷ bs) = let rest = starts_with want bs in (a == b) && rest

unfoldable pub data_prefix : Bytes
data_prefix = 100 ∷ 97 ∷ 116 ∷ 97 ∷ 58 ∷ []

unfoldable pub done_mark : Bytes
done_mark = 91 ∷ 68 ∷ 79 ∷ 78 ∷ 69 ∷ 93 ∷ []

-- Whether the data is empty or the mark of the end of the stream.
unfoldable pub is_void : Bytes → Bool
unfolding starts_with done_mark
is_void [] = true
is_void (b ∷ bs) = starts_with done_mark (b ∷ bs) && (length bs == 5)

-- `loads` is `json.loads` where it yields an object, and `none` where it yields another value or
-- raises.
module _ {D : Type 0} (loads : Bytes → Option D) where
  -- `_data_payload`
  unfoldable pub data_payload : Bytes → Option D
  unfolding strip starts_with data_prefix is_void
  data_payload line =
      let line' = strip line in
      let found = strip (drop 5 line') in
      if not (starts_with data_prefix line')
      then none
      else if is_void found
      then none
      else loads found

  -- What a line yields, as a list.
  unfoldable pub emit : Bytes → List D
  unfolding data_payload
  emit line = elim (data_payload line) [ none ↦ [] | some found ↦ found ∷ [] ]

  -- The loop over the lines of the buffer; the first argument bounds its rounds.
  unfoldable pub drain : ℕ → Bytes → List D × Bytes
  unfolding split_line emit
  drain zero buffer = ([], buffer)
  drain (suc fuel) buffer = elim (split_line buffer) [
    | none ↦ ([], buffer)
    | some (line, rest) ↦ let (out, left) = drain fuel rest in (emit line ++ out, left)
  ]

  -- What is left in the buffer at the end.
  unfoldable pub flush : Bytes → List D
  unfolding emit
  flush [] = []
  flush (b ∷ bs) = emit (b ∷ bs)

  -- `parse_sse_chunks`, with the buffer; each line takes a byte of the buffer at least.
  unfoldable pub parse : Bytes → List Bytes → List D
  unfolding drain flush
  parse buffer [] = flush buffer
  parse buffer (chunk ∷ chunks) =
      let (out, left) = drain (length (buffer ++ chunk)) (buffer ++ chunk) in
      out ++ parse left chunks
