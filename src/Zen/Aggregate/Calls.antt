-- ===== src/Zen/Aggregate/Calls.antt =====
-- The tool calls of an answer that is put together.
use Prim.Native.String.{◌++◌ as ◌++ₛ◌}
use text.Mathlib.TextLemmas.{nil-append, append-nil, append_assoc}
use proxy_opencode.Prelude.{
  ℕ, ◌≡◌, ◌∙◌, refl, sym, ap, String, true, false, List, [], ◌∷◌, arith, ◌==◌, if◌then◌else◌,
  Bool-cases, inl, inr,
}
use proxy_opencode.Zen.Aggregate.{
  CallDelta, Choice, Line, other_line, end_line, chunk_line, Slot, merge_slot, merge_call,
  merge_tool_call_delta, Gathered, gather_choice, gather_choices, gather_chunk, gather, insert_slot,
  ordered, complete, nothing_yet, aggregate_sse,
}

-- The arguments of the tool call with an index, the empty text if there is none.
unfoldable pub arguments_at : ℕ → List Slot → String
arguments_at i [] = ""
arguments_at i (s ∷ ss) = if s.index == i then s.arguments else arguments_at i ss

-- The pieces of these arguments in the deltas, one after the other.
unfoldable pub piece : ℕ → CallDelta → String
piece i d = if d.index == i then d.arguments else ""

unfoldable pub delta_pieces : ℕ → List CallDelta → String
unfolding piece
delta_pieces i [] = ""
delta_pieces i (d ∷ ds) = piece i d ++ₛ delta_pieces i ds

unfoldable pub choice_pieces : ℕ → List Choice → String
unfolding delta_pieces
choice_pieces i [] = ""
choice_pieces i (c ∷ cs) = delta_pieces i c.tool_calls ++ₛ choice_pieces i cs

unfoldable pub pieces : {U : Type 0} → ℕ → List (Line U) → String
unfolding choice_pieces
pieces i [] = ""
pieces i (other_line ∷ lines) = pieces i lines
pieces i (end_line ∷ lines) = ""
pieces i (chunk_line c ∷ lines) = choice_pieces i c.choices ++ₛ pieces i lines

arguments_at-merge_call :
    (i : ℕ) (d : CallDelta) (ss : List Slot)
    → arguments_at i (merge_call d ss) ≡ arguments_at i ss ++ₛ piece i d
unfolding arguments_at merge_call merge_slot piece
arguments_at-merge_call i d [] = elim (Bool-cases (d.index == i)) [
  | inl e ↦ rw e refl
  | inr e ↦ rw e (sym (nil-append ""))
]
arguments_at-merge_call i d (s ∷ ss) = elim (Bool-cases (s.index == d.index)) [
  | inl same ↦ elim (Bool-cases (s.index == i)) [
    | inl e ↦ let f : (d.index == i) ≡ true = ground arith in rw (same, e, f) refl
    | inr e ↦
        let f : (d.index == i) ≡ false = ground arith in
        rw (same, e, f) (sym (append-nil (arguments_at i ss)))
  ]
  | inr differ ↦ elim (Bool-cases (s.index == i)) [
    | inl e ↦
        let f : (d.index == i) ≡ false = ground arith in
        rw (differ, e, f) (sym (append-nil s.arguments))
    | inr e ↦ rw (differ, e) (arguments_at-merge_call i d ss)
  ]
]

arguments_at-insert_slot :
    (i : ℕ) (s : Slot) (ss : List Slot)
    → arguments_at i (insert_slot s ss) ≡ (if s.index == i then s.arguments else arguments_at i ss)
unfolding arguments_at insert_slot
arguments_at-insert_slot i s [] = refl
arguments_at-insert_slot i s (t ∷ ts) = ground (arith, arguments_at-insert_slot i s ts)

arguments_at-ordered : (i : ℕ) (ss : List Slot) → arguments_at i (ordered ss) ≡ arguments_at i ss
unfolding arguments_at ordered
arguments_at-ordered i [] = refl
arguments_at-ordered i (s ∷ ss) =
    arguments_at-insert_slot i s (ordered ss)
    ∙ ap (λ text. if s.index == i then s.arguments else text) (arguments_at-ordered i ss)

arguments_at-deltas :
    (i : ℕ) (ds : List CallDelta) (ss : List Slot)
    → arguments_at i (merge_tool_call_delta ds ss) ≡ arguments_at i ss ++ₛ delta_pieces i ds
unfolding merge_tool_call_delta delta_pieces
arguments_at-deltas i [] ss = sym (append-nil (arguments_at i ss))
arguments_at-deltas i (d ∷ ds) ss =
    arguments_at-deltas i ds (merge_call d ss)
    ∙ ap (λ text. text ++ₛ delta_pieces i ds) (arguments_at-merge_call i d ss)
    ∙ append_assoc (arguments_at i ss) (piece i d) (delta_pieces i ds)

module _ {U : Type 0} where
  arguments_at-choices :
      (i : ℕ) (cs : List Choice) (g : Gathered U)
      → arguments_at i (gather_choices cs g).tool_calls
        ≡ arguments_at i g.tool_calls ++ₛ choice_pieces i cs
  unfolding gather_choices choice_pieces gather_choice
  arguments_at-choices i [] g = sym (append-nil (arguments_at i g.tool_calls))
  arguments_at-choices i (c ∷ cs) g =
      arguments_at-choices i cs (gather_choice c g)
      ∙ ap (λ text. text ++ₛ choice_pieces i cs) (arguments_at-deltas i c.tool_calls g.tool_calls)
      ∙ append_assoc (arguments_at i g.tool_calls) (delta_pieces i c.tool_calls)
          (choice_pieces i cs)

  arguments_at-gather :
      (i : ℕ) (lines : List (Line U)) (g : Gathered U)
      → arguments_at i (gather lines g).tool_calls ≡ arguments_at i g.tool_calls ++ₛ pieces i lines
  unfolding gather pieces gather_chunk
  arguments_at-gather i [] g = sym (append-nil (arguments_at i g.tool_calls))
  arguments_at-gather i (other_line ∷ lines) g = arguments_at-gather i lines g
  arguments_at-gather i (end_line ∷ lines) g = sym (append-nil (arguments_at i g.tool_calls))
  arguments_at-gather i (chunk_line c ∷ lines) g =
      arguments_at-gather i lines (gather_chunk c g)
      ∙ ap (λ text. text ++ₛ pieces i lines) (arguments_at-choices i c.choices _)
      ∙ append_assoc (arguments_at i g.tool_calls) (choice_pieces i c.choices) (pieces i lines)

  -- A tool call of the answer has the arguments that the stream gave in pieces for its index, up to
  -- the stream's end mark, one after the other; how the pieces of different calls alternate makes no
  -- difference.
  pub aggregate_sse-arguments :
      (random_id : String) (now i : ℕ) (lines : List (Line U))
      → arguments_at i (aggregate_sse random_id now lines).tool_calls ≡ pieces i lines
  unfolding aggregate_sse complete arguments_at pieces
  aggregate_sse-arguments random_id now i lines =
      arguments_at-ordered i (gather lines (nothing_yet now)).tool_calls
      ∙ arguments_at-gather i lines (nothing_yet now)
      ∙ nil-append (pieces i lines)
