-- ===== src/Formats/SseIter/Chunks.antt =====
-- The chunks in which an event stream arrives.
use mathlib.Core.List.{append-nil, append_assoc}
use mathlib.Core.Option.{some-injective}
use proxy_opencode.Prelude.{
  ℕ, zero, suc, ◌≤◌, ◌<◌, ◌≡◌, ◌∙◌, refl, sym, ap, Option, none, some, List, [], ◌∷◌, ◌++◌, length,
  arith, ◌==◌, if◌then◌else◌, Bool-cases, Option-cases, inl, inr,
}
use proxy_opencode.Formats.SseIter.{
  Bytes, newline, split_line, emit, data_payload, drain, flush, parse,
}

-- `stream.split(b"\n")`
abbrev onto_first : ℕ → List Bytes → List Bytes
onto_first b [] = (b ∷ []) ∷ []
onto_first b (line ∷ lines) = (b ∷ line) ∷ lines

unfoldable pub lines : Bytes → List Bytes
unfolding newline
lines [] = [] ∷ []
lines (b ∷ bs) = if b == newline then [] ∷ lines bs else onto_first b (lines bs)

unfoldable pub concat : List Bytes → Bytes
concat [] = []
concat (chunk ∷ chunks) = chunk ++ concat chunks

lines-some :
    (buffer more line rest : Bytes)
    → split_line buffer ≡ some (line, rest)
    → (lines (buffer ++ more) ≡ line ∷ lines (rest ++ more)) × (length rest < length buffer)
unfolding split_line lines
lines-some [] more line rest e = absurd (ground arith)
lines-some (b ∷ bs) more line rest e = elim (Bool-cases (b == newline)) [
  | inl end ↦
      let same = some-injective ([], bs) (line, rest) (rw end at e) in
      let first : [] ≡ line = ap (λ p. p.0) same in
      let later : bs ≡ rest = ap (λ p. p.1) same in
      rw (end, sym first, sym later) (refl, omega arith)
  | inr inside ↦ elim (Option-cases (split_line bs)) [
    | inl later ↦ absurd (ground arith)
    | inr ((l, r), later) ↦
        let same = some-injective (b ∷ l, r) (line, rest) (rw (inside, later) at e) in
        let first : b ∷ l ≡ line = ap (λ p. p.0) same in
        let next : r ≡ rest = ap (λ p. p.1) same in
        let (rec, less) = lines-some bs more l r later in
        rw (inside, sym first, sym next) (ap (onto_first b) rec, omega (arith, less))
  ]
]

lines-none : (buffer : Bytes) → split_line buffer ≡ none → lines buffer ≡ buffer ∷ []
unfolding split_line lines
lines-none [] e = refl
lines-none (b ∷ bs) e = elim (Bool-cases (b == newline)) [
  | inl end ↦ absurd (ground arith)
  | inr inside ↦ elim (Option-cases (split_line bs)) [
    | inl later ↦ rw inside (ap (onto_first b) (lines-none bs later))
    | inr (r, later) ↦ absurd (ground arith)
  ]
]

module _ {D : Type 0} (loads : Bytes → Option D) where
  -- What the lines of a whole stream yield.
  unfoldable pub emit_all : List Bytes → List D
  emit_all [] = []
  emit_all (line ∷ ls) = emit loads line ++ emit_all ls

  drain-lem :
      (fuel : ℕ) (buffer more : Bytes)
      → length buffer ≤ fuel
      → let (out, left) = drain loads fuel buffer in
        (out ++ emit_all (lines (left ++ more)) ≡ emit_all (lines (buffer ++ more)))
        × (split_line left ≡ none)
  unfolding drain emit_all
  drain-lem zero [] more le = (refl, unfold split_line in refl)
  drain-lem zero (b ∷ bs) more le = absurd (omega (arith, le))
  drain-lem (suc fuel) buffer more le =
      of (split_line buffer) refl (λ rest less. drain-lem fuel rest more (omega (arith, less, le)))
    where
      of :
          (o : Option (Bytes × Bytes))
          → split_line buffer ≡ o
          → ((rest : Bytes)
              → length rest < length buffer
              → let (out, left) = drain loads fuel rest in
                (out ++ emit_all (lines (left ++ more)) ≡ emit_all (lines (rest ++ more)))
                × (split_line left ≡ none))
          → let (out, left) : List D × Bytes = elim o [
            | none ↦ ([], buffer)
            | some (line, rest) ↦
                let (out, left) = drain loads fuel rest in (emit loads line ++ out, left)
          ] in
            (out ++ emit_all (lines (left ++ more)) ≡ emit_all (lines (buffer ++ more)))
            × (split_line left ≡ none)
      of none e shorter = (refl, e)
      of (some (line, rest)) e shorter =
          let (split, less) = lines-some buffer more line rest e in
          let (same, done) = shorter rest less in
          let (out, left) = drain loads fuel rest in
          (
            append_assoc (emit loads line) out _
                ∙ ap (λ xs. emit loads line ++ xs) same
                ∙ ap emit_all (sym split),
            done,
          )

  flush-lem :
      (buffer : Bytes) → split_line buffer ≡ none → flush loads buffer ≡ emit_all (lines buffer)
  unfolding flush
  flush-lem [] e = unfold emit data_payload lines emit_all in refl
  flush-lem (b ∷ bs) e =
      sym (append-nil (emit loads (b ∷ bs)))
      ∙ sym (ap emit_all (lines-none (b ∷ bs) e) ∙ unfold emit_all in refl)

  parse-lem :
      (buffer : Bytes) (chunks : List Bytes)
      → split_line buffer ≡ none
      → parse loads buffer chunks ≡ emit_all (lines (buffer ++ concat chunks))
  unfolding parse concat
  parse-lem buffer [] e =
      flush-lem buffer e ∙ ap (λ bs. emit_all (lines bs)) (sym (append-nil buffer))
  parse-lem buffer (chunk ∷ chunks) e =
      let whole = buffer ++ chunk in
      let (out, left) = drain loads (length whole) whole in
      let (same, done) = drain-lem (length whole) whole (concat chunks) (omega arith) in
      ap (λ xs. out ++ xs) (parse-lem left chunks done)
      ∙ same
      ∙ ap (λ bs. emit_all (lines bs)) (append_assoc buffer chunk (concat chunks))

  -- What is read from a stream depends on its bytes alone, not on the chunks in which they arrive: it
  -- is what the lines of the whole stream yield, in their order, a last line without its end
  -- included.
  pub parse_whole : (chunks : List Bytes) → parse loads [] chunks ≡ emit_all (lines (concat chunks))
  parse_whole chunks = parse-lem [] chunks (unfold split_line in refl)
