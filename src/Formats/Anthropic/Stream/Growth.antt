-- ===== src/Formats/Anthropic/Stream/Growth.antt =====
-- The piece of arguments in a delta goes to the block of its tool call.
use Prim.Native.String.{◌++◌ as ◌++ₛ◌}
use mathlib.Core.Option.{some-injective}
use package.text.Mathlib.TextLemmas.{append-nil}
use proxy_opencode.Prelude.{
  ℕ, ◌-◌, ◌<◌, ◌≡◌, ◌≢◌, ◌∙◌, refl, sym, ap, String, true, false, none, some, arith, ◌==◌, eq_iff,
  if◌then◌else◌, Bool-cases, Option-cases, inl, inr,
}
use proxy_opencode.Zen.Aggregate.{CallDelta, is_empty}
use proxy_opencode.Zen.Aggregate.Calls.{piece}
use proxy_opencode.Formats.Anthropic.Stream.{
  tool, tool_use, content_block_delta, StreamState, ToolBlock, send, open_block, put_slot,
  on_arguments,
}
use proxy_opencode.Formats.Anthropic.Stream.Arguments.{
  delta_at, deltas_at, deltas_at-send, place, place-put_slot, Args, silent, open-Args, told-Args,
  Args,
}

module _ (d : CallDelta) (told : ℕ → String) where
  abbrev pub more : ℕ → String
  more i = told i ++ₛ piece i d

  no_more : is_empty d.arguments ≡ true → (i : ℕ) → told i ≡ more i
  unfolding piece
  no_more e i = elim (Bool-cases (d.index == i)) [
    | inl here ↦ rw (here, (eq_iff d.arguments "").0 e) (sym (append-nil (told i)))
    | inr there ↦ rw there (sym (append-nil (told i)))
  ]

  -- The pieces go to the call's own block.
  grown-Args :
      (st : StreamState) (j : ℕ)
      → Args st told
      → place d.index st.tool_blocks ≡ some j
      → Args (send (content_block_delta j tool d.arguments) st) more
  unfolding send
  grown-Args st j h at =
      let e = content_block_delta j tool d.arguments in
      let here : (i k : ℕ) → place i st.tool_blocks ≡ some k → delta_at k e ≡ piece i d = λ i k p.
        unfold delta_at piece in
        elim (Bool-cases (d.index == i)) [
          | inl same ↦
              let i' : d.index ≡ i = ground (arith, same) in
              let k' : j ≡ k =
                some-injective _ _ (sym at ∙ ap (λ x. place x st.tool_blocks) i' ∙ p) in
              ground (arith, same, k')
          | inr differ ↦
              let n : j ≢ k = λ q.
                let i' : d.index ≡ i = h.apart d.index i k (at ∙ ap some q) p in
                ground (arith, differ, i') in
              ground (arith, differ, n)
        ] in
      let elsewhere : (i : ℕ) → place i st.tool_blocks ≡ none → d.index ≢ i =
        λ i p q. let both : some j ≡ none = sym at ∙ ap (λ x. place x st.tool_blocks) q ∙ p in cc in
      record {
        own = λ i k p. deltas_at-send k e st ∙ (λ x. h.own i k p x ++ₛ here i k p x);
        unplaced = λ i p.
            let n : d.index ≢ i = elsewhere i p in
            let none_here : piece i d ≡ "" = unfold piece in ground (arith, n) in
            ap (λ t. told i ++ₛ t) none_here ∙ append-nil (told i) ∙ h.unplaced i p;
        below = h.below;
        new = λ k b.
            let n : j ≢ k = λ q. omega (arith, q, b, h.below d.index j at) in
            silent k e st (unfold delta_at in ground (arith, n)) ∙ h.new k b;
        apart = h.apart;
        opened = h.opened;
        others = h.others;
      }

  -- The block of a call is started.
  started-Args :
      (s : ToolBlock) (st : StreamState)
      → s.index ≡ d.index
      → place d.index st.tool_blocks ≡ none
      → Args st told
      → let st' = open_block tool (tool_use s.id s.name) st in
        let started = record s { block_index = some (st'.blocks - 1) } in
        Args (record st' { tool_blocks = put_slot started st'.tool_blocks }) told
        × (place d.index (put_slot started st'.tool_blocks) ≡ some (st'.blocks - 1))
  started-Args s st i at h =
      let st' = open_block tool (tool_use s.id s.name) st in
      let (h', others, fresh) = open-Args st told tool (tool_use s.id s.name) h in
      let j = st'.blocks - 1 in
      let some_block : 0 < st'.blocks = h'.opened tool (unfold open_block in refl) in
      let started : ToolBlock = record s { block_index = some j } in
      let ts = put_slot started st'.tool_blocks in
      let placed : (x : ℕ)
          → place x ts ≡ (if d.index == x then some j else place x st'.tool_blocks) =
        λ x.
          place-put_slot x started st'.tool_blocks
          ∙ ap (λ k. if k == x then some j else place x st'.tool_blocks) i in
      let old : (x : ℕ) → (d.index == x) ≡ false → place x ts ≡ place x st'.tool_blocks =
        λ x e. placed x ∙ ap (λ b. if b then some j else place x st'.tool_blocks) e in
      let now : (x : ℕ) → (d.index == x) ≡ true → place x ts ≡ some j =
        λ x e. placed x ∙ ap (λ b. if b then some j else place x st'.tool_blocks) e in
      let index : (x : ℕ) → (d.index == x) ≡ true → d.index ≡ x = λ x e. ground (arith, e) in
      let is_j : (x k : ℕ) → (d.index == x) ≡ true → place x ts ≡ some k → k ≡ j =
        λ x k e p. some-injective _ _ (sym p ∙ now x e) in
      (
        record {
          own = λ x k p. elim (Bool-cases (d.index == x)) [
            | inl e ↦
                ap (λ y. deltas_at y st'.sent) (is_j x k e p)
                ∙ fresh
                ∙ sym (ap told (sym (index x e)) ∙ h.unplaced d.index at)
            | inr e ↦ h'.own x k (sym (old x e) ∙ p)
          ];
          unplaced = λ x p. elim (Bool-cases (d.index == x)) [
            | inl e ↦ let both : some j ≡ none = sym (now x e) ∙ p in cc
            | inr e ↦ h'.unplaced x (sym (old x e) ∙ p)
          ];
          below = λ x k p. elim (Bool-cases (d.index == x)) [
            | inl e ↦ omega (arith, is_j x k e p, some_block)
            | inr e ↦ h'.below x k (sym (old x e) ∙ p)
          ];
          new = h'.new;
          apart = λ x y k p q. elim (Bool-cases (d.index == x)) [
            | inl e ↦ elim (Bool-cases (d.index == y)) [
              | inl e' ↦ sym (index x e) ∙ index y e'
              | inr e' ↦ absurd (omega (arith, is_j x k e p, others y k (sym (old y e') ∙ q)))
            ]
            | inr e ↦ elim (Bool-cases (d.index == y)) [
              | inl e' ↦ absurd (omega (arith, is_j y k e' q, others x k (sym (old x e) ∙ p)))
              | inr e' ↦ h'.apart x y k (sym (old x e) ∙ p) (sym (old y e') ∙ q)
            ]
          ];
          opened = h'.opened;
          others =
              λ k e n x y p. absurd (n (some-injective _ _ (sym e ∙ unfold open_block in refl)));
        },
        now d.index (ground arith),
      )

  pub on_arguments-Args :
      (s : ToolBlock) (st : StreamState)
      → s.index ≡ d.index
      → place d.index st.tool_blocks ≡ s.block_index
      → Args st told
      → Args (on_arguments d.arguments s st) more
  unfolding on_arguments
  on_arguments-Args s st i at h = elim (Option-cases s.block_index) [
    | inl e ↦ elim (Bool-cases (is_empty d.arguments)) [
      | inl p ↦ rw (on_arguments, e, p) (told-Args st told more (no_more p) h)
      | inr p ↦
          let (h', at') = started-Args s st i (at ∙ e) h in
          rw (on_arguments, e, p) (grown-Args _ _ h' at')
    ]
    | inr (j, e) ↦ elim (Bool-cases (is_empty d.arguments)) [
      | inl p ↦ rw (on_arguments, e, p) (told-Args st told more (no_more p) h)
      | inr p ↦ rw (on_arguments, e, p) (grown-Args st j h (at ∙ e))
    ]
  ]
