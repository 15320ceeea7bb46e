-- ===== src/Formats/Responses/Stream/Effects.antt =====
-- What a delta does to the tool calls and to the text, and what the aggregation makes of it.
use Prim.Native.String.{◌++◌ as ◌++ₛ◌}
use proxy_opencode.Prelude.{
  ℕ, ◌≡◌, ◌∙◌, refl, sym, ap, subst, String, true, false, not, ◌&&◌, ◌||◌, List, [], ◌∷◌, map,
  arith, leb, ◌==◌, Bool-cases, inl, inr,
}
use proxy_opencode.Zen.Aggregate.{
  CallDelta, Slot, merge_slot, merge_call, insert_slot, ordered, is_empty, or_text,
}
use proxy_opencode.Formats.Responses.Stream.{
  CallSlot, StreamState, send, slot_at, put_slot, insert_call, sorted_calls, Setup, slot_for,
  merged, announce, send_arguments, on_call,
}

-- What a call of the stream has in common with a call of the aggregation.
abbrev pub View : Type 0
View = ℕ × String × String × String × String

abbrev pub view : CallSlot → View
view s = (s.index, s.id, s.name, s.arguments, s.item_id)

module _ (cfg : Setup) where
  abbrev pub slot_view : Slot → View
  slot_view g = (g.index, g.id, g.name, g.arguments, cfg.item_id g.index)

  abbrev pub step : CallDelta → List CallSlot → CallSlot
  step d ss = merged cfg d (slot_for cfg d.index ss)

  -- A delta puts one call; the message stays as it is.
  pub record Effect (d : CallDelta) (st st' : StreamState) : Type 0 where
    pub put : CallSlot
    pub put_view : view put ≡ view (step d st.tool_calls)
    pub tool_calls : st'.tool_calls ≡ put_slot put st.tool_calls
    pub msg_index : st'.msg_index ≡ st.msg_index
    pub text_buf : st'.text_buf ≡ st.text_buf

  announce-Effect :
      (d : CallDelta) (st : StreamState) → Effect d st (announce cfg (step d st.tool_calls) st)
  unfolding announce send
  announce-Effect d st =
      let s = step d st.tool_calls in
      elim (Bool-cases (not s.announced && (not (is_empty s.id) || not (is_empty s.name)))) [
        | inl e ↦
            rw (announce, e)
              (record {
                put = record s { item_index = st.next_item_index; announced = true };
                put_view = refl;
                tool_calls = refl;
                msg_index = refl;
                text_buf = refl;
              })
        | inr e ↦
            rw (announce, e)
              (record {
                put = s;
                put_view = refl;
                tool_calls = refl;
                msg_index = refl;
                text_buf = refl;
              })
      ]

  send_arguments-Effect :
      (d : CallDelta) (piece : String) (s : CallSlot) (st st' : StreamState)
      → Effect d st st'
      → Effect d st (send_arguments cfg piece s st')
  unfolding send_arguments send
  send_arguments-Effect d piece s st st' h =
      elim (Bool-cases (not (is_empty piece) && s.announced)) [
        | inl e ↦
            rw (send_arguments, e)
              (record {
                put = h.put;
                put_view = h.put_view;
                tool_calls = h.tool_calls;
                msg_index = h.msg_index;
                text_buf = h.text_buf;
              })
        | inr e ↦ rw (send_arguments, e) h
      ]

  pub slot_for-index : (i : ℕ) (ss : List CallSlot) → (slot_for cfg i ss).index ≡ i
  unfolding slot_for slot_at
  slot_for-index i [] = refl
  slot_for-index i (s ∷ ss) = elim (Bool-cases (s.index == i)) [
    | inl e ↦ rw (slot_for, e) (ground (arith, e))
    | inr e ↦ rw (slot_for, e) (slot_for-index i ss)
  ]

  pub put-index :
      (d : CallDelta) (st st' : StreamState) (e : Effect d st st') → e.put.index ≡ d.index
  unfolding merged
  put-index d st st' e = ap (λ v. v.0) e.put_view ∙ slot_for-index d.index st.tool_calls

  pub on_call-Effect : (d : CallDelta) (st : StreamState) → Effect d st (on_call cfg d st)
  unfolding on_call
  on_call-Effect d st =
      let st' = announce cfg (step d st.tool_calls) st in
      send_arguments-Effect d d.arguments (slot_for cfg d.index st'.tool_calls) st st'
        (announce-Effect d st)

  slot_for-here :
      (i : ℕ) (s : CallSlot) (ss : List CallSlot)
      → (s.index == i) ≡ true
      → slot_for cfg i (s ∷ ss) ≡ s
  unfolding slot_for slot_at
  slot_for-here i s ss e = rw (slot_for, e) refl

  slot_for-there :
      (i : ℕ) (s : CallSlot) (ss : List CallSlot)
      → (s.index == i) ≡ false
      → slot_for cfg i (s ∷ ss) ≡ slot_for cfg i ss
  unfolding slot_for slot_at
  slot_for-there i s ss e = rw (slot_for, e) refl

  abbrev merged_view : CallDelta → View → View
  merged_view d (i, id, name, arguments, item_id) =
      (i, or_text d.id id, name ++ₛ d.name, arguments ++ₛ d.arguments, item_id)

  -- The calls are those of the aggregation.
  pub put-merge_call :
      (d : CallDelta) (put : CallSlot) (ss : List CallSlot) (gs : List Slot)
      → view put ≡ view (step d ss)
      → map view ss ≡ map slot_view gs
      → map view (put_slot put ss) ≡ map slot_view (merge_call d gs)
  unfolding put_slot merge_call merge_slot slot_for slot_at merged
  put-merge_call d put [] [] p h = ap (λ v. v ∷ []) p
  put-merge_call d put [] (g ∷ gs) p h = cc
  put-merge_call d put (s ∷ ss) [] p h = cc
  put-merge_call d put (s ∷ ss) (g ∷ gs) p h =
      let same : view s ≡ slot_view g = cc in
      let rest : map view ss ≡ map slot_view gs = cc in
      let index : s.index ≡ g.index = ap (λ v. v.0) same in
      elim (Bool-cases (s.index == d.index)) [
        | inl e ↦
            let p' : view put ≡ merged_view d (view s) =
              p ∙ ap (λ x. view (merged cfg d x)) (slot_for-here d.index s ss e) in
            let i : put.index ≡ s.index = ap (λ v. v.0) p' in
            let e1 : (s.index == put.index) ≡ true = ground (arith, i) in
            let e2 : (g.index == d.index) ≡ true = subst (λ k. (k == d.index) ≡ true) index e in
            rw (e1, e2) (λ j. (p' ∙ ap (merged_view d) same) j ∷ rest j)
        | inr e ↦
            let p' : view put ≡ view (step d ss) =
              p ∙ ap (λ x. view (merged cfg d x)) (slot_for-there d.index s ss e) in
            let i : put.index ≡ d.index = ap (λ v. v.0) p' ∙ slot_for-index d.index ss in
            let e1 : (s.index == put.index) ≡ false =
              subst (λ k. (s.index == k) ≡ false) (sym i) e in
            let e2 : (g.index == d.index) ≡ false = subst (λ k. (k == d.index) ≡ false) index e in
            rw (e1, e2) (λ j. same j ∷ put-merge_call d put ss gs p' rest j)
      ]

  -- And so are the calls in the order of their indices.
  insert_call-insert_slot :
      (s : CallSlot) (g : Slot) (ss : List CallSlot) (gs : List Slot)
      → view s ≡ slot_view g
      → map view ss ≡ map slot_view gs
      → map view (insert_call s ss) ≡ map slot_view (insert_slot g gs)
  unfolding insert_call insert_slot
  insert_call-insert_slot s g [] [] p h = ap (λ v. v ∷ []) p
  insert_call-insert_slot s g [] (g' ∷ gs) p h = cc
  insert_call-insert_slot s g (s' ∷ ss) [] p h = cc
  insert_call-insert_slot s g (s' ∷ ss) (g' ∷ gs) p h =
      let same : view s' ≡ slot_view g' = cc in
      let rest : map view ss ≡ map slot_view gs = cc in
      let before : leb s.index s'.index ≡ leb g.index g'.index =
        λ j. leb ((ap (λ v. v.0) p) j) ((ap (λ v. v.0) same) j) in
      elim (Bool-cases (leb g.index g'.index)) [
        | inl e ↦ rw (before ∙ e, e) (λ j. p j ∷ same j ∷ rest j)
        | inr e ↦ rw (before ∙ e, e) (λ j. same j ∷ insert_call-insert_slot s g ss gs p rest j)
      ]

  pub sorted_calls-ordered :
      (ss : List CallSlot) (gs : List Slot)
      → map view ss ≡ map slot_view gs
      → map view (sorted_calls ss) ≡ map slot_view (ordered gs)
  unfolding sorted_calls ordered
  sorted_calls-ordered [] [] h = refl
  sorted_calls-ordered [] (g ∷ gs) h = cc
  sorted_calls-ordered (s ∷ ss) [] h = cc
  sorted_calls-ordered (s ∷ ss) (g ∷ gs) h =
      let same : view s ≡ slot_view g = cc in
      let rest : map view ss ≡ map slot_view gs = cc in
      insert_call-insert_slot s g (sorted_calls ss) (ordered gs) same
        (sorted_calls-ordered ss gs rest)
