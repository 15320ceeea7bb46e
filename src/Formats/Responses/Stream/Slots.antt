-- ===== src/Formats/Responses/Stream/Slots.antt =====
-- The tool calls of a stream and the items that the client has of them.
use mathlib.Core.Option.{some-injective}
use proxy_opencode.Prelude.{
  ℕ, suc, ◌≡◌, ◌≢◌, ◌∙◌, refl, sym, ap, subst, true, false, none, some, List, [], ◌∷◌, ◌++◌, length,
  All, All-imp, All-append, arith, ◌==◌, if◌then◌else◌, Bool-cases, inl, inr,
}
use proxy_opencode.Formats.Responses.Stream.{CallSlot, slot_at, put_slot}
use proxy_opencode.Formats.Responses.Stream.Reading.{
  Read, call_of, item_at, set_at, item_at-set_at, item_at-set_other, item_at-bound,
}

-- The client has the item of an announced call, with the arguments so far.
pub record Shown (items : List Read) (s : CallSlot) : Type 0 where
  pub announced : s.announced ≡ true
  pub shown : item_at s.item_index items ≡ some (call_of s.arguments)

-- No two calls have one output index.
abbrev pub Distinct : List CallSlot → Type 0
Distinct [] = Unit
Distinct (s ∷ ss) = All (λ t. s.item_index ≢ t.item_index) ss × Distinct ss

pub slot_at-All :
    (P : CallSlot → Type 0) (i : ℕ) (ss : List CallSlot) {s : CallSlot}
    → All P ss
    → slot_at i ss ≡ some s
    → P s
unfolding slot_at
slot_at-All P i [] h e = cc
slot_at-All P i (t ∷ ts) {s} h e = elim (Bool-cases (t.index == i)) [
  | inl same ↦ subst P (some-injective _ _ (rw same at e)) h.0
  | inr differ ↦ slot_at-All P i ts h.1 (rw differ at e)
]

pub slot_at-index :
    (i : ℕ) (ss : List CallSlot) {s : CallSlot} → slot_at i ss ≡ some s → s.index ≡ i
unfolding slot_at
slot_at-index i [] e = cc
slot_at-index i (t ∷ ts) {s} e = elim (Bool-cases (t.index == i)) [
  | inl same ↦
      let e' : t ≡ s = some-injective _ _ (rw same at e) in
      subst (λ x. x.index ≡ i) e' (ground (arith, same))
  | inr differ ↦ slot_at-index i ts (rw differ at e)
]

pub slot_at-put_slot :
    (j : ℕ) (s : CallSlot) (ss : List CallSlot)
    → slot_at j (put_slot s ss) ≡ (if s.index == j then some s else slot_at j ss)
unfolding slot_at put_slot
slot_at-put_slot j s [] = refl
slot_at-put_slot j s (t ∷ ts) = ground (arith, slot_at-put_slot j s ts)

pub put_slot-put_slot :
    (s s' : CallSlot) (ss : List CallSlot)
    → s.index ≡ s'.index
    → put_slot s (put_slot s' ss) ≡ put_slot s ss
unfolding put_slot
put_slot-put_slot s s' [] e = ground (arith, e)
put_slot-put_slot s s' (t ∷ ts) e = ground (arith, e, put_slot-put_slot s s' ts e)

-- A call that is not there is added at the end.
pub put_slot-new :
    (s : CallSlot) (ss : List CallSlot) → slot_at s.index ss ≡ none → put_slot s ss ≡ ss ++ (s ∷ [])
unfolding slot_at put_slot
put_slot-new s [] e = refl
put_slot-new s (t ∷ ts) e = elim (Bool-cases (t.index == s.index)) [
  | inl same ↦ absurd (ground (arith, e, same))
  | inr differ ↦ rw differ (ap (λ xs. t ∷ xs) (put_slot-new s ts (rw differ at e)))
]

Distinct-snoc :
    (ss : List CallSlot) (s : CallSlot)
    → All (λ t. t.item_index ≢ s.item_index) ss
    → Distinct ss
    → Distinct (ss ++ (s ∷ []))
Distinct-snoc [] s h d = (tt, tt)
Distinct-snoc (t ∷ ts) s h d = (All-append _ ts (s ∷ []) d.0 (h.0, tt), Distinct-snoc ts s h.1 d.1)

-- The next output index is new.
pub put_slot-Distinct :
    (items : List Read) (s : CallSlot) (ss : List CallSlot)
    → All (Shown items) ss
    → Distinct ss
    → length items ≡ s.item_index
    → slot_at s.index ss ≡ none
    → Distinct (put_slot s ss)
put_slot-Distinct items s ss h d e new = rw (put_slot-new s ss new) (
    Distinct-snoc ss s
      (All-imp _ _ ss
        (λ t p. λ same. ground (arith, same, e, item_at-bound t.item_index items p.shown)) h)
      d)

-- The other calls are shown as before, whatever the item of a call becomes.
pub Shown-others :
    (items : List Read) (i : ℕ) (r : Read) (ts : List CallSlot)
    → All (λ t. i ≢ t.item_index) ts
    → All (Shown items) ts
    → All (Shown (set_at i r items)) ts
Shown-others items i r [] a h = tt
Shown-others items i r (t ∷ ts) a h = (
  record {
    announced = h.0.announced;
    shown = item_at-set_other i t.item_index r items a.0 ∙ h.0.shown;
  },
  Shown-others items i r ts a.1 h.1,
)

-- The item of a call is replaced, as the call is.
module _ (items : List Read) (s s' : CallSlot) (same : s'.item_index ≡ s.item_index) where
  replaced :
      Shown items s
      → s'.announced ≡ true
      → Shown (set_at s.item_index (call_of s'.arguments) items) s'
  replaced h a = record {
    announced = a;
    shown = rw same (item_at-set_at s.item_index (call_of s'.arguments) items h.shown);
  }

  pub put_slot-Shown :
      (ss : List CallSlot)
      → s'.index ≡ s.index
      → s'.announced ≡ true
      → slot_at s.index ss ≡ some s
      → Distinct ss
      → All (Shown items) ss
      → All (Shown (set_at s.item_index (call_of s'.arguments) items)) (put_slot s' ss)
  unfolding slot_at put_slot
  put_slot-Shown [] i a e d h = cc
  put_slot-Shown (t ∷ ts) i a e d h = elim (Bool-cases (t.index == s.index)) [
    | inl here ↦
        let e' : t ≡ s = some-injective _ _ (rw here at e) in
        rw (subst (λ k. (t.index == k) ≡ true) (sym i) here) (
          replaced (subst (Shown items) e' h.0) a,
          Shown-others items s.item_index (call_of s'.arguments) ts
              (subst (λ x. All (λ y. x.item_index ≢ y.item_index) ts) e' d.0) h.1,
        )
    | inr there ↦
        let apart = slot_at-All (λ x. t.item_index ≢ x.item_index) s.index ts d.0 (rw there at e) in
        rw (subst (λ k. (t.index == k) ≡ false) (sym i) there) (
          record {
            announced = h.0.announced;
            shown =
                item_at-set_other s.item_index t.item_index (call_of s'.arguments) items
                  (λ p. apart (sym p))
                ∙ h.0.shown;
          },
          put_slot-Shown ts i a (rw there at e) d.1 h.1,
        )
  ]

  All-put_index :
      (x : CallSlot) (ss : List CallSlot)
      → s'.index ≡ s.index
      → slot_at s.index ss ≡ some s
      → All (λ t. x.item_index ≢ t.item_index) ss
      → All (λ t. x.item_index ≢ t.item_index) (put_slot s' ss)
  unfolding slot_at put_slot
  All-put_index x [] i e h = cc
  All-put_index x (t ∷ ts) i e h = elim (Bool-cases (t.index == s.index)) [
    | inl here ↦
        let e' : t ≡ s = some-injective _ _ (rw here at e) in
        rw (i, here) (subst (λ k. x.item_index ≢ k) (ap (λ y. y.item_index) e' ∙ sym same) h.0, h.1)
    | inr there ↦ rw (i, there) (h.0, All-put_index x ts i (rw there at e) h.1)
  ]

  pub put_slot-kept :
      (ss : List CallSlot)
      → s'.index ≡ s.index
      → slot_at s.index ss ≡ some s
      → Distinct ss
      → Distinct (put_slot s' ss) × (length (put_slot s' ss) ≡ length ss)
  unfolding slot_at put_slot
  put_slot-kept [] i e d = cc
  put_slot-kept (t ∷ ts) i e d = elim (Bool-cases (t.index == s.index)) [
    | inl here ↦
        let e' : t ≡ s = some-injective _ _ (rw here at e) in
        rw (i, here)
          (
            (
              subst (λ k. All (λ y. k ≢ y.item_index) ts) (ap (λ y. y.item_index) e' ∙ sym same)
                  d.0,
              d.1,
            ),
            refl,
          )
    | inr there ↦
        let (d', l) = put_slot-kept ts i (rw there at e) d.1 in
        rw (i, there) ((All-put_index t ts i (rw there at e) d.0, d'), ap suc l)
  ]
