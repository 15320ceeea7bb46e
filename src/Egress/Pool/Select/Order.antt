-- ===== src/Egress/Pool/Select/Order.antt =====
-- The order of the candidates of `acquire`: the rotation, the stable sort of a session's candidates
-- and the first minimum.
use mathlib.Core.Path.{subst}
use proxy_opencode.Prelude.{
  ℕ, ◌%◌, ◌≤◌, ◌<◌, ◌≡◌, ◌⊎◌, inl, inr, refl, sym, Bool, true, false, List, [], ◌∷◌, ltb, length,
  take, drop, All, All-imp, All-append, All-take, All-drop, All-take-drop, All-split, Bool-cases,
  arith, if◌then◌else◌,
}
use proxy_opencode.Egress.Pool.Select.{pair_leb, insert_by, sort_by, first_min, rotate}

module _ (P : ℕ → Type 0) where
  pub All-insert_by :
      (key : ℕ → ℕ × ℕ) (i : ℕ) (is : List ℕ) → P i → All P is → All P (insert_by key i is)
  unfolding insert_by
  All-insert_by key i [] h hs = (h, tt)
  All-insert_by key i (j ∷ js) h hs = elim (Bool-cases (pair_leb (key i) (key j))) [
    | inl e ↦ rw e (h, hs)
    | inr e ↦ rw e (hs.0, All-insert_by key i js h hs.1)
  ]

  pub All-sort_by : (key : ℕ → ℕ × ℕ) (is : List ℕ) → All P is → All P (sort_by key is)
  unfolding sort_by
  All-sort_by key [] hs = tt
  All-sort_by key (i ∷ is) hs = All-insert_by key i (sort_by key is) hs.0 (All-sort_by key is hs.1)

  -- Nothing is lost by the sort.
  insert_by-All :
      (key : ℕ → ℕ × ℕ) (i : ℕ) (is : List ℕ) → All P (insert_by key i is) → P i × All P is
  unfolding insert_by
  insert_by-All key i [] h = h
  insert_by-All key i (j ∷ js) h = elim (Bool-cases (pair_leb (key i) (key j))) [
    | inl e ↦ rw e at h
    | inr e ↦
        let h' : P j × All P (insert_by key i js) = rw e at h in
        let (a, b) = insert_by-All key i js h'.1 in (a, (h'.0, b))
  ]

  pub sort_by-All : (key : ℕ → ℕ × ℕ) (is : List ℕ) → All P (sort_by key is) → All P is
  unfolding sort_by
  sort_by-All key [] h = tt
  sort_by-All key (i ∷ is) h =
      let (a, b) = insert_by-All key i (sort_by key is) h in (a, sort_by-All key is b)

  pub All-rotate : (rr : ℕ) (is : List ℕ) → All P is → All P (rotate rr is)
  unfolding rotate
  All-rotate rr is h =
      All-append P (drop (rr % length is) is) (take (rr % length is) is)
        (All-drop P (rr % length is) is h) (All-take P (rr % length is) is h)

  pub rotate-All : (rr : ℕ) (is : List ℕ) → All P (rotate rr is) → All P is
  unfolding rotate
  rotate-All rr is h =
      let (b, a) = All-split P (drop (rr % length is) is) (take (rr % length is) is) h in
      All-take-drop P (rr % length is) is a b

  -- The first minimum is one of the candidates.
  pub first_min-All :
      (key : ℕ → ℕ) (best : ℕ) (is : List ℕ) → P best → All P is → P (first_min key best is)
  unfolding first_min
  first_min-All key best [] h hs = h
  first_min-All key best (i ∷ is) h hs =
      first_min-All key (if ltb (key i) (key best) then i else best) is
        (elim (Bool-cases (ltb (key i) (key best))) [ inl e ↦ rw e hs.0 | inr e ↦ rw e h ]) hs.1

first_min-skip :
    (key : ℕ → ℕ) (best i : ℕ) (is : List ℕ) (b : Bool)
    → ltb (key i) (key best) ≡ b
    → first_min key best (i ∷ is) ≡ first_min key (if b then i else best) is
unfolding first_min
first_min-skip key best i is b e = rw e

-- It has the smallest key.
pub first_min-le :
    (key : ℕ → ℕ) (best : ℕ) (is : List ℕ)
    → (key (first_min key best is) ≤ key best) × All (λ i. key (first_min key best is) ≤ key i) is
unfolding first_min
first_min-le key best [] = (omega arith, tt)
first_min-le key best (i ∷ is) = elim (Bool-cases (ltb (key i) (key best))) [
  | inl e ↦
      let (a, b) = first_min-le key i is in
      subst (λ r. (key r ≤ key best) × All (λ j. key r ≤ key j) (i ∷ is))
        (sym (first_min-skip key best i is true e)) (ground arith, (a, b))
  | inr e ↦
      let (a, b) = first_min-le key best is in
      subst (λ r. (key r ≤ key best) × All (λ j. key r ≤ key j) (i ∷ is))
        (sym (first_min-skip key best i is false e)) (a, (ground arith, b))
]

-- Where no candidate is better than the first one, it is the first one.
pub first_min-first :
    (key : ℕ → ℕ) (best : ℕ) (is : List ℕ)
    → All (λ i. key best ≤ key i) is
    → first_min key best is ≡ best
unfolding first_min
first_min-first key best [] h = refl
first_min-first key best (i ∷ is) h = elim (Bool-cases (ltb (key i) (key best))) [
  | inl e ↦ absurd (ground (arith, h.0))
  | inr e ↦ rw e (first_min-first key best is h.1)
]

module _ (live load : ℕ → ℕ) where
  abbrev pub pair : ℕ → ℕ × ℕ
  pair i = (live i, load i)

  abbrev pub PairLe : ℕ → ℕ → Type 0
  PairLe i j = (live i < live j) ⊎ ((live i ≡ live j) × (load i ≤ load j))

  abbrev pub Sorted : List ℕ → Type 0
  Sorted [] = Unit
  Sorted (i ∷ is) = All (PairLe i) is × Sorted is

  pair_leb→PairLe : (i j : ℕ) → pair_leb (pair i) (pair j) ≡ true → PairLe i j
  unfolding pair_leb
  pair_leb→PairLe i j h = ground arith

  PairLe-of_not : (i j : ℕ) → pair_leb (pair i) (pair j) ≡ false → PairLe j i
  unfolding pair_leb
  PairLe-of_not i j h = ground arith

  PairLe-trans : (i j k : ℕ) → PairLe i j → PairLe j k → PairLe i k
  PairLe-trans i j k a b = ground arith

  Sorted-insert_by : (i : ℕ) (is : List ℕ) → Sorted is → Sorted (insert_by pair i is)
  unfolding insert_by
  Sorted-insert_by i [] h = (tt, tt)
  Sorted-insert_by i (j ∷ js) h = elim (Bool-cases (pair_leb (pair i) (pair j))) [
    | inl e ↦ rw e (
        let le : PairLe i j = pair_leb→PairLe i j e in
        ((le, All-imp (PairLe j) (PairLe i) js (λ k g. PairLe-trans i j k le g) h.0), h))
    | inr e ↦
        rw e
          (All-insert_by (PairLe j) pair i js (PairLe-of_not i j e) h.0, Sorted-insert_by i js h.1)
  ]

  pub Sorted-sort_by : (is : List ℕ) → Sorted (sort_by pair is)
  unfolding sort_by
  Sorted-sort_by [] = tt
  Sorted-sort_by (i ∷ is) = Sorted-insert_by i (sort_by pair is) (Sorted-sort_by is)

  -- `i` has a smaller load than `j`, or the same load and no more live sessions.
  abbrev pub Beats : ℕ → ℕ → Type 0
  Beats i j = (load i < load j) ⊎ ((load i ≡ load j) × (live i ≤ live j))

  Beats-lt : (r i j : ℕ) → Beats r i → ltb (load i) (load j) ≡ true → Beats r j
  Beats-lt r i j a e = ground arith

  Beats-le : (r i j : ℕ) → Beats r i → PairLe i j → ltb (load j) (load i) ≡ false → Beats r j
  Beats-le r i j a le e = ground arith

  -- Among candidates sorted by live sessions and load, the first of the smallest load has the fewest
  -- live sessions of those with that load.
  pub first_min-Sorted :
      (best : ℕ) (is : List ℕ)
      → Sorted (best ∷ is)
      → Beats (first_min load best is) best × All (Beats (first_min load best is)) is
  unfolding first_min
  first_min-Sorted best [] h = (inr (refl, omega arith), tt)
  first_min-Sorted best (i ∷ is) h = elim (Bool-cases (ltb (load i) (load best))) [
    | inl e ↦
        let (a, b) = first_min-Sorted i is h.1 in
        subst (λ r. Beats r best × All (Beats r) (i ∷ is))
          (sym (first_min-skip load best i is true e))
          (Beats-lt (first_min load i is) i best a e, (a, b))
    | inr e ↦
        let (a, b) = first_min-Sorted best is (h.0.1, h.1.1) in
        subst (λ r. Beats r best × All (Beats r) (i ∷ is))
          (sym (first_min-skip load best i is false e))
          (a, (Beats-le (first_min load best is) best i a h.0.0 e, b))
  ]
