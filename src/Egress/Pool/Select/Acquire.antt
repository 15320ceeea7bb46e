-- ===== src/Egress/Pool/Select/Acquire.antt =====
-- Which buckets `begin` offers: the contract of `acquire` on cordons and rotations.
use mathlib.Core.Path.{subst}
use proxy_opencode.Prelude.{
  ℕ, suc, ◌+◌, ◌<◌, ◌≡◌, inl, inr, refl, String, Bool, true, false, ◌||◌, Option, none, some, List,
  [], ◌∷◌, ◌==◌, str_eq, get_elem?, All, All-imp, All-keep, Bool-cases, Option-cases, arith,
}
use proxy_opencode.Prelude.Dict.{Dict}
use proxy_opencode.Egress.Models.{EgressState, cordoned}
use proxy_opencode.Egress.Pool.{Config, Pool}
use proxy_opencode.Egress.Pool.Affinity.{
  follow, keep_or_free, sticky, bound_bucket, find_from, steady,
}
use proxy_opencode.Egress.Pool.Select.{
  Progress, Waiting, exhausted, choose, sleep, begin, begin_with, begin_on, wake, gate_round, gate,
  order, usable, inflight_at, live_at, rotate,
}
use proxy_opencode.Egress.Pool.Select.Tiers.{rank, AtRank, Best, usable-Best}
use proxy_opencode.Egress.Pool.Select.Order.{All-sort_by, All-rotate}

-- The buckets between which the call still has to choose.
abbrev pub offered : Progress → List ℕ
offered exhausted = []
offered (choose is) = is
offered (sleep w) = w.rotated

-- The position names a bucket that is not cordoned, and in no rotation if it is healthy.
abbrev pub Serves : ℕ → List EgressState → ℕ → Type 0
Serves now states i =
    (s : EgressState) × (get_elem? states i ≡ some s)
    × (cordoned s now ≡ false)
    × (s.healthy ≡ true → s.rotating ≡ false)

rank-Serves :
    (cfg : Config) (now : ℕ) (s : EgressState)
    → rank cfg now s < 5
    → (cordoned s now ≡ false) × (s.healthy ≡ true → s.rotating ≡ false)
unfolding rank
rank-Serves cfg now s h = (ground arith, λ up. ground arith)

module _ (P : ℕ → Type 0) where
  pub offered-gate_round :
      (free : List ℕ) (early : Bool) (w : Waiting)
      → All P free
      → All P w.rotated
      → All P (offered (gate_round free early w))
  unfolding gate_round
  offered-gate_round (i ∷ is) early w h hs = h
  offered-gate_round [] true w h hs = hs
  offered-gate_round [] false w h hs = hs

  -- What the gate offers it was given.
  pub offered-gate :
      (cfg : Config) (states : List EgressState) (key : String) (now started checked : ℕ)
      (is : List ℕ)
      → All P is
      → All P (offered (gate cfg states key now started checked is))
  unfolding gate
  offered-gate cfg states key now started checked is h = elim (Bool-cases (cfg.max_inflight == 0)) [
    | inl e ↦ rw e h
    | inr e ↦ rw e (offered-gate_round _ _ _ (All-keep P _ is h) h)
  ]

  -- What a wake offers was kept by the sleeper.
  pub offered-wake :
      (p : Pool) (w : Waiting) (checked : ℕ) → All P w.rotated → All P (offered (wake p w checked))
  unfolding wake
  offered-wake p w checked h = offered-gate_round _ _ _ (All-keep P _ w.rotated h) h

  offered-order :
      (cfg : Config) (key : String) (now : ℕ) (d : Dict (String × ℕ)) (states : List EgressState)
      (rr : ℕ) (is : List ℕ)
      → All P is
      → All P (order cfg key now d states rr is)
  unfolding order
  offered-order cfg key now d states rr is h = elim (Bool-cases (str_eq key "")) [
    | inl e ↦ rw e (All-rotate P rr is h)
    | inr e ↦ rw e (
        All-sort_by P (λ x. (live_at cfg now d states x, inflight_at states x)) (rotate rr is)
          (All-rotate P rr is h))
  ]

pub find_from-found :
    (name : String) (b : ℕ) (states : List EgressState) {i : ℕ} {s : EgressState}
    → find_from name b states ≡ some (i, s)
    → (j : ℕ) × (i ≡ b + j) × (get_elem? states j ≡ some s)
unfolding find_from
find_from-found name b [] h = cc
find_from-found name b (t ∷ states) {i} {s} h = elim (Bool-cases (str_eq t.spec.name name)) [
  | inl e ↦ (0, ground arith, ground arith)
  | inr e ↦
      let (j, p, q) = find_from-found name (suc b) states {i = i} {s = s} (ground arith) in
      (suc j, omega (arith, p), q)
]

steady-Serves :
    (now : ℕ) (s : EgressState)
    → steady now s ≡ true
    → (cordoned s now ≡ false) × (s.healthy ≡ true → s.rotating ≡ false)
unfolding steady
steady-Serves now s h = (ground arith, λ up. ground arith)

-- The bucket that a session is bound to is offered only while it serves.
bound_bucket-steady :
    (now : ℕ) (name : String) (states : List EgressState) {i : ℕ}
    → bound_bucket now name states ≡ some i
    → (s : EgressState) × (get_elem? states i ≡ some s) × (steady now s ≡ true)
unfolding bound_bucket
bound_bucket-steady now name states {i} h = elim (Option-cases (find_from name 0 states)) [
  | inl e ↦ absurd (ground arith)
  | inr ((b, s), e) ↦
      let (j, p, q) = find_from-found name 0 states {i = b} {s = s} e in
      (s, subst (λ m. get_elem? states m ≡ some s) (ground (arith, p)) q, ground arith)
]

module _ (P : ℕ → Type 0) where
  offered-begin_on :
      (p : Pool) (key : String) (now started checked : ℕ) (d : Dict (String × ℕ)) (is : List ℕ)
      (bound : Option ℕ)
      → All P is
      → ((i : ℕ) → bound ≡ some i → P i)
      → All P (offered (begin_on p key now started checked d is bound).0)
  unfolding begin_on
  offered-begin_on p key now started checked d is (some b) h hb =
      offered-gate P p.config p.states key now started checked (b ∷ []) (hb b refl, tt)
  offered-begin_on p key now started checked d is none h hb =
      offered-gate P p.config p.states key now started checked _
        (offered-order P p.config key now d p.states p.rr is h)

  pub offered-begin_with :
      (p : Pool) (key : String) (now started checked : ℕ) (is : List ℕ)
      → All P is
      → ((i : ℕ) → (sticky p.config key now p.states p.affinity).0 ≡ some i → P i)
      → All P (offered (begin_with p key now started checked is).0)
  unfolding begin_with
  offered-begin_with p key now started checked [] h hb = tt
  offered-begin_with p key now started checked (i ∷ is) h hb =
      offered-begin_on p key now started checked _ (i ∷ is) _ h hb

  -- What `begin` offers is the bound bucket or usable ones.
  pub offered-begin :
      (p : Pool) (key : String) (exclude : List String) (now started checked : ℕ)
      → All P (usable p.config exclude now p.states)
      → ((i : ℕ) → (sticky p.config key now p.states p.affinity).0 ≡ some i → P i)
      → All P (offered (begin p key exclude now started checked).0)
  unfolding begin
  offered-begin p key exclude now started checked h bound =
      offered-begin_with p key now started checked _ h bound

keep_or_free-some :
    (key : String) (d : Dict (String × ℕ)) (o : Option ℕ) {i : ℕ}
    → (keep_or_free key d o).0 ≡ some i
    → o ≡ some i
unfolding keep_or_free
keep_or_free-some key d none h = cc
keep_or_free-some key d (some j) h = h

follow-steady :
    (key : String) (now : ℕ) (states : List EgressState) (d : Dict (String × ℕ))
    (o : Option (String × ℕ)) {i : ℕ}
    → (follow key now states d o).0 ≡ some i
    → (s : EgressState) × (get_elem? states i ≡ some s) × (steady now s ≡ true)
unfolding follow
follow-steady key now states d none h = cc
follow-steady key now states d (some (name, seen)) {i} h =
    bound_bucket-steady now name states {i = i} (keep_or_free-some key d _ h)

-- A session's bound bucket is taken only while it serves.
pub sticky-steady :
    (cfg : Config) (key : String) (now : ℕ) (states : List EgressState) (d : Dict (String × ℕ))
    {i : ℕ}
    → (sticky cfg key now states d).0 ≡ some i
    → (s : EgressState) × (get_elem? states i ≡ some s) × (steady now s ≡ true)
unfolding sticky
sticky-steady cfg key now states d {i} h =
    elim (Bool-cases (str_eq key "" || (cfg.affinity_ttl_s == 0))) [
      | inl e ↦ absurd (ground arith)
      | inr e ↦ follow-steady key now states _ _ {i = i} (rw e at h)
    ]

-- What the pool may take, as a statement about every usable bucket.
usable-AtRank :
    (cfg : Config) (exclude : List String) (now : ℕ) (states : List EgressState) (is : List ℕ)
    → Best cfg exclude now states is
    → All (λ i. (r : ℕ) × (r < 5) × AtRank cfg exclude now states r i) is
usable-AtRank cfg exclude now states [] h = tt
usable-AtRank cfg exclude now states (i ∷ is) (r, lt, low, h) =
    All-imp (AtRank cfg exclude now states r)
      (λ j. (q : ℕ) × (q < 5) × AtRank cfg exclude now states q j) (i ∷ is) (λ j a. (r, lt, a)) h

-- No call of `acquire` is offered a bucket that was cordoned when it started, nor a healthy one in a
-- rotation, whatever session it belongs to.
pub begin-Serves :
    (p : Pool) (key : String) (exclude : List String) (now started checked : ℕ)
    → All (Serves now p.states) (offered (begin p key exclude now started checked).0)
begin-Serves p key exclude now started checked =
    offered-begin (Serves now p.states) p key exclude now started checked
      (All-imp _ (Serves now p.states) _
        (λ i (r, lt, (s, at, e, _)).
          let (free, still) = rank-Serves p.config now s (omega (arith, e)) in (s, at, free, still))
        (usable-AtRank p.config exclude now p.states _ (usable-Best p.config exclude now p.states)))
      (λ i h.
        let (s, at, st) = sticky-steady p.config key now p.states p.affinity {i = i} h in
        let (free, still) = steady-Serves now s st in (s, at, free, still))
