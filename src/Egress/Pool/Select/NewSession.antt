-- ===== src/Egress/Pool/Select/NewSession.antt =====
-- Which bucket a session without a usable binding gets.
use mathlib.Core.Path.{subst}
use proxy_opencode.Prelude.{
  ℕ, ◌+◌, ◌≡◌, ◌≢◌, inl, inr, sym, String, Bool, true, false, Option, none, some, List, [], ◌∷◌,
  ◌==◌, str_eq, All, Bool-cases, eq_iff,
}
use proxy_opencode.Prelude.Dict.{Dict}
use proxy_opencode.Egress.Models.{EgressState, Lease}
use proxy_opencode.Egress.Pool.{Config, Pool}
use proxy_opencode.Egress.Pool.Affinity.{sticky}
use proxy_opencode.Egress.Pool.Select.{
  Waiting, begin, begin_with, begin_on, gate, gate_round, candidates, order, inflight_at, live_at,
  finish, rotate,
}
use proxy_opencode.Egress.Pool.Select.Order.{first_min-Sorted, Sorted, Sorted-sort_by, Beats}
use proxy_opencode.Egress.Pool.Select.Acquire.{offered}
use proxy_opencode.Egress.Pool.Select.Choice.{finish-first_min, Sorted-keep}

finish-Beats :
    (live : ℕ → ℕ) (p : Pool) (key : String) (now bound_at : ℕ) (is : List ℕ) {l : Lease} {q : Pool}
    → finish p key now bound_at is ≡ some (l, q)
    → Sorted live (inflight_at p.states) is
    → All (Beats live (inflight_at p.states) l.bucket) is
finish-Beats live p key now bound_at [] h sorted = tt
finish-Beats live p key now bound_at (i ∷ is) {l} {q} h sorted =
    subst (λ b. All (Beats live (inflight_at p.states) b) (i ∷ is))
      (sym (finish-first_min p key now bound_at i is {l = l} {q = q} h))
      (first_min-Sorted live (inflight_at p.states) i is sorted)

module _ (live load : ℕ → ℕ) where
  Sorted-gate_round :
      (free : List ℕ) (early : Bool) (w : Waiting)
      → Sorted live load free
      → Sorted live load w.rotated
      → Sorted live load (offered (gate_round free early w))
  unfolding gate_round
  Sorted-gate_round (i ∷ is) early w h hs = h
  Sorted-gate_round [] true w h hs = hs
  Sorted-gate_round [] false w h hs = hs

  Sorted-gate :
      (cfg : Config) (states : List EgressState) (key : String) (now started checked : ℕ)
      (is : List ℕ)
      → Sorted live load is
      → Sorted live load (offered (gate cfg states key now started checked is))
  unfolding gate candidates
  Sorted-gate cfg states key now started checked is h = elim (Bool-cases (cfg.max_inflight == 0)) [
    | inl e ↦ rw e h
    | inr e ↦ rw e (Sorted-gate_round _ _ _ (Sorted-keep live load _ is h) h)
  ]

order-Sorted :
    (cfg : Config) (key : String) (now : ℕ) (d : Dict (String × ℕ)) (states : List EgressState)
    (rr : ℕ) (is : List ℕ)
    → key ≢ ""
    → Sorted (live_at cfg now d states) (inflight_at states) (order cfg key now d states rr is)
unfolding order
order-Sorted cfg key now d states rr is keyed = elim (Bool-cases (str_eq key "")) [
  | inl e ↦ absurd (keyed ((eq_iff key "").0 e))
  | inr e ↦ rw e (Sorted-sort_by (live_at cfg now d states) (inflight_at states) (rotate rr is))
]

new_session_on :
    (p : Pool) (key : String) (now started checked bound_at : ℕ) (d : Dict (String × ℕ))
    (is : List ℕ) (o : Option ℕ) {l : Lease} {q : Pool}
    → key ≢ ""
    → o ≡ none
    → let (progress, p') = begin_on p key now started checked d is o in
      finish p' key now bound_at (offered progress) ≡ some (l, q)
      → let (progress, p') = begin_on p key now started checked d is o in
        All
          (Beats (live_at p.config now p'.affinity p.states) (inflight_at p.states) l.bucket)
          (offered progress)
unfolding begin_on
new_session_on p key now started checked bound_at d is (some b) keyed unbound h = cc
new_session_on p key now started checked bound_at d is none {l} {q} keyed unbound h =
    let live = live_at p.config now d p.states in
    finish-Beats live (record p { affinity = d; rr = p.rr + 1 }) key now bound_at _ {l = l} {q = q}
      h
      (Sorted-gate live (inflight_at p.states) p.config p.states key now started checked _
        (order-Sorted p.config key now d p.states p.rr is keyed))

new_session_within :
    (p : Pool) (key : String) (now started checked bound_at : ℕ) (is : List ℕ) {l : Lease}
    {q : Pool}
    → key ≢ ""
    → (sticky p.config key now p.states p.affinity).0 ≡ none
    → let (progress, p') = begin_with p key now started checked is in
      finish p' key now bound_at (offered progress) ≡ some (l, q)
      → let (progress, p') = begin_with p key now started checked is in
        All
          (Beats (live_at p.config now p'.affinity p.states) (inflight_at p.states) l.bucket)
          (offered progress)
unfolding begin_with
new_session_within p key now started checked bound_at [] keyed unbound h = tt
new_session_within p key now started checked bound_at (i ∷ is) {l} {q} keyed unbound h =
    new_session_on p key now started checked bound_at _ (i ∷ is) _ {l = l} {q = q} keyed unbound h

-- A session that has no usable bound bucket gets, among the buckets that it is offered, one with the
-- fewest requests in flight, and of those one with the fewest live sessions: the load comes first.
pub acquire_new_session :
    (p : Pool) (key : String) (exclude : List String) (now started checked bound_at : ℕ) {l : Lease}
    {q : Pool}
    → key ≢ ""
    → (sticky p.config key now p.states p.affinity).0 ≡ none
    → let (progress, p') = begin p key exclude now started checked in
      finish p' key now bound_at (offered progress) ≡ some (l, q)
      → All
          (Beats (live_at p.config now p'.affinity p.states) (inflight_at p.states) l.bucket)
          (offered progress)
unfolding begin
acquire_new_session p key exclude now started checked bound_at {l} {q} keyed unbound h =
    new_session_within p key now started checked bound_at _ {l = l} {q = q} keyed unbound h
