-- ===== src/Egress/Pool/Select/Choice.antt =====
-- Which of the offered buckets `finish` takes: the least loaded one, and how ties are broken.
use mathlib.Core.Path.{subst, ◌∙◌}
use proxy_opencode.Prelude.{
  ℕ, zero, suc, ◌+◌, ◌%◌, ◌≤◌, ◌<◌, ◌≡◌, ◌≢◌, ◌⊎◌, inl, inr, refl, sym, ap, String, Bool, true,
  false, Option, none, some, List, [], ◌∷◌, ◌++◌, length, get_elem?, drop, All, All-imp, All-keep,
  Bool-cases, arith, keep, ltb,
}
use proxy_opencode.Egress.Models.{EgressState, Lease, new_lease}
use proxy_opencode.Egress.Pool.{Config, Pool}
use proxy_opencode.Egress.Pool.Affinity.{sticky}
use proxy_opencode.Egress.Pool.Select.{
  begin, begin_with, begin_on, gate, gate_round, candidates, order, usable, inflight_at, first_min,
  finish, lease_at, take_slot, rotate,
}
use proxy_opencode.Egress.Pool.Select.Order.{
  first_min-All, first_min-le, first_min-first, All-rotate, Sorted,
}
use proxy_opencode.Egress.Pool.Select.Acquire.{offered}

lease_at-bucket :
    (p : Pool) (key : String) (now bound_at best : ℕ) (o : Option EgressState) {l : Lease}
    {q : Pool}
    → lease_at p key now bound_at best o ≡ some (l, q)
    → l.bucket ≡ best
unfolding lease_at
lease_at-bucket p key now bound_at best none h = cc
lease_at-bucket p key now bound_at best (some s) h = ground arith

-- The lease names the first minimum of the loads.
pub finish-first_min :
    (p : Pool) (key : String) (now bound_at i : ℕ) (is : List ℕ) {l : Lease} {q : Pool}
    → finish p key now bound_at (i ∷ is) ≡ some (l, q)
    → l.bucket ≡ first_min (inflight_at p.states) i is
unfolding finish
finish-first_min p key now bound_at i is {l} {q} h =
    lease_at-bucket p key now bound_at _ _ {l = l} {q = q} h

-- The lease is for one of the offered buckets, and no other one of them has less in flight.
pub finish-least :
    (P : ℕ → Type 0) (p : Pool) (key : String) (now bound_at : ℕ) (is : List ℕ) {l : Lease}
    {q : Pool}
    → finish p key now bound_at is ≡ some (l, q)
    → All P is
    → P l.bucket × All (λ i. inflight_at p.states l.bucket ≤ inflight_at p.states i) is
unfolding finish
finish-least P p key now bound_at [] h hs = absurd (ground arith)
finish-least P p key now bound_at (i ∷ is) {l} {q} h hs =
    subst (λ b. P b × All (λ j. inflight_at p.states b ≤ inflight_at p.states j) (i ∷ is))
      (sym (finish-first_min p key now bound_at i is {l = l} {q = q} h))
      (
        first_min-All P (inflight_at p.states) i is hs.0 hs.1,
        first_min-le (inflight_at p.states) i is,
      )

-- `finish` returns: with at least one offered bucket, all of them of the pool, a lease is given.
pub finish-total :
    (p : Pool) (key : String) (now bound_at : ℕ) (is : List ℕ)
    → is ≢ []
    → All (λ i. (s : EgressState) × (get_elem? p.states i ≡ some s)) is
    → (r : Lease × Pool) × (finish p key now bound_at is ≡ some r)
unfolding finish
finish-total p key now bound_at [] h hs = absurd (h refl)
finish-total p key now bound_at (i ∷ is) h hs =
    let best = first_min (inflight_at p.states) i is in
    let (s, at) =
      first_min-All (λ j. (s : EgressState) × (get_elem? p.states j ≡ some s))
        (inflight_at p.states) i is hs.0 hs.1 in
    (
      (new_lease best, take_slot p key now bound_at best s),
      ap (lease_at p key now bound_at best) at,
    )

pub Sorted-keep :
    (live load : ℕ → ℕ) (test : ℕ → Bool) (is : List ℕ)
    → Sorted live load is
    → Sorted live load (keep test is)
unfolding keep
Sorted-keep live load test [] h = tt
Sorted-keep live load test (i ∷ is) h = elim (Bool-cases (test i)) [
  | inl e ↦ rw e (All-keep _ test is h.0, Sorted-keep live load test is h.1)
  | inr e ↦ rw e (Sorted-keep live load test is h.1)
]

-- the head of a rotated list
head-drop :
    (k : ℕ) (is rest : List ℕ) (j : ℕ) (js : List ℕ)
    → k < length is
    → drop k is ++ rest ≡ j ∷ js
    → get_elem? is k ≡ some j
head-drop k [] rest j js lt e = elim lt [ ]
head-drop zero (i ∷ is) rest j js lt e = cc
head-drop (suc k) (i ∷ is) rest j js lt e = head-drop k is rest j js (omega arith) e

candidates-All :
    (cfg : Config) (states : List EgressState) (n : ℕ) (is : List ℕ)
    → n < cfg.max_inflight
    → All (λ i. inflight_at states i ≡ n) is
    → candidates cfg states is ≡ is
unfolding candidates
candidates-All cfg states n [] lt h = refl
candidates-All cfg states n (i ∷ is) lt h =
    rw (h.0) (ground (arith, candidates-All cfg states n is lt h.1))

offered-gate_round_self :
    (is : List ℕ) (early : Bool) (key : String) (now deadline : ℕ)
    → offered
        (gate_round is early (record { key = key; now = now; rotated = is; deadline = deadline }))
      ≡ is
unfolding gate_round
offered-gate_round_self (i ∷ is) early key now deadline = refl
offered-gate_round_self [] true key now deadline = refl
offered-gate_round_self [] false key now deadline = refl

-- Buckets that all have `n` in flight pass the gate unchanged, if `n` is below the cap.
offered-gate-open :
    (cfg : Config) (states : List EgressState) (key : String) (now started checked n : ℕ)
    (is : List ℕ)
    → (cfg.max_inflight ≡ 0) ⊎ (n < cfg.max_inflight)
    → All (λ i. inflight_at states i ≡ n) is
    → offered (gate cfg states key now started checked is) ≡ is
unfolding gate
offered-gate-open cfg states key now started checked n is (inl e) h = ground arith
offered-gate-open cfg states key now started checked n is (inr lt) h =
    rw (candidates-All cfg states n is lt h) ground (
      arith,
      offered-gate_round_self is (ltb checked (started + cfg.inflight_wait_s)) key now
          (started + cfg.inflight_wait_s),
    )

first_min-equal :
    (p : Pool) (key : String) (now bound_at n : ℕ) (is : List ℕ) {l : Lease} {q : Pool}
    → finish p key now bound_at is ≡ some (l, q)
    → All (λ i. inflight_at p.states i ≡ n) is
    → (js : List ℕ) × (is ≡ l.bucket ∷ js)
unfolding finish
first_min-equal p key now bound_at n [] h hs = absurd (ground arith)
first_min-equal p key now bound_at n (i ∷ is) {l} {q} h hs =
    let first =
      first_min-first (inflight_at p.states) i is
        (All-imp _ _ is (λ j e. omega (arith, e, hs.0)) hs.1) in
    (
      is,
      ap (λ b. b ∷ is) (sym (finish-first_min p key now bound_at i is {l = l} {q = q} h ∙ first)),
    )

round_robin_within :
    (p : Pool) (now started checked bound_at n : ℕ) (is : List ℕ) {l : Lease} {q : Pool}
    → (p.config.max_inflight ≡ 0) ⊎ (n < p.config.max_inflight)
    → All (λ i. inflight_at p.states i ≡ n) is
    → let (progress, p') = begin_with p "" now started checked is in
      finish p' "" now bound_at (offered progress) ≡ some (l, q)
      → (get_elem? is (p.rr % length is) ≡ some l.bucket)
        × ((begin_with p "" now started checked is).1.rr ≡ p.rr + 1)
unfolding begin_with begin_on sticky order
round_robin_within p now started checked bound_at n [] room same h =
    absurd (unfold finish in ground arith)
round_robin_within p now started checked bound_at n (i ∷ is) {l} {q} room same h =
    let p' = record p { rr = p.rr + 1 } in
    let spread : All (λ j. inflight_at p.states j ≡ n) (rotate p.rr (i ∷ is)) =
      All-rotate _ p.rr (i ∷ is) same in
    let h' : finish p' "" now bound_at (rotate p.rr (i ∷ is)) ≡ some (l, q) =
      ap (finish p' "" now bound_at)
        (sym (offered-gate-open p.config p.states "" now started checked n _ room spread))
      ∙ h in
    let (js, e) = first_min-equal p' "" now bound_at n _ {l = l} {q = q} h' spread in
    (
      head-drop (p.rr % suc (length is)) (i ∷ is) _ l.bucket js (omega arith) (unfold rotate in e),
      refl,
    )

-- Round robin: where all usable buckets have the same number of requests in flight, below the cap,
-- a call without a session gets the one at the counter's place, modulo how many they are, and the
-- counter moves on by one.
pub acquire_round_robin :
    (p : Pool) (exclude : List String) (now started checked bound_at n : ℕ) {l : Lease} {q : Pool}
    → (p.config.max_inflight ≡ 0) ⊎ (n < p.config.max_inflight)
    → All (λ i. inflight_at p.states i ≡ n) (usable p.config exclude now p.states)
    → let (progress, p') = begin p "" exclude now started checked in
      finish p' "" now bound_at (offered progress) ≡ some (l, q)
      → let is = usable p.config exclude now p.states in
        (get_elem? is (p.rr % length is) ≡ some l.bucket) × (p'.rr ≡ p.rr + 1)
unfolding begin
acquire_round_robin p exclude now started checked bound_at n {l} {q} room same h =
    round_robin_within p now started checked bound_at n _ {l = l} {q = q} room same h
