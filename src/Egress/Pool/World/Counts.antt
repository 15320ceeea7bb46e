-- ===== src/Egress/Pool/World/Counts.antt =====
-- The requests in flight of one bucket, and the leases that are held on it, when one state or one
-- lease is changed.
use mathlib.Core.Path.{◌∙◌, ap}
use mathlib.Core.Option.{some-injective}
use proxy_opencode.Prelude.{
  ℕ, zero, suc, ◌+◌, ◌≡◌, refl, Bool, true, false, not, ◌&&◌, some, List, [], ◌∷◌, ◌++◌, ◌==◌,
  get_elem?, modify, arith, if◌then◌else◌,
}
use proxy_opencode.Egress.Models.{EgressState, Lease}
use proxy_opencode.Egress.Pool.Select.{inflight_at}

-- A lease on bucket `i` that was not released.
abbrev pub holds : ℕ → Lease → Bool
holds i l = not l.released && (l.bucket == i)

unfoldable pub held : ℕ → List Lease → ℕ
held i [] = 0
held i (l ∷ ls) = let rest = held i ls in if holds i l then suc rest else rest

-- 1 at `i`, 0 elsewhere.
abbrev pub at : ℕ → ℕ → ℕ
at i j = if i == j then 1 else 0

pub held-append :
    (i : ℕ) (ls : List Lease) (l : Lease)
    → held i (ls ++ l ∷ []) ≡ held i ls + (if holds i l then 1 else 0)
unfolding held
held-append i [] l = ground arith
held-append i (k ∷ ls) l = ground (arith, held-append i ls l)

-- A change of a lease that keeps its bucket and its mark changes no count.
pub held-modify_same :
    (i : ℕ) (ls : List Lease) (n : ℕ) (f : Lease → Lease)
    → ((l : Lease) → holds i (f l) ≡ holds i l)
    → held i (modify ls n f) ≡ held i ls
unfolding held
held-modify_same i [] n f h = refl
held-modify_same i (l ∷ ls) zero f h = rw (h l)
held-modify_same i (l ∷ ls) (suc n) f h = rw (held-modify_same i ls n f h)

-- Releasing a lease takes one off its bucket's count.
pub held-release :
    (i : ℕ) (ls : List Lease) (n : ℕ) (l l' : Lease)
    → get_elem? ls n ≡ some l
    → l.released ≡ false
    → l'.released ≡ true
    → held i (modify ls n (λ _. l')) + at l.bucket i ≡ held i ls
unfolding held
held-release i [] n l l' e live done = cc
held-release i (k ∷ ls) zero l l' e live done = ground arith
held-release i (k ∷ ls) (suc n) l l' e live done =
    ground (arith, held-release i ls n l l' e live done)

pub inflight_at-modify :
    (states : List EgressState) (b i : ℕ) (s t : EgressState) (f : EgressState → EgressState)
    → get_elem? states b ≡ some s
    → f s ≡ t
    → inflight_at (modify states b f) i ≡ (if b == i then t.inflight else inflight_at states i)
unfolding inflight_at
inflight_at-modify [] b i s t f e h = cc
inflight_at-modify (u ∷ states) zero zero s t f e h =
    ap (λ (r : EgressState). r.inflight) (ap f (some-injective _ _ e) ∙ h)
inflight_at-modify (u ∷ states) zero (suc i) s t f e h = ground arith
inflight_at-modify (u ∷ states) (suc b) zero s t f e h = ground arith
inflight_at-modify (u ∷ states) (suc b) (suc i) s t f e h =
    ground (arith, inflight_at-modify states b i s t f e h)

pub inflight_at-found :
    (states : List EgressState) (b : ℕ) (s : EgressState)
    → get_elem? states b ≡ some s
    → inflight_at states b ≡ s.inflight
unfolding inflight_at
inflight_at-found states b s e = rw (e, inflight_at)
