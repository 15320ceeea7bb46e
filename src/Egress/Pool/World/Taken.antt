-- ===== src/Egress/Pool/World/Taken.antt =====
-- What `finish` of the pool's `acquire` takes: the slot of one bucket.
use proxy_opencode.Prelude.{
  ℕ, ◌+◌, ◌≤◌, ◌≡◌, ◌≢◌, refl, sym, ap, String, some, List, [], ◌∷◌, ◌==◌, get_elem?, All, arith,
  if◌then◌else◌, Bool-cases, inl, inr, ◌⊎◌, Option, none, ◌∙◌,
}
use mathlib.Core.Option.{some-injective}
use proxy_opencode.Egress.Models.{EgressState, Lease, new_lease}
use proxy_opencode.Egress.Pool.{Pool}
use proxy_opencode.Egress.Pool.Select.{inflight_at, first_min, finish, lease_at, take_slot}
use proxy_opencode.Egress.Pool.Select.Choice.{finish-total, finish-least}
use proxy_opencode.Egress.Pool.World.Counts.{inflight_at-modify, inflight_at-found}

-- One of the positions.
abbrev pub IsAmong : List ℕ → ℕ → Type 0
IsAmong [] i = ⊥
IsAmong (j ∷ is) i = (i ≡ j) ⊎ IsAmong is i

All-IsAmong : (P : ℕ → Type 0) (is : List ℕ) → ((i : ℕ) → IsAmong is i → P i) → All P is
All-IsAmong P [] h = tt
All-IsAmong P (i ∷ is) h = (h i (inl refl), All-IsAmong P is (λ j m. h j (inr m)))

abbrev pub IsPosition : Pool → ℕ → Type 0
IsPosition p i = (s : EgressState) × (get_elem? p.states i ≡ some s)

-- The slot that a lease takes is one of its bucket.
lease_at-inflight :
    (p : Pool) (key : String) (now bound_at best j : ℕ) (o : Option EgressState) (l : Lease)
    (q : Pool)
    → get_elem? p.states best ≡ o
    → lease_at p key now bound_at best o ≡ some (l, q)
    → inflight_at q.states j
      ≡ (if l.bucket == j then inflight_at p.states j + 1 else inflight_at p.states j)
unfolding lease_at take_slot new_lease
lease_at-inflight p key now bound_at best j none l q at e = absurd (ground arith)
lease_at-inflight p key now bound_at best j (some s) l q at e =
    let same = some-injective _ _ e in
    let taken =
      inflight_at-modify p.states best j s (record s { inflight = s.inflight + 1 })
        (λ t. record t { inflight = t.inflight + 1 }) at refl in
    let found = inflight_at-found p.states best s at in
    let bucket : best ≡ l.bucket = ap (λ (r : Lease × Pool). r.0.bucket) same in
    let states : (take_slot p key now bound_at best s).states ≡ q.states =
      ap (λ (r : Lease × Pool). r.1.states) same in
    ap (λ ss. inflight_at ss j) (sym states)
    ∙ taken
    ∙ ap (λ b. if b == j then s.inflight + 1 else inflight_at p.states j) bucket
    ∙ elim (Bool-cases (l.bucket == j)) [
      | inl e' ↦ rw e' (ap (λ n. n + 1) (sym found ∙ ap (inflight_at p.states) (ground arith)))
      | inr e' ↦ rw e' refl
    ]

-- From a list of positions of the pool that is not empty, `finish` leases one that has the fewest
-- requests in flight among them; that bucket then has one request more in flight, and no other
-- bucket's number changes.
pub finish-takes_least :
    (p : Pool) (key : String) (now bound_at : ℕ) (is : List ℕ)
    → is ≢ []
    → All (IsPosition p) is
    → (l : Lease) × (q : Pool) × (finish p key now bound_at is ≡ some (l, q))
      × IsAmong is l.bucket
      × All (λ i. inflight_at p.states l.bucket ≤ inflight_at p.states i) is
      × ((j : ℕ)
          → inflight_at q.states j
            ≡ (if l.bucket == j then inflight_at p.states j + 1 else inflight_at p.states j))
finish-takes_least p key now bound_at [] some_position positions = absurd (some_position refl)
finish-takes_least p key now bound_at (i ∷ is) some_position positions =
    let ((l, q), e) = finish-total p key now bound_at (i ∷ is) some_position positions in
    let (among, least) =
      finish-least (IsAmong (i ∷ is)) p key now bound_at (i ∷ is) {l = l} {q = q} e
        (All-IsAmong (IsAmong (i ∷ is)) (i ∷ is) (λ j m. m)) in
    let best = first_min (inflight_at p.states) i is in
    (
      l,
      q,
      e,
      among,
      least,
      λ j.
          lease_at-inflight p key now bound_at best j (get_elem? p.states best) l q refl
            (unfold finish in e),
    )
