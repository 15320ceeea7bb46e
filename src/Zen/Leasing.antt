-- ===== src/Zen/Leasing.antt =====
-- `_acquire` of `chat` in proxy_opencode/upstreams/zen/client.py on the pool: one call of
-- `EgressPool.acquire` from its start to its lease, with what the other tasks do while it sleeps.
use proxy_opencode.Prelude.{ℕ, String, Bool, Option, none, some, List, [], ◌∷◌, get_elem?}
use proxy_opencode.Egress.Models.{EgressSpec, EgressState, Lease}
use proxy_opencode.Egress.Pool.{Pool}
use proxy_opencode.Egress.Pool.Select.{Progress, exhausted, choose, sleep, begin, wake, finish}
use proxy_opencode.Egress.Pool.World.{World, Action, run, add_lease}

-- The readings of the clock in a call of `acquire`, and each sleep before its deadline: what the
-- other tasks do meanwhile, and the reading at its end. After the last sleep of the list comes one
-- that ends at the deadline.
pub record Turn : Type 0 where
  pub now : ℕ
  pub started : ℕ
  pub checked : ℕ
  pub sleeps : List (List Action × ℕ)
  pub bound_at : ℕ

-- The name of the bucket at a position.
unfoldable pub name_at : List EgressState → ℕ → Option String
name_at states i = elim (get_elem? states i) [ none ↦ none | some s ↦ some s.spec.name ]

-- `lease.name`, with `none` for a call that raised.
unfoldable pub leased : World → Option (Lease × Pool) → Option (String × World)
unfolding add_lease name_at
leased w none = none
leased w (some (l, p)) = elim (name_at p.states l.bucket) [
  | none ↦ none
  | some name ↦ some (name, add_lease w (some (l, p)))
]

-- The end of a call that may not sleep again.
unfoldable pub grant : World → String → ℕ → ℕ → Progress → Option (String × World)
unfolding finish leased
grant w key now bound_at (choose is) = leased w (finish w.pool key now bound_at is)
grant w key now bound_at _ = none

-- What is left of the calls to come.
abbrev pub with_turns : List Turn → Option (String × World) → Option (String × (World × List Turn))
with_turns turns none = none
with_turns turns (some (name, w)) = some (name, (w, turns))

module _ (matches_prefix : EgressSpec → String → Bool) where
  unfoldable pub drive :
      World → String → ℕ → ℕ → Progress → List (List Action × ℕ) → Option (String × World)
  unfolding grant wake run
  drive w key now bound_at (sleep s) ((others, checked) ∷ sleeps) =
      let w' = run matches_prefix w others in
      drive w' key now bound_at (wake w'.pool s checked) sleeps
  drive w key now bound_at (sleep s) [] = grant w key now bound_at (wake w.pool s s.deadline)
  drive w key now bound_at exhausted sleeps = none
  drive w key now bound_at (choose is) sleeps = grant w key now bound_at (choose is)

  -- The state of the walk is the pool with its tasks, and the calls of `acquire` to come.
  unfoldable pub pool_acquire :
      World × List Turn → String → List String → Option (String × (World × List Turn))
  unfolding drive begin
  pool_acquire (w, []) key exclude = none
  pool_acquire (w, t ∷ turns) key exclude =
      let (progress, p) = begin w.pool key exclude t.now t.started t.checked in
      with_turns turns (drive (record w { pool = p }) key t.now t.bound_at progress t.sleeps)
