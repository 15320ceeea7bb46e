-- ===== src/Egress/Pool/World.antt =====
-- The pool of proxy_opencode/egress/pool.py among the tasks that use it: the leases that were
-- handed out, and the requests that sleep in the gate. Every `await` of the pool's methods ends an
-- action, so a list of actions is one interleaving of the tasks; an action carries the readings of
-- the monotonic clock that its code makes.
pub mod Counts
pub mod Taken
pub mod Accounts
pub mod Settled
pub mod Steps
pub mod Labels
pub mod Freed
pub mod Marks
pub mod Flags
use proxy_opencode.Prelude.{
  ℕ, ◌+◌, ◌-◌, ◌≤◌, String, Bool, true, false, not, Option, none, some, List, [], ◌∷◌, ◌++◌, ◌≡◌,
  get_elem?, modify, erase_idx, ltb, if◌then◌else◌,
}
use proxy_opencode.Egress.Models.{EgressSpec, EgressState, Lease}
use proxy_opencode.Egress.Ledger.{Event, Notice}
use proxy_opencode.Egress.Pool.{Config, Pool, new}
use proxy_opencode.Egress.Pool.Verdict.{Outcome, Readings, settle}
use proxy_opencode.Egress.Pool.Health.{Probe, probe_one, set_rotating, rotation_success}
use proxy_opencode.Egress.Pool.Affinity.{find_from}
use proxy_opencode.Egress.Pool.Select.{
  Waiting, Progress, exhausted, choose, sleep, begin, wake, finish,
}

-- A bucket's new state and the events of the change, put into the pool.
unfoldable pub update : Pool → ℕ → EgressState × List Event → Pool
update p i (s, events) = record p {
  states = modify p.states i (λ _. s);
  events = p.events ++ events;
}

-- `_notify_observer`: the tokens are passed on for a success alone.
unfoldable pub notify : Pool → String → Outcome → ℕ → Pool
notify p name o tokens =
    if p.observed
    then record p {
      notices =
          p.notices
          ++ (record {
            name = name;
            ok = o.ok;
            kind = o.kind;
            retry_after = o.retry_after;
            tokens = if o.ok then tokens else 0;
          }
              ∷ []);
    }
    else p

unfoldable pub mark_released : Lease → Lease
mark_released l = record l { released = true }

-- `release` at the bucket's state; the pool has one at the position of every lease.
unfoldable pub release_at : Pool → Readings → Outcome → Lease → Option EgressState → Pool
unfolding update notify settle
release_at p c o l none = p
release_at p c o l (some s) =
    notify (update p l.bucket (settle p.config c o s)) s.spec.name o l.tokens

unfoldable pub release : Pool → Readings → Outcome → Lease → Pool × Lease
unfolding release_at mark_released
release p c o l =
    if l.released
    then (p, l)
    else (release_at p c o l (get_elem? p.states l.bucket), mark_released l)

unfoldable pub give_back : EgressState → EgressState
give_back s = record s { inflight = s.inflight - 1 }

-- `abandon`
unfoldable pub abandon : Pool → Lease → Pool × Lease
unfolding give_back mark_released
abandon p l =
    if l.released
    then (p, l)
    else (record p { states = modify p.states l.bucket give_back }, mark_released l)

-- The change of `mark_rotating` at the bucket that was found.
unfoldable pub flag_at : Pool → Bool → Option (ℕ × EgressState) → Pool × Bool
unfolding set_rotating
flag_at p rotating none = (p, false)
flag_at p rotating (some (i, s)) =
    let same = if s.rotating then rotating else not rotating in
    if same
    then (p, false)
    else (record p { states = modify p.states i (set_rotating rotating) }, true)

unfoldable pub mark_rotating : Pool → String → Bool → Pool × Bool
unfolding find_from flag_at
mark_rotating p name rotating = flag_at p rotating (find_from name 0 p.states)

-- `apply_rotation_success` at the bucket that was found.
unfoldable pub rotated_at :
    Pool → ℕ → String → String → Option String → Option (ℕ × EgressState) → Pool × Bool
unfolding update rotation_success
rotated_at p now ip ip_at ip_from none = (p, false)
rotated_at p now ip ip_at ip_from (some (i, s)) =
    (update p i (rotation_success now ip ip_at ip_from s), true)

unfoldable pub apply_rotation_success :
    Pool → ℕ → String → String → String → Option String → Pool × Bool
unfolding find_from rotated_at
apply_rotation_success p now name ip ip_at ip_from =
    rotated_at p now ip ip_at ip_from (find_from name 0 p.states)

-- One round of `_probe_loop` at one bucket.
unfoldable pub probe_with :
    (EgressSpec → String → Bool) → Pool → ℕ → ℕ → Probe → Option EgressState → Pool
unfolding update probe_one
probe_with matches_prefix p i now e none = p
probe_with matches_prefix p i now e (some s) =
    update p i (probe_one p.config matches_prefix now e s)

unfoldable pub probe_at : (EgressSpec → String → Bool) → Pool → ℕ → ℕ → Probe → Pool
unfolding probe_with
probe_at matches_prefix p i now e = probe_with matches_prefix p i now e (get_elem? p.states i)

pub record World : Type 0 where
  pub pool : Pool
  pub leases : List Lease
  pub sleepers : List Waiting

-- The actions, with the clock's readings in the order in which they are made.
pub data Action : Type 0 where
  acquire : String → List String → ℕ → ℕ → ℕ → ℕ → Action
  wake_up : ℕ → ℕ → ℕ → Action
  cancel : ℕ → Action
  set_tokens : ℕ → ℕ → Action
  finish_request : ℕ → Readings → Outcome → Action
  drop_request : ℕ → Action
  probe : ℕ → ℕ → Probe → Action
  rotating : String → Bool → Action
  rotated : ℕ → String → String → String → Option String → Action

-- A request that got its lease; with `none` it raised.
unfoldable pub add_lease : World → Option (Lease × Pool) → World
add_lease w none = w
add_lease w (some (l, p)) = record w { pool = p; leases = w.leases ++ (l ∷ []) }

-- A request goes on: it failed, takes a bucket, or sleeps.
unfoldable pub proceed : World → String → ℕ → ℕ → Progress → World
unfolding finish add_lease
proceed w key now bound_at exhausted = w
proceed w key now bound_at (choose is) = add_lease w (finish w.pool key now bound_at is)
proceed w key now bound_at (sleep s) = record w { sleepers = w.sleepers ++ (s ∷ []) }

unfoldable pub wake_at : World → ℕ → ℕ → ℕ → Option Waiting → World
unfolding wake proceed
wake_at w n checked bound_at none = w
wake_at w n checked bound_at (some s) =
    proceed (record w { sleepers = erase_idx n w.sleepers }) s.key s.now bound_at
      (wake w.pool s checked)

unfoldable pub settle_lease : World → ℕ → Pool × Lease → World
settle_lease w n (p, l) = record w { pool = p; leases = modify w.leases n (λ _. l) }

unfoldable pub with_lease : World → ℕ → (Lease → Pool × Lease) → Option Lease → World
unfolding settle_lease
with_lease w n f none = w
with_lease w n f (some l) = settle_lease w n (f l)

module _ (matches_prefix : EgressSpec → String → Bool) where
  unfoldable pub step : World → Action → World
  unfolding begin proceed wake_at with_lease release abandon probe_at mark_rotating
      apply_rotation_success
  step w (acquire key exclude now started checked bound_at) =
      let (progress, p) = begin w.pool key exclude now started checked in
      proceed (record w { pool = p }) key now bound_at progress
  step w (wake_up n checked bound_at) = wake_at w n checked bound_at (get_elem? w.sleepers n)
  step w (cancel n) = record w { sleepers = erase_idx n w.sleepers }
  step w (set_tokens n tokens) = record w {
    leases = modify w.leases n (λ l. record l { tokens = tokens });
  }
  step w (finish_request n c o) = with_lease w n (release w.pool c o) (get_elem? w.leases n)
  step w (drop_request n) = with_lease w n (abandon w.pool) (get_elem? w.leases n)
  step w (probe i now e) = record w { pool = probe_at matches_prefix w.pool i now e }
  step w (rotating name flag) = record w { pool = (mark_rotating w.pool name flag).0 }
  step w (rotated now name ip ip_at ip_from) = record w {
    pool = (apply_rotation_success w.pool now name ip ip_at ip_from).0;
  }

  unfoldable pub run : World → List Action → World
  unfolding step
  run w [] = w
  run w (a ∷ actions) = run (step w a) actions

abbrev pub start : Pool → World
start p = record { pool = p; leases = []; sleepers = [] }
