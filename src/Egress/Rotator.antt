-- ===== src/Egress/Rotator.antt =====
-- The rotator of proxy_opencode/egress/rotate.py: it hears of every released lease, asks for a new
-- address of a bucket when the counters say so, waits for it, and tries again later if it fails. It
-- stands beside the pool's tasks: a rotation is a task that is queued, then waits for the agent and
-- the new address, then ends. What the agent answers and the readings of the clocks are arguments.
pub mod Run
pub mod Cap
pub mod Agreement
pub mod Marks
mod Tests
use Prim.Native.String.{◌++◌ as ◌++ₛ◌}
use proxy_opencode.Prelude.{
  ℕ, ◌+◌, ◌≡◌, String, Bool, true, false, not, ◌&&◌, ◌||◌, Option, none, some, List, [], ◌∷◌, ◌++◌,
  ltb, leb, ◌==◌, str_eq, is_some, get_elem?, max, if◌then◌else◌,
}
use proxy_opencode.Prelude.Dict.{Dict, get, put, remove}
use proxy_opencode.Egress.Models.{EgressSpec, EgressState, Lease}
use proxy_opencode.Egress.Counts.{BucketCounts, Counters, record_for, is_failed}
use proxy_opencode.Egress.Counters.{
  record_completed, should_rotate_on_429, should_rotate_on_free_tier, note_rotation_started,
  note_rotation_result, reset, is_metered,
}
use proxy_opencode.Egress.Pool.{Pool, attach_release_observer}
use proxy_opencode.Egress.Pool.Affinity.{find_from}
use proxy_opencode.Egress.Pool.Verdict.{Outcome, Readings}
use proxy_opencode.Egress.Pool.World.{World, mark_rotating, apply_rotation_success}

pub record RotatorConfig : Type 0 where
  pub rotate_on_hard_429 : Bool
  pub timeout_s : ℕ
  pub timeout_text : String
  pub max_rotations : ℕ

-- `max(1, int(max_rotations_per_window))`
unfoldable pub clamp_cap : RotatorConfig → RotatorConfig
clamp_cap cfg = record cfg { max_rotations = max 1 cfg.max_rotations }

-- A task of `_rotate`: it has not begun, or it waits, with the address that it found.
pub data Task : Type 0 where
  queued : String → Task
  waiting : String → Option String → Task

pub data RotationEvent : Type 0 where
  rotation_requested : String → String → RotationEvent
  rotation_retry_skipped : String → ℕ → RotationEvent
  rotation_started : String → String → Option String → RotationEvent
  rotation_succeeded : String → String → Option String → Option String → RotationEvent
  rotation_failed : String → String → Option String → String → RotationEvent
  rotation_retry : String → String → RotationEvent

-- `tasks` holds the tasks that are not done, `retries` the pending retries with their trigger.
pub record Rotator : Type 0 where
  pub config : RotatorConfig
  pub world : World
  pub counters : Counters
  pub tasks : Dict Task
  pub retries : Dict String
  pub events : List RotationEvent

-- `__init__`, which attaches the rotator to the pool as the observer of its releases.
unfoldable pub new_rotator : RotatorConfig → World → Counters → Rotator
unfolding clamp_cap attach_release_observer
new_rotator cfg w c = record {
  config = clamp_cap cfg;
  world = record w { pool = attach_release_observer w.pool };
  counters = c;
  tasks = [];
  retries = [];
  events = [];
}

unfoldable pub log : RotationEvent → Rotator → Rotator
log e r = record r { events = r.events ++ (e ∷ []) }

unfoldable pub rotatable : Rotator → String → Bool
unfolding is_metered
rotatable r name = is_metered r.counters.config name

unfoldable pub running : Rotator → String → Bool
unfolding get
running r name = is_some (get name r.tasks)

-- `self._pool.mark_rotating(name, rotating)`
unfoldable pub set_mark : String → Bool → Rotator → Rotator
unfolding mark_rotating
set_mark name rotating r = record r {
  world = record (r.world) { pool = (mark_rotating r.world.pool name rotating).0 };
}

-- `self._counters.counts(name)`, which may start a row.
unfoldable pub counts : Rotator → String → ℕ → BucketCounts × Rotator
unfolding record_for
counts r name ts = let (rec, c) = record_for r.counters name ts in (rec, record r { counters = c })

-- The part of `request_rotation` that starts the task.
unfoldable pub launch : Rotator → String → String → ℕ → Rotator
unfolding log set_mark note_rotation_started put
launch r name trigger ts =
    let r' = log (rotation_requested name trigger) r in
    let marked =
      set_mark name true (record r' { counters = note_rotation_started r'.counters name ts }) in
    record marked { tasks = put name (queued trigger) marked.tasks }

-- `request_rotation`: the moments are those of the look at the cap and of the start.
unfoldable pub request_rotation : Rotator → String → String → Bool → ℕ → ℕ → Rotator
unfolding rotatable running counts log launch
request_rotation r name trigger force looked ts =
    if not (rotatable r name) || running r name
    then r
    else if force
    then launch r name trigger ts
    else (let (rec, r') = counts r name looked in
        if leb r.config.max_rotations rec.rotations
        then log (rotation_retry_skipped name rec.rotations) r'
        else launch r' name trigger ts)

-- What the counters said is acted on.
unfoldable pub act_on : Rotator → String → String → ℕ → ℕ → Bool × Counters → Rotator
unfolding request_rotation
act_on r name trigger looked ts (wanted, c) =
    let r' = record r { counters = c } in
    if wanted then request_rotation r' name trigger false looked ts else r'

-- `on_release`, with the moments of the counters' look, of the look at the cap and of the start.
unfoldable pub on_release : Rotator → String → Outcome → ℕ → ℕ → ℕ → ℕ → Rotator
unfolding record_completed should_rotate_on_429 should_rotate_on_free_tier act_on
on_release r name o tokens asked looked ts =
    if o.ok
    then act_on r name "threshold" looked ts (record_completed r.counters name tokens asked)
    else if str_eq o.kind "http_429" && r.config.rotate_on_hard_429
    then act_on r name "hard_429" looked ts
        (should_rotate_on_429 r.counters name o.retry_after asked)
    else if str_eq o.kind "free_tier_rejected"
    then act_on r name "free_tier_rejected" looked ts
        (should_rotate_on_free_tier r.counters name asked)
    else r

-- `_schedule_retry`
unfoldable pub schedule_retry : Rotator → String → String → ℕ → Rotator
unfolding counts log get put
schedule_retry r name trigger ts =
    let (rec, r') = counts r name ts in
    if leb r.config.max_rotations rec.rotations
    then log (rotation_retry_skipped name rec.rotations) r'
    else if is_some (get name r'.retries)
    then r'
    else record r' { retries = put name trigger r'.retries }

-- `_retry_later` after its sleep; its task ends with it.
unfoldable pub retry_later : Rotator → String → String → ℕ → ℕ → ℕ → Rotator
unfolding running counts log request_rotation remove
retry_later r name trigger asked looked ts =
    let woken = record r { retries = remove name r.retries } in
    if running woken name
    then woken
    else (let (rec, r') = counts woken name asked in
        if not (is_failed rec.last_rotation_ok) || leb r.config.max_rotations rec.rotations
        then r'
        else request_rotation (log (rotation_retry name trigger) r') name (trigger ++ₛ "_retry")
            false looked ts)
