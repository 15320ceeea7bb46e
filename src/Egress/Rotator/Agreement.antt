-- ===== src/Egress/Rotator/Agreement.antt =====
-- The rotation marks of the pool's buckets beside the tasks of the rotator, as rotations are asked
-- for.
use mathlib.Core.Path.{subst}
use proxy_opencode.Prelude.{
  ℕ, ◌≡◌, ◌⊎◌, sym, String, Bool, true, false, not, ◌&&◌, ◌||◌, none, some, arith, str_eq, eq_iff,
  if◌then◌else◌, leb, is_some,
}
use proxy_opencode.Prelude.Dict.{Dict, get, put, remove, get-put, get-remove}
use proxy_opencode.Egress.Counts.{Counters}
use proxy_opencode.Egress.Counters.{
  record_completed, should_rotate_on_429, should_rotate_on_free_tier,
}
use proxy_opencode.Egress.Pool.Verdict.{Outcome}
use proxy_opencode.Egress.Pool.World.Marks.{marks}
use proxy_opencode.Egress.Pool.World.Flags.{set_present, get-set_present, marks-mark_rotating}
use proxy_opencode.Egress.Rotator.{
  Rotator, Task, queued, log, set_mark, counts, launch, request_rotation, act_on, on_release,
  rotatable, running, rotation_retry_skipped,
}

-- A bucket that is there is marked exactly if it has a task.
abbrev pub AgreeOn : Dict Bool → Dict Task → String → Type 0
AgreeOn d tasks name = (get name d ≡ none) ⊎ (get name d ≡ some (is_some (get name tasks)))

abbrev pub Agree : Dict Bool → Dict Task → Type 0
Agree d tasks = (name : String) → AgreeOn d tasks name

Agree-start :
    (d : Dict Bool) (tasks : Dict Task) (name : String) (task : Task)
    → Agree d tasks
    → Agree (set_present name true d) (put name task tasks)
Agree-start d tasks name task h other =
    ground (arith, h other, get-set_present name other true d, get-put name other task tasks)

pub Agree-end :
    (d : Dict Bool) (tasks : Dict Task) (name : String)
    → Agree d tasks
    → Agree (set_present name false d) (remove name tasks)
Agree-end d tasks name h other =
    ground (arith, h other, get-set_present name other false d, get-remove name other tasks)

-- A task goes on.
pub Agree-move :
    (d : Dict Bool) (tasks : Dict Task) (name : String) (old new : Task)
    → get name tasks ≡ some old
    → Agree d tasks
    → Agree d (put name new tasks)
Agree-move d tasks name old new e h other =
    ground (arith, h other, eq_iff name other, get-put name other new tasks)

-- The rotator's invariant.
abbrev pub IsMarked : Rotator → Type 0
IsMarked r = Agree (marks r.world.pool.states) r.tasks

pub if-IsMarked :
    (b : Bool) (r s : Rotator) → IsMarked r → IsMarked s → IsMarked (if b then r else s)
if-IsMarked true r s h k = h
if-IsMarked false r s h k = k

launch-IsMarked :
    (r : Rotator) (name trigger : String) (ts : ℕ)
    → IsMarked r
    → IsMarked (launch r name trigger ts)
unfolding launch log set_mark
launch-IsMarked r name trigger ts h =
    subst (λ d. Agree d (put name (queued trigger) r.tasks))
      (sym (marks-mark_rotating r.world.pool name true))
      (Agree-start (marks r.world.pool.states) r.tasks name (queued trigger) h)

pub request_rotation-IsMarked :
    (r : Rotator) (name trigger : String) (force : Bool) (looked ts : ℕ)
    → IsMarked r
    → IsMarked (request_rotation r name trigger force looked ts)
unfolding request_rotation counts log
request_rotation-IsMarked r name trigger force looked ts h =
    let (rec, r') = counts r name looked in
    let full = leb r.config.max_rotations rec.rotations in
    if-IsMarked (not (rotatable r name) || running r name) r _ h (
      if-IsMarked force (launch r name trigger ts) _ (launch-IsMarked r name trigger ts h) (
        if-IsMarked full (log (rotation_retry_skipped name rec.rotations) r') _ h
          (launch-IsMarked r' name trigger ts h)))

act_on-IsMarked :
    (r : Rotator) (name trigger : String) (looked ts : ℕ) (said : Bool × Counters)
    → IsMarked r
    → IsMarked (act_on r name trigger looked ts said)
unfolding act_on
act_on-IsMarked r name trigger looked ts (true, c) h =
    request_rotation-IsMarked (record r { counters = c }) name trigger false looked ts h
act_on-IsMarked r name trigger looked ts (false, c) h = h

pub on_release-IsMarked :
    (r : Rotator) (name : String) (o : Outcome) (tokens asked looked ts : ℕ)
    → IsMarked r
    → IsMarked (on_release r name o tokens asked looked ts)
unfolding on_release
on_release-IsMarked r name o tokens asked looked ts h =
    let on_429 = should_rotate_on_429 r.counters name o.retry_after asked in
    let on_gate = should_rotate_on_free_tier r.counters name asked in
    let done = record_completed r.counters name tokens asked in
    if-IsMarked o.ok _ _ (act_on-IsMarked r name "threshold" looked ts done h) (
      if-IsMarked (str_eq o.kind "http_429" && r.config.rotate_on_hard_429) _ _
        (act_on-IsMarked r name "hard_429" looked ts on_429 h)
        (if-IsMarked (str_eq o.kind "free_tier_rejected") _ _
          (act_on-IsMarked r name "free_tier_rejected" looked ts on_gate h) h))
