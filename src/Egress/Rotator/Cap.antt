-- ===== src/Egress/Rotator/Cap.antt =====
-- The bound on the rotations of a bucket in one window.
use proxy_opencode.Prelude.{
  ℕ, ◌≡◌, refl, String, Bool, true, false, not, ◌||◌, Option, none, some, List, [], ◌∷◌, All, arith,
  str_eq, ◌&&◌, if◌then◌else◌, Bool-cases, inl, inr, leb, get_elem?, is_some,
}
use Prim.Native.String.{◌++◌ as ◌++ₛ◌}
use proxy_opencode.Prelude.Dict.{get, put, remove}
use proxy_opencode.Egress.Models.{EgressSpec, EgressState, Lease}
use proxy_opencode.Egress.Counts.{Counters, record_for, is_failed}
use proxy_opencode.Egress.Counters.{
  record_completed, should_rotate_on_429, should_rotate_on_free_tier, clip,
}
use proxy_opencode.Egress.Counters.Capped.{
  IsCapped, record_for-IsCapped, record_completed-IsCapped, reset-IsCapped,
  note_rotation_result-IsCapped, started-IsCapped,
}
use proxy_opencode.Egress.Pool.Affinity.{find_from}
use proxy_opencode.Egress.Pool.Verdict.{Outcome}
use proxy_opencode.Egress.Pool.World.{World, finish_request, step}
use proxy_opencode.Egress.Rotation.{AgentReply, HealthReply, RotationOutcome, rotate_flow}
use proxy_opencode.Egress.Rotator.{
  RotatorConfig, Rotator, Task, queued, waiting, new_rotator, log, set_mark, counts, launch,
  request_rotation, act_on, on_release, rotatable, running, clamp_cap, rotation_retry_skipped,
  rotation_retry, rotation_failed, schedule_retry, retry_later,
}
use proxy_opencode.Egress.Rotator.Run.{
  Happening, of_pool, releases, demanded, task_begins, task_ends, retry_fires, end_task,
  begin_rotate, begin_task, apply_outcome, end_rotate, resume, finish_task, fire_retry, observe,
  happen, happens,
}

-- The rotator allows `most` rotations, and each row of its counters keeps it.
abbrev Keeps : ℕ → Rotator → Type 0
Keeps most r = (r.config.max_rotations ≡ most) × IsCapped most r.counters

request_rotation-Keeps :
    (most : ℕ) (r : Rotator) (name trigger : String) (looked ts : ℕ)
    → Keeps most r
    → Keeps most (request_rotation r name trigger false looked ts)
unfolding request_rotation counts log launch set_mark
request_rotation-Keeps most r name trigger looked ts k =
    let rec = (record_for r.counters name looked).0 in
    elim (Bool-cases (not (rotatable r name) || running r name)) [
      | inl e ↦ rw e k
      | inr e ↦ elim (Bool-cases (leb r.config.max_rotations rec.rotations)) [
        | inl full ↦ rw (e, full) (k.0, (record_for-IsCapped most r.counters name looked k.1).1)
        | inr free ↦
            rw (e, free) (k.0, started-IsCapped most r.counters name looked ts k.1 (ground arith))
      ]
    ]

if-Keeps :
    (most : ℕ) (b : Bool) (r s : Rotator)
    → Keeps most r
    → Keeps most s
    → Keeps most (if b then r else s)
if-Keeps most true r s h k = h
if-Keeps most false r s h k = k

act_on-Keeps :
    (most : ℕ) (r : Rotator) (name trigger : String) (looked ts : ℕ) (said : Bool × Counters)
    → r.config.max_rotations ≡ most
    → IsCapped most said.1
    → Keeps most (act_on r name trigger looked ts said)
unfolding act_on
act_on-Keeps most r name trigger looked ts (true, c) same h =
    request_rotation-Keeps most (record r { counters = c }) name trigger looked ts (same, h)
act_on-Keeps most r name trigger looked ts (false, c) same h = (same, h)

on_release-Keeps :
    (most : ℕ) (r : Rotator) (name : String) (o : Outcome) (tokens asked looked ts : ℕ)
    → Keeps most r
    → Keeps most (on_release r name o tokens asked looked ts)
unfolding on_release
on_release-Keeps most r name o tokens asked looked ts k =
    let seen = (record_for-IsCapped most r.counters name asked k.1).1 in
    let on_429 = should_rotate_on_429 r.counters name o.retry_after asked in
    let on_gate = should_rotate_on_free_tier r.counters name asked in
    let done = record_completed r.counters name tokens asked in
    if-Keeps most o.ok _ _
      (act_on-Keeps most r name "threshold" looked ts done k.0
        (record_completed-IsCapped most r.counters name tokens asked k.1))
      (if-Keeps most (str_eq o.kind "http_429" && r.config.rotate_on_hard_429) _ _
        (act_on-Keeps most r name "hard_429" looked ts on_429 k.0
          (unfold should_rotate_on_429 in seen))
        (if-Keeps most (str_eq o.kind "free_tier_rejected") _ _
          (act_on-Keeps most r name "free_tier_rejected" looked ts on_gate k.0
            (unfold should_rotate_on_free_tier in seen))
          k))

schedule_retry-Keeps :
    (most : ℕ) (r : Rotator) (name trigger : String) (ts : ℕ)
    → Keeps most r
    → Keeps most (schedule_retry r name trigger ts)
unfolding schedule_retry counts log
schedule_retry-Keeps most r name trigger ts k =
    let (rec, r') = counts r name ts in
    let full = leb r.config.max_rotations rec.rotations in
    let kept : Keeps most r' = (k.0, (record_for-IsCapped most r.counters name ts k.1).1) in
    let pending = is_some (get name r'.retries) in
    if-Keeps most full (log (rotation_retry_skipped name rec.rotations) r') _ kept
      (if-Keeps most pending r' (record r' { retries = put name trigger r'.retries }) kept kept)

retry_later-Keeps :
    (most : ℕ) (r : Rotator) (name trigger : String) (asked looked ts : ℕ)
    → Keeps most r
    → Keeps most (retry_later r name trigger asked looked ts)
unfolding retry_later counts log
retry_later-Keeps most r name trigger asked looked ts k =
    let woken = record r { retries = remove name r.retries } in
    let (rec, r') = counts woken name asked in
    let kept : Keeps most r' = (k.0, (record_for-IsCapped most r.counters name asked k.1).1) in
    let again = log (rotation_retry name trigger) r' in
    let idle = not (is_failed rec.last_rotation_ok) || leb r.config.max_rotations rec.rotations in
    if-Keeps most (running woken name) woken _ k (
      if-Keeps most idle r' _ kept
        (request_rotation-Keeps most again name (trigger ++ₛ "_retry") looked ts kept))

apply_outcome-Keeps :
    (most : ℕ) (r : Rotator) (name trigger : String) (outcome : RotationOutcome) (mono ts : ℕ)
    → Keeps most r
    → Keeps most (apply_outcome r name trigger outcome mono ts)
unfolding apply_outcome log
apply_outcome-Keeps most r name trigger outcome mono ts k =
    if-Keeps most outcome.ok _ _ (k.0, reset-IsCapped most r.counters name ts k.1)
      (schedule_retry-Keeps most
        (log (rotation_failed name trigger outcome.ip_from (clip 200 outcome.detail)) r) name
        trigger ts k)

end_rotate-Keeps :
    (most : ℕ) (r : Rotator) (name trigger : String) (outcome : RotationOutcome) (mono ts noted : ℕ)
    → Keeps most r
    → Keeps most (end_rotate r name trigger outcome mono ts noted)
unfolding end_rotate set_mark end_task
end_rotate-Keeps most r name trigger outcome mono ts noted k =
    let r' = apply_outcome r name trigger outcome mono ts in
    let (same, h) = apply_outcome-Keeps most r name trigger outcome mono ts k in
    (same, note_rotation_result-IsCapped most r'.counters name outcome.ok outcome.detail noted h)

resume-Keeps :
    (most : ℕ) (r : Rotator) (name trigger : String) (o : Option RotationOutcome)
    (mono ts noted : ℕ)
    → Keeps most r
    → Keeps most (resume r name trigger o mono ts noted)
unfolding resume end_task
resume-Keeps most r name trigger none mono ts noted k = k
resume-Keeps most r name trigger (some outcome) mono ts noted k =
    end_rotate-Keeps most r name trigger outcome mono ts noted k

begin_task-Keeps :
    (most : ℕ) (r : Rotator) (name : String) (t : Option Task)
    → Keeps most r
    → Keeps most (begin_task r name t)
unfolding begin_task set_mark end_task log
begin_task-Keeps most r name none k = k
begin_task-Keeps most r name (some (waiting trigger ip_from)) k = k
begin_task-Keeps most r name (some (queued trigger)) k = of (find_from name 0 r.world.pool.states)
  where
    of : (o : Option (ℕ × EgressState)) → Keeps most (begin_rotate r name trigger o)
    of none = k
    of (some (i, s)) = k

finish_task-Keeps :
    (most : ℕ) (r : Rotator) (name : String) (reply : AgentReply) (now : ℕ)
    (rounds : List (ℕ × HealthReply)) (mono ts noted : ℕ) (t : Option Task)
    → Keeps most r
    → Keeps most (finish_task r name reply now rounds mono ts noted t)
unfolding finish_task
finish_task-Keeps most r name reply now rounds mono ts noted none k = k
finish_task-Keeps most r name reply now rounds mono ts noted (some (queued trigger)) k = k
finish_task-Keeps most r name reply now rounds mono ts noted (some (waiting trigger ip_from)) k =
    resume-Keeps most r name trigger
      (rotate_flow r.config.timeout_s r.config.timeout_text ip_from reply now rounds) mono ts noted
      k

fire_retry-Keeps :
    (most : ℕ) (r : Rotator) (name : String) (asked looked ts : ℕ) (o : Option String)
    → Keeps most r
    → Keeps most (fire_retry r name asked looked ts o)
unfolding fire_retry
fire_retry-Keeps most r name asked looked ts none k = k
fire_retry-Keeps most r name asked looked ts (some trigger) k =
    retry_later-Keeps most r name trigger asked looked ts k

observe-Keeps :
    (most : ℕ) (r : Rotator) (o : Outcome) (asked looked ts : ℕ) (l : Option Lease)
    (state : ℕ → Option EgressState)
    → Keeps most r
    → Keeps most (observe r o asked looked ts l state)
unfolding observe
observe-Keeps most r o asked looked ts none state k = k
observe-Keeps most r o asked looked ts (some l) state k =
    if-Keeps most l.released r _ k (of (state l.bucket))
  where
    of :
        (found : Option EgressState)
        → Keeps most (elim found [
          | none ↦ r
          | some s ↦ on_release r s.spec.name o (if o.ok then l.tokens else 0) asked looked ts
        ])
    of none = k
    of (some s) =
        on_release-Keeps most r s.spec.name o (if o.ok then l.tokens else 0) asked looked ts k

-- A request of the admin API does not bypass the cap.
abbrev pub IsUnforced : Happening → Type 0
IsUnforced (demanded name trigger force looked ts) = force ≡ false
IsUnforced _ = Unit

happen-Keeps :
    (matches_prefix : EgressSpec → String → Bool) (most : ℕ) (r : Rotator) (h : Happening)
    → IsUnforced h
    → Keeps most r
    → Keeps most (happen matches_prefix r h)
unfolding happen
happen-Keeps mp most r (of_pool a) u k = k
happen-Keeps mp most r (releases n c o asked looked ts) u k =
    observe-Keeps most (record r { world = step mp r.world (finish_request n c o) }) o asked looked
      ts (get_elem? r.world.leases n) (get_elem? r.world.pool.states) k
happen-Keeps mp most r (demanded name trigger force looked ts) u k =
    rw u (request_rotation-Keeps most r name trigger looked ts k)
happen-Keeps mp most r (task_begins name) u k = begin_task-Keeps most r name (get name r.tasks) k
happen-Keeps mp most r (task_ends name reply now rounds mono ts noted) u k =
    finish_task-Keeps most r name reply now rounds mono ts noted (get name r.tasks) k
happen-Keeps mp most r (retry_fires name asked looked ts) u k =
    fire_retry-Keeps most r name asked looked ts (get name r.retries) k

happens-Keeps :
    (matches_prefix : EgressSpec → String → Bool) (most : ℕ) (r : Rotator) (hs : List Happening)
    → All IsUnforced hs
    → Keeps most r
    → Keeps most (happens matches_prefix r hs)
unfolding happens
happens-Keeps mp most r [] u k = k
happens-Keeps mp most r (h ∷ hs) u k =
    happens-Keeps mp most (happen mp r h) hs u.1 (happen-Keeps mp most r h u.0 k)

-- Whatever the requests, the probes, the agents and the timers do, the counters note at most as many
-- rotations of a bucket in its window as the configured cap, unless the admin API forces one. The
-- counters at the start must keep the cap, as new ones do.
pub rotation_cap :
    (matches_prefix : EgressSpec → String → Bool) (cfg : RotatorConfig) (w : World) (c : Counters)
    (hs : List Happening)
    → IsCapped (clamp_cap cfg).max_rotations c
    → All IsUnforced hs
    → IsCapped
        (clamp_cap cfg).max_rotations
        (happens matches_prefix (new_rotator cfg w c) hs).counters
unfolding new_rotator
rotation_cap mp cfg w c hs start unforced =
    (happens-Keeps mp (clamp_cap cfg).max_rotations (new_rotator cfg w c) hs unforced
      (refl, start)).1
