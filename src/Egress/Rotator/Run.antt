-- ===== src/Egress/Rotator/Run.antt =====
-- The tasks of the rotator beside those of the pool: what each piece of code between two awaits does,
-- and any sequence of them.
use proxy_opencode.Prelude.{
  ℕ, String, Bool, false, Option, none, some, List, [], ◌∷◌, get_elem?, if◌then◌else◌,
}
use proxy_opencode.Prelude.Dict.{get, put, remove}
use proxy_opencode.Egress.Models.{EgressSpec, EgressState, Lease}
use proxy_opencode.Egress.Counters.{note_rotation_result, reset, clip}
use proxy_opencode.Egress.Pool.Affinity.{find_from}
use proxy_opencode.Egress.Pool.Verdict.{Outcome, Readings}
use proxy_opencode.Egress.Pool.World.{Action, finish_request, step, apply_rotation_success}
use proxy_opencode.Egress.Rotation.{AgentReply, HealthReply, RotationOutcome, rotate_flow}
use proxy_opencode.Egress.Rotator.{
  Rotator, Task, queued, waiting, rotation_started, rotation_succeeded, rotation_failed, log,
  set_mark, request_rotation, on_release, schedule_retry, retry_later,
}

-- The task is done.
unfoldable pub end_task : String → Rotator → Rotator
unfolding remove
end_task name r = record r { tasks = remove name r.tasks }

-- `_rotate` up to its await. A bucket that the pool does not have ends it.
unfoldable pub begin_rotate : Rotator → String → String → Option (ℕ × EgressState) → Rotator
unfolding end_task set_mark log put
begin_rotate r name trigger none = end_task name (set_mark name false r)
begin_rotate r name trigger (some (i, s)) =
    let r' = log (rotation_started name trigger s.egress_ip) r in
    record r' { tasks = put name (waiting trigger s.egress_ip) r'.tasks }

-- `outcome.ip_to or ""`
unfoldable pub text_of : Option String → String
text_of none = ""
text_of (some text) = text

-- The new address is taken over, or the failure is noted for a retry. `state0` is the address at the
-- start of the task, which `outcome.ip_from` repeats.
unfoldable pub apply_outcome : Rotator → String → String → RotationOutcome → ℕ → ℕ → Rotator
unfolding apply_rotation_success reset log schedule_retry text_of clip
apply_outcome r name trigger outcome mono ts =
    if outcome.ok
    then log (rotation_succeeded name trigger outcome.ip_from outcome.ip_to) (record r {
      world = record (r.world) {
        pool =
            (apply_rotation_success r.world.pool mono name (text_of outcome.ip_to) ""
              outcome.ip_from).0;
      };
      counters = reset r.counters name ts;
    })
    else schedule_retry
        (log (rotation_failed name trigger outcome.ip_from (clip 200 outcome.detail)) r) name
        trigger ts

-- `_rotate` after its await, where `_rotate_flow` returns.
unfoldable pub end_rotate : Rotator → String → String → RotationOutcome → ℕ → ℕ → ℕ → Rotator
unfolding apply_outcome note_rotation_result set_mark end_task
end_rotate r name trigger outcome mono ts noted =
    let r' = apply_outcome r name trigger outcome mono ts in
    end_task name (
      set_mark name false (record r' {
        counters = note_rotation_result r'.counters name outcome.ok outcome.detail noted;
      }))

-- `_rotate` after its await, with `none` for an exception of `_rotate_flow`: it ends the task there.
unfoldable pub resume : Rotator → String → String → Option RotationOutcome → ℕ → ℕ → ℕ → Rotator
unfolding end_task end_rotate
resume r name trigger none mono ts noted = end_task name r
resume r name trigger (some outcome) mono ts noted = end_rotate r name trigger outcome mono ts noted

-- What happens: an action of the pool's tasks that releases no lease, a release with what the
-- observer makes of it, a request of the admin API, a task's beginning and end, a retry's timer.
pub data Happening : Type 0 where
  of_pool : Action → Happening
  releases : ℕ → Readings → Outcome → ℕ → ℕ → ℕ → Happening
  demanded : String → String → Bool → ℕ → ℕ → Happening
  task_begins : String → Happening
  task_ends : String → AgentReply → ℕ → List (ℕ × HealthReply) → ℕ → ℕ → ℕ → Happening
  retry_fires : String → ℕ → ℕ → ℕ → Happening

unfoldable pub begin_task : Rotator → String → Option Task → Rotator
unfolding begin_rotate find_from
begin_task r name (some (queued trigger)) =
    begin_rotate r name trigger (find_from name 0 r.world.pool.states)
begin_task r name _ = r

unfoldable pub finish_task :
    Rotator → String → AgentReply → ℕ → List (ℕ × HealthReply) → ℕ → ℕ → ℕ → Option Task → Rotator
unfolding resume rotate_flow
finish_task r name reply now rounds mono ts noted (some (waiting trigger ip_from)) =
    resume r name trigger
      (rotate_flow r.config.timeout_s r.config.timeout_text ip_from reply now rounds) mono ts noted
finish_task r name reply now rounds mono ts noted _ = r

unfoldable pub fire_retry : Rotator → String → ℕ → ℕ → ℕ → Option String → Rotator
unfolding retry_later
fire_retry r name asked looked ts none = r
fire_retry r name asked looked ts (some trigger) = retry_later r name trigger asked looked ts

-- The observer hears of a lease that was not released before. `s` is the state of its bucket.
unfoldable pub observe :
    Rotator → Outcome → ℕ → ℕ → ℕ → Option Lease → (ℕ → Option EgressState) → Rotator
unfolding on_release
observe r o asked looked ts none state = r
observe r o asked looked ts (some l) state = if l.released then r else elim (state l.bucket) [
  | none ↦ r
  | some s ↦ on_release r s.spec.name o (if o.ok then l.tokens else 0) asked looked ts
]

module _ (matches_prefix : EgressSpec → String → Bool) where
  unfoldable pub happen : Rotator → Happening → Rotator
  unfolding step observe request_rotation begin_task finish_task fire_retry get
  happen r (of_pool a) = record r { world = step matches_prefix r.world a }
  happen r (releases n c o asked looked ts) =
      observe (record r { world = step matches_prefix r.world (finish_request n c o) }) o asked
        looked ts (get_elem? r.world.leases n) (get_elem? r.world.pool.states)
  happen r (demanded name trigger force looked ts) = request_rotation r name trigger force looked ts
  happen r (task_begins name) = begin_task r name (get name r.tasks)
  happen r (task_ends name reply now rounds mono ts noted) =
      finish_task r name reply now rounds mono ts noted (get name r.tasks)
  happen r (retry_fires name asked looked ts) =
      fire_retry r name asked looked ts (get name r.retries)

  unfoldable pub happens : Rotator → List Happening → Rotator
  unfolding happen
  happens r [] = r
  happens r (h ∷ hs) = happens (happen r h) hs
