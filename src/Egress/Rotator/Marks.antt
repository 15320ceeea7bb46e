-- ===== src/Egress/Rotator/Marks.antt =====
-- The rotation marks of the pool's buckets along everything that happens.
use Prim.Native.String.{◌++◌ as ◌++ₛ◌}
use mathlib.Core.Path.{subst}
use proxy_opencode.Prelude.{
  ℕ, suc, ◌≡◌, refl, sym, String, Bool, false, not, ◌||◌, Option, none, some, List, [], ◌∷◌, All,
  arith, if◌then◌else◌, inl, leb, get_elem?, is_some,
}
use proxy_opencode.Prelude.Dict.{get, put, remove}
use proxy_opencode.Egress.Models.{EgressSpec, EgressState, Lease}
use proxy_opencode.Egress.Counts.{Counters, is_failed}
use proxy_opencode.Egress.Counters.{note_rotation_result, clip}
use proxy_opencode.Egress.Pool.{attach_release_observer}
use proxy_opencode.Egress.Pool.Affinity.{find_from}
use proxy_opencode.Egress.Pool.Verdict.{Outcome}
use proxy_opencode.Egress.Pool.World.{World, finish_request, step}
use proxy_opencode.Egress.Pool.World.Marks.{marks, IsTraffic, marks-step}
use proxy_opencode.Egress.Pool.World.Flags.{marks-mark_rotating, marks-apply_rotation_success}
use proxy_opencode.Egress.Rotation.{
  AgentReply, transport_error, agent_answer, unreadable_answer, HealthReply, RotationOutcome,
  agent_rotate, rotate_flow,
}
use proxy_opencode.Egress.Rotator.Agreement.{
  Agree, Agree-end, Agree-move, IsMarked, if-IsMarked, request_rotation-IsMarked,
  on_release-IsMarked,
}
use proxy_opencode.Egress.Rotator.{
  RotatorConfig, Rotator, Task, queued, waiting, new_rotator, log, set_mark, counts, on_release,
  running, rotation_retry_skipped, rotation_retry, rotation_failed, schedule_retry, retry_later,
}
use proxy_opencode.Egress.Rotator.Run.{
  Happening, of_pool, releases, demanded, task_begins, task_ends, retry_fires, end_task,
  begin_rotate, begin_task, apply_outcome, end_rotate, resume, finish_task, fire_retry, observe,
  happen, happens,
}

schedule_retry-IsMarked :
    (r : Rotator) (name trigger : String) (ts : ℕ)
    → IsMarked r
    → IsMarked (schedule_retry r name trigger ts)
unfolding schedule_retry counts log
schedule_retry-IsMarked r name trigger ts h =
    let (rec, r') = counts r name ts in
    let full = leb r.config.max_rotations rec.rotations in
    if-IsMarked full (log (rotation_retry_skipped name rec.rotations) r') _ h (
      if-IsMarked (is_some (get name r'.retries)) r'
        (record r' { retries = put name trigger r'.retries }) h h)

retry_later-IsMarked :
    (r : Rotator) (name trigger : String) (asked looked ts : ℕ)
    → IsMarked r
    → IsMarked (retry_later r name trigger asked looked ts)
unfolding retry_later counts log
retry_later-IsMarked r name trigger asked looked ts h =
    let woken = record r { retries = remove name r.retries } in
    let (rec, r') = counts woken name asked in
    let again = log (rotation_retry name trigger) r' in
    let idle = not (is_failed rec.last_rotation_ok) || leb r.config.max_rotations rec.rotations in
    if-IsMarked (running woken name) woken _ h (
      if-IsMarked idle r' _ h
        (request_rotation-IsMarked again name (trigger ++ₛ "_retry") false looked ts h))

apply_outcome-IsMarked :
    (r : Rotator) (name trigger : String) (outcome : RotationOutcome) (mono ts : ℕ)
    → IsMarked r
    → IsMarked (apply_outcome r name trigger outcome mono ts)
unfolding apply_outcome log
apply_outcome-IsMarked r name trigger outcome mono ts h =
    let failed = log (rotation_failed name trigger outcome.ip_from (clip 200 outcome.detail)) r in
    if-IsMarked outcome.ok _ _
      (subst (λ d. Agree d r.tasks)
        (sym (marks-apply_rotation_success r.world.pool mono name _ "" outcome.ip_from)) h)
      (schedule_retry-IsMarked failed name trigger ts h)

-- The task ends and the mark goes.
end_task-IsMarked :
    (r : Rotator) (name : String) → IsMarked r → IsMarked (end_task name (set_mark name false r))
unfolding end_task set_mark
end_task-IsMarked r name h =
    subst (λ d. Agree d (remove name r.tasks)) (sym (marks-mark_rotating r.world.pool name false))
      (Agree-end (marks r.world.pool.states) r.tasks name h)

end_rotate-IsMarked :
    (r : Rotator) (name trigger : String) (outcome : RotationOutcome) (mono ts noted : ℕ)
    → IsMarked r
    → IsMarked (end_rotate r name trigger outcome mono ts noted)
unfolding end_rotate
end_rotate-IsMarked r name trigger outcome mono ts noted h =
    let r' = apply_outcome r name trigger outcome mono ts in
    end_task-IsMarked
      (record r' {
        counters = note_rotation_result r'.counters name outcome.ok outcome.detail noted;
      })
      name (apply_outcome-IsMarked r name trigger outcome mono ts h)

begin_rotate-IsMarked :
    (r : Rotator) (name trigger : String) (o : Option (ℕ × EgressState))
    → get name r.tasks ≡ some (queued trigger)
    → IsMarked r
    → IsMarked (begin_rotate r name trigger o)
unfolding begin_rotate log
begin_rotate-IsMarked r name trigger none e h = end_task-IsMarked r name h
begin_rotate-IsMarked r name trigger (some (i, s)) e h =
    Agree-move (marks r.world.pool.states) r.tasks name (queued trigger)
      (waiting trigger s.egress_ip) e h

begin_task-IsMarked :
    (r : Rotator) (name : String) (t : Option Task)
    → get name r.tasks ≡ t
    → IsMarked r
    → IsMarked (begin_task r name t)
unfolding begin_task
begin_task-IsMarked r name none e h = h
begin_task-IsMarked r name (some (waiting trigger ip_from)) e h = h
begin_task-IsMarked r name (some (queued trigger)) e h =
    begin_rotate-IsMarked r name trigger (find_from name 0 r.world.pool.states) e h

-- What `_agent_rotate` reads without an exception.
abbrev pub IsRead : AgentReply → Type 0
IsRead unreadable_answer = ⊥
IsRead _ = Unit

-- With an answer that is read, the flow of the rotation returns an outcome.
rotate_flow-returns :
    (timeout_s : ℕ) (timeout_text : String) (from : Option String) (reply : AgentReply) (now : ℕ)
    (rounds : List (ℕ × HealthReply))
    → IsRead reply
    → (outcome : RotationOutcome) × (rotate_flow timeout_s timeout_text from reply now rounds
        ≡ some outcome)
unfolding rotate_flow agent_rotate
rotate_flow-returns timeout_s timeout_text from unreadable_answer now rounds read = absurd read
rotate_flow-returns timeout_s timeout_text from (transport_error text) now rounds read = (_, refl)
rotate_flow-returns timeout_s timeout_text from (agent_answer status ok detail) now rounds read =
    (_, refl)

finish_task-IsMarked :
    (r : Rotator) (name : String) (reply : AgentReply) (now : ℕ) (rounds : List (ℕ × HealthReply))
    (mono ts noted : ℕ) (t : Option Task)
    → IsRead reply
    → IsMarked r
    → IsMarked (finish_task r name reply now rounds mono ts noted t)
unfolding finish_task resume
finish_task-IsMarked r name reply now rounds mono ts noted none read h = h
finish_task-IsMarked r name reply now rounds mono ts noted (some (queued trigger)) read h = h
finish_task-IsMarked r name reply now rounds mono ts noted (some (waiting trigger from)) read h =
    let (outcome, returns) =
      rotate_flow-returns r.config.timeout_s r.config.timeout_text from reply now rounds read in
    rw returns (end_rotate-IsMarked r name trigger outcome mono ts noted h)

fire_retry-IsMarked :
    (r : Rotator) (name : String) (asked looked ts : ℕ) (o : Option String)
    → IsMarked r
    → IsMarked (fire_retry r name asked looked ts o)
unfolding fire_retry
fire_retry-IsMarked r name asked looked ts none h = h
fire_retry-IsMarked r name asked looked ts (some trigger) h =
    retry_later-IsMarked r name trigger asked looked ts h

observe-IsMarked :
    (r : Rotator) (o : Outcome) (asked looked ts : ℕ) (l : Option Lease)
    (state : ℕ → Option EgressState)
    → IsMarked r
    → IsMarked (observe r o asked looked ts l state)
unfolding observe
observe-IsMarked r o asked looked ts none state h = h
observe-IsMarked r o asked looked ts (some l) state h =
    if-IsMarked l.released r _ h (of (state l.bucket))
  where
    of :
        (found : Option EgressState)
        → IsMarked (elim found [
          | none ↦ r
          | some s ↦ on_release r s.spec.name o (if o.ok then l.tokens else 0) asked looked ts
        ])
    of none = h
    of (some s) =
        on_release-IsMarked r s.spec.name o (if o.ok then l.tokens else 0) asked looked ts h

-- The pool's own tasks leave the marks to the rotator, and the answer that a task ends with is read.
abbrev pub IsOrderly : Happening → Type 0
IsOrderly (of_pool a) = IsTraffic a
IsOrderly (task_ends name reply now rounds mono ts noted) = IsRead reply
IsOrderly _ = Unit

happen-IsMarked :
    (matches_prefix : EgressSpec → String → Bool) (r : Rotator) (e : Happening)
    → IsOrderly e
    → IsMarked r
    → IsMarked (happen matches_prefix r e)
unfolding happen
happen-IsMarked mp r (of_pool a) t h =
    subst (λ d. Agree d r.tasks) (sym (marks-step mp r.world a t)) h
happen-IsMarked mp r (releases n c o asked looked ts) t h =
    let after = record r { world = step mp r.world (finish_request n c o) } in
    observe-IsMarked after o asked looked ts (get_elem? r.world.leases n)
      (get_elem? r.world.pool.states)
      (subst (λ d. Agree d r.tasks) (sym (marks-step mp r.world (finish_request n c o) tt)) h)
happen-IsMarked mp r (demanded name trigger force looked ts) t h =
    request_rotation-IsMarked r name trigger force looked ts h
happen-IsMarked mp r (task_begins name) t h = begin_task-IsMarked r name (get name r.tasks) refl h
happen-IsMarked mp r (task_ends name reply now rounds mono ts noted) t h =
    finish_task-IsMarked r name reply now rounds mono ts noted (get name r.tasks) t h
happen-IsMarked mp r (retry_fires name asked looked ts) t h =
    fire_retry-IsMarked r name asked looked ts (get name r.retries) h

happens-IsMarked :
    (matches_prefix : EgressSpec → String → Bool) (r : Rotator) (es : List Happening)
    → All IsOrderly es
    → IsMarked r
    → IsMarked (happens matches_prefix r es)
unfolding happens
happens-IsMarked mp r [] t h = h
happens-IsMarked mp r (e ∷ es) t h =
    happens-IsMarked mp (happen mp r e) es t.1 (happen-IsMarked mp r e t.0 h)

abbrev pub IsUnmarked : EgressState → Type 0
IsUnmarked s = s.rotating ≡ false

unmarked-Agree : (states : List EgressState) → All IsUnmarked states → Agree (marks states) []
unfolding get
unmarked-Agree [] u name = inl refl
unmarked-Agree (s ∷ states) u name =
    let first = u.0 in ground (arith, unmarked-Agree states u.1 name)

-- The mark of the state that a name finds.
mark-found :
    (name : String) (k i : ℕ) (s : EgressState) (states : List EgressState)
    → find_from name k states ≡ some (i, s)
    → get name (marks states) ≡ some s.rotating
unfolding find_from get
mark-found name k i s [] e = ground arith
mark-found name k i s (x ∷ states) e = ground (arith, mark-found name (suc k) i s states)

-- Whatever the requests, the probes, the admin API, the agents and the timers do, and in whatever
-- order, as long as no agent's answer makes `_agent_rotate` raise and only the rotator sets marks: the
-- state that a name finds in the pool is marked as rotating exactly while the rotator has a task for
-- that name. No state may be marked at the start.
pub marked_iff_running :
    (matches_prefix : EgressSpec → String → Bool) (cfg : RotatorConfig) (w : World) (c : Counters)
    (es : List Happening) (name : String) (i : ℕ) (s : EgressState)
    → All IsUnmarked w.pool.states
    → All IsOrderly es
    → find_from name 0 (happens matches_prefix (new_rotator cfg w c) es).world.pool.states
      ≡ some (i, s)
    → s.rotating ≡ running (happens matches_prefix (new_rotator cfg w c) es) name
unfolding new_rotator running attach_release_observer
marked_iff_running mp cfg w c es name i s fresh orderly found =
    let r = happens mp (new_rotator cfg w c) es in
    let start = unmarked-Agree w.pool.states fresh in
    let agree = happens-IsMarked mp (new_rotator cfg w c) es orderly start name in
    let here = mark-found name 0 i s r.world.pool.states found in ground (arith, agree, here)
