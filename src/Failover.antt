-- ===== src/Failover.antt =====
-- The failover wrapper of proxy_opencode/upstreams/failover.py: a primary adapter, a backup adapter,
-- a breaker and a daily budget. A request awaits the primary and perhaps the backup; the code
-- between two awaits is one function here, `begin`, `after_primary` and `after_secondary`. What an
-- adapter answers is an argument.
pub mod Laws
pub mod Budget
pub mod Tasks
mod Tests
use proxy_opencode.Prelude.{
  ℕ, ◌+◌, ◌-◌, ◌*◌, String, Bool, true, false, not, ◌&&◌, ◌||◌, Option, none, some, List, [], ◌∷◌,
  ◌++◌, max, ltb, leb, ◌==◌, str_eq, if◌then◌else◌,
}
use proxy_opencode.Prelude.Dict.{Dict, get}

-- The attributes of `FailoverAdapter` that do not change. Times are in milliseconds.
pub record Settings : Type 0 where
  pub name : String
  pub secondary_name : String
  pub model_map : Dict String
  pub default_model : String
  pub hold_s : ℕ
  pub recover_after : ℕ
  pub request_scoped : Bool
  pub daily_max : ℕ

-- The clamps of `__init__`.
unfoldable pub clamp : Settings → Settings
clamp cfg = record cfg { hold_s = max 1000 cfg.hold_s; recover_after = max 1 cfg.recover_after }

-- Why the backup is asked.
pub data Reason : Type 0 where
  hold_window : Reason
  fault : String → Reason
  upstream_http : ℕ → Reason

pub data Severity : Type 0 where
  incident continuation request recovered : Severity

-- An exception: `InvalidRequest`, one of another kind with its description, or the
-- `ConnectionError` for two dead chains.
pub data Raised : Type 0 where
  invalid_request : String → Raised
  other : String → Raised
  both_unreachable : Raised

pub data Event : Type 0 where
  budget_exhausted : ℕ → Event
  engaged : Severity → Reason → ℕ → Event
  failed_unreachable : Raised → Event
  failed_status : ℕ → Event
  fallback_recovered : Event

-- The attributes that change: `_fallback_until` is 0 while the breaker is closed.
pub record State : Type 0 where
  pub fallback_until : ℕ
  pub primary_streak : ℕ
  pub last_trip_at : ℕ
  pub budget_day : String
  pub budget_used : ℕ
  pub events : List Event

abbrev pub init : State
init = record {
  fallback_until = 0;
  primary_streak = 0;
  last_trip_at = 0;
  budget_day = "";
  budget_used = 0;
  events = [];
}

-- The body of an error answer: the upstream's own, or one of the gateway's two.
pub data Content : Type 0 where
  upstream : String → Content
  budget_spent : ℕ → ℕ → Content
  backup_error : ℕ → Reason → Content

-- What `chat` of an adapter returns: an error relay with its `__status__`, or an answer.
pub data Reply (R : Type 0) : Type 0 where
  relay : ℕ → Content → Reply R
  answer : R → Reply R

pub data Outcome (R : Type 0) : Type 0 where
  returned : Reply R → Outcome R
  raised : Raised → Outcome R

-- The payload: its model, the empty text if it has none, and the rest of its fields.
pub record Payload (B : Type 0) : Type 0 where
  pub model : String
  pub rest : B

-- `_MARKER` of the request's task.
pub record Marker : Type 0 where
  pub model : String
  pub requested_model : String
  pub reason : Reason

-- How a request goes on: it has its result, or it awaits an adapter.
pub data Next (B R : Type 0) : Type 0 where
  done : Outcome R → Next B R
  ask_primary : Next B R
  ask_secondary : Payload B → Marker → Next B R

-- `_PASSTHROUGH_STATUSES`
unfoldable pub passthrough : ℕ → Bool
passthrough status = (status == 400) || (status == 401) || (status == 404) || (status == 422)

unfoldable pub emit : Event → State → State
emit e s = record s { events = s.events ++ (e ∷ []) }

-- The reset of the counter on a new day, which `_budget_blocked` and `_note_backup_served` share.
unfoldable pub roll_day : String → State → State
roll_day day s =
    if str_eq day s.budget_day then s else record s { budget_day = day; budget_used = 0 }

unfoldable pub budget_blocked : Settings → String → State → Bool × State
unfolding roll_day
budget_blocked cfg day s =
    if cfg.daily_max == 0
    then (false, s)
    else (let s' = roll_day day s in (leb cfg.daily_max s'.budget_used, s'))

unfoldable pub note_backup_served : Settings → String → State → State
unfolding roll_day
note_backup_served cfg day s =
    if cfg.daily_max == 0
    then s
    else (let s' = roll_day day s in record s' { budget_used = s'.budget_used + 1 })

-- `a or b` for texts
unfoldable pub or_else : String → String → String
or_else a b = if str_eq a "" then b else a

-- `_map_model`
unfoldable pub map_model : Settings → String → String
unfolding get or_else
map_model cfg requested = elim (get requested cfg.model_map) [
  | none ↦ cfg.default_model
  | some mapped ↦ or_else mapped cfg.default_model
]

-- The primary answered: the streak grows, and an open breaker closes at the end of it.
unfoldable pub primary_ok : Settings → State → State
unfolding emit
primary_ok cfg s =
    let s' = record s { primary_streak = s.primary_streak + 1 } in
    if not (s.fallback_until == 0) && leb cfg.recover_after s'.primary_streak
    then emit fallback_recovered
        (record s' { fallback_until = 0; primary_streak = 0; last_trip_at = 0 })
    else s'

module _ {B R : Type 0} (cfg : Settings) where
  -- `_via_secondary` up to its await
  unfoldable pub via_secondary : Payload B → Reason → Next B R
  unfolding map_model or_else
  via_secondary payload reason =
      let model = or_else (map_model cfg payload.model) payload.model in
      ask_secondary (record payload { model = model })
        (record { model = model; requested_model = payload.model; reason = reason })

  -- `_trip` up to the await of `_via_secondary`, with its two readings of the clock.
  unfoldable pub trip : ℕ → ℕ → Payload B → Reason → State → Next B R × State
  unfolding via_secondary emit
  trip opened now payload reason s =
      let hold_open = not cfg.request_scoped in
      let re_trip = ltb 0 s.last_trip_at && ltb (now - s.last_trip_at) (cfg.hold_s * 2) in
      let severity = if re_trip then continuation else if hold_open then incident else request in
      (
        via_secondary payload reason,
        emit (engaged severity reason (if hold_open then cfg.hold_s else 0)) (record s {
          fallback_until = if hold_open then opened + cfg.hold_s else s.fallback_until;
          primary_streak = 0;
          last_trip_at = now;
        }),
      )

  -- `chat` up to its first await.
  unfoldable pub begin : ℕ → String → Payload B → State → Next B R × State
  unfolding budget_blocked via_secondary emit
  begin now day payload s =
      if ltb now s.fallback_until
      then (let (blocked, s') = budget_blocked cfg day s in
          if blocked
          then (
            done (returned (relay 503 (budget_spent s'.budget_used cfg.daily_max))),
            emit (budget_exhausted s'.budget_used) s',
          )
          else (via_secondary payload hold_window, s'))
      else (ask_primary, s)

  -- A failure of the primary that is not the client's: the backup is asked, unless the budget is
  -- spent; then the failure is passed on.
  unfoldable pub fail_over :
      ℕ → ℕ → String → Payload B → Reason → Outcome R → State → Next B R × State
  unfolding budget_blocked trip emit
  fail_over opened now day payload reason outcome s =
      let (blocked, s') = budget_blocked cfg day s in
      if blocked
      then (done outcome, emit (budget_exhausted s'.budget_used) s')
      else trip opened now payload reason s'

  -- `chat` after the await of the primary.
  unfoldable pub after_primary : ℕ → ℕ → String → Payload B → Outcome R → State → Next B R × State
  unfolding fail_over primary_ok passthrough
  after_primary opened now day payload (raised (invalid_request e)) s =
      (done (raised (invalid_request e)), s)
  after_primary opened now day payload (raised (other e)) s =
      fail_over opened now day payload (fault e) (raised (other e)) s
  after_primary opened now day payload (raised both_unreachable) s =
      fail_over opened now day payload (fault "ConnectionError") (raised both_unreachable) s
  after_primary opened now day payload (returned (relay status content)) s =
      if leb 400 status
      then (if passthrough status
          then (done (returned (relay status content)), s)
          else fail_over opened now day payload (upstream_http status)
              (returned (relay status content)) s)
      else (done (returned (relay status content)), primary_ok cfg s)
  after_primary opened now day payload (returned (answer r)) s =
      (done (returned (answer r)), primary_ok cfg s)

-- `_via_secondary` after its await.
unfoldable pub after_secondary :
    {R : Type 0} → Settings → String → Marker → Outcome R → State → Outcome R × State
unfolding note_backup_served emit
after_secondary cfg day m (raised e) s = (raised both_unreachable, emit (failed_unreachable e) s)
after_secondary cfg day m (returned (relay status content)) s = (
  returned (relay 503 (backup_error status m.reason)),
  emit (failed_status status) (record s { fallback_until = 0 }),
)
after_secondary cfg day m (returned (answer r)) s =
    (returned (answer r), note_backup_served cfg day s)

-- One whole `chat` with no other request between its awaits: the readings of the clock and of the
-- date, the primary's outcome and the backup's outcome at the payload that it is given.
pub record Request (B R : Type 0) : Type 0 where
  pub started : ℕ
  pub opened : ℕ
  pub now : ℕ
  pub day_started : String
  pub day_primary : String
  pub day_secondary : String
  pub payload : Payload B
  pub primary : Outcome R
  pub secondary : Payload B → Outcome R

module _ {B R : Type 0} (cfg : Settings) where
  -- The rest of a request that awaits the backup or has its result; `ask_primary` does not come up
  -- after the primary's answer.
  unfoldable pub conclude : Request B R → Next B R → State → Outcome R × State
  unfolding after_secondary
  conclude q (done o) s = (o, s)
  conclude q ask_primary s = (q.primary, s)
  conclude q (ask_secondary body m) s = after_secondary cfg q.day_secondary m (q.secondary body) s

  unfoldable pub after_begin : Request B R → Next B R → State → Next B R × State
  unfolding after_primary
  after_begin q (done o) s = (done o, s)
  after_begin q ask_primary s = after_primary cfg q.opened q.now q.day_primary q.payload q.primary s
  after_begin q (ask_secondary body m) s = (ask_secondary body m, s)

  unfoldable pub chat : Request B R → State → Outcome R × State
  unfolding begin after_begin conclude
  chat q s =
      let (next, s₁) = begin cfg q.started q.day_started q.payload s in
      let (next', s₂) = after_begin q next s₁ in conclude q next' s₂
