-- ===== src/Failover/Budget.antt =====
-- The daily budget of the backup: what requests one after the other draw from it.
use mathlib.Core.Path.{subst, sym, ◌∙◌}
use proxy_opencode.Prelude.{
  ℕ, suc, ◌+◌, ◌-◌, ◌≤◌, ◌<◌, ◌≡◌, inl, inr, refl, Bool, true, false, List, [], ◌∷◌, String, str_eq,
  arith, if◌then◌else◌, leb, ltb, Bool-cases, All, eq_iff, eq_refl,
}
use proxy_opencode.Failover.{
  Settings, State, Reason, fault, upstream_http, relay, answer, invalid_request, other,
  both_unreachable, Outcome, returned, raised, Payload, Marker, Next, done, ask_primary,
  ask_secondary, passthrough, begin, fail_over, primary_ok, after_primary, after_secondary,
  budget_blocked, note_backup_served, Request, chat, conclude, after_begin,
}

-- How many backup answers the day may still have.
abbrev pub room : Settings → String → State → ℕ
room cfg day s = if str_eq day s.budget_day then cfg.daily_max - s.budget_used else cfg.daily_max

abbrev is_answer : {R : Type 0} → Outcome R → Bool
is_answer (returned (answer r)) = true
is_answer _ = false

abbrev served_by : {B R : Type 0} → Request B R → Next B R → ℕ
served_by q (ask_secondary body m) = if is_answer (q.secondary body) then 1 else 0
served_by q _ = 0

module _ {B R : Type 0} (cfg : Settings) (day : String) where
  -- All the readings of the date are the given day.
  abbrev pub IsOn : Request B R → Type 0
  IsOn q = (q.day_started ≡ day) × (q.day_primary ≡ day) × (q.day_secondary ≡ day)

  -- 1 if the request was answered by the backup, else 0.
  unfoldable pub served : Request B R → State → ℕ
  served q s =
      let (next, s₁) = begin cfg q.started q.day_started q.payload s in
      served_by q (after_begin cfg q next s₁).0

budget_blocked-room :
    (cfg : Settings) (day : String) (s : State)
    → 0 < cfg.daily_max
    → let (blocked, t) = budget_blocked cfg day s in
      (room cfg day t ≡ room cfg day s) × (blocked ≡ false → 0 < room cfg day s)
unfolding budget_blocked
budget_blocked-room cfg day s pos = (
  ground (arith, eq_iff day s.budget_day, eq_refl day),
  λ h. ground (arith, eq_iff day s.budget_day),
)

-- A charge takes one of the places that are left.
note_backup_served-room :
    (cfg : Settings) (day : String) (s : State)
    → 0 < cfg.daily_max
    → 0 < room cfg day s
    → suc (room cfg day (note_backup_served cfg day s)) ≡ room cfg day s
unfolding note_backup_served
note_backup_served-room cfg day s pos free = ground (arith, eq_iff day s.budget_day, eq_refl day)

primary_ok-room :
    (cfg : Settings) (day : String) (s : State) → room cfg day (primary_ok cfg s) ≡ room cfg day s
unfolding primary_ok
primary_ok-room cfg day s = ground arith

after_secondary-room :
    {R : Type 0} (cfg : Settings) (day : String) (m : Marker) (o : Outcome R) (t : State)
    → 0 < cfg.daily_max
    → 0 < room cfg day t
    → (if is_answer o then 1 else 0) + room cfg day (after_secondary cfg day m o t).1
      ≡ room cfg day t
unfolding after_secondary
after_secondary-room cfg day m (raised e) t pos free = omega arith
after_secondary-room cfg day m (returned (relay status content)) t pos free = omega arith
after_secondary-room cfg day m (returned (answer r)) t pos free =
    omega (arith, note_backup_served-room cfg day t pos free)

module _ {B R : Type 0} (cfg : Settings) (day : String) where
  -- A request that goes on to the backup finds room, and no step takes any before that.
  abbrev Admits : State → Next B R → State → Type 0
  Admits s (done o) t = room cfg day t ≡ room cfg day s
  Admits s ask_primary t = room cfg day t ≡ room cfg day s
  Admits s (ask_secondary body m) t = (0 < room cfg day s) × (room cfg day t ≡ room cfg day s)

  begin-Admits :
      (q : Request B R) (s : State)
      → 0 < cfg.daily_max
      → let (next, t) = begin cfg q.started day q.payload s in Admits s next t
  unfolding begin
  begin-Admits q s pos =
      let (kept, free) = budget_blocked-room cfg day s pos in
      elim (Bool-cases (ltb q.started s.fallback_until)) [
        | inr e ↦ rw e refl
        | inl e ↦ elim (Bool-cases (budget_blocked cfg day s).0) [
          | inl b ↦ rw (e, b) kept
          | inr b ↦ rw (e, b) (free b, kept)
        ]
      ]

  fail_over-Admits :
      (opened now : ℕ) (payload : Payload B) (why : Reason) (o : Outcome R) (s : State)
      → 0 < cfg.daily_max
      → let (next, t) = fail_over cfg opened now day payload why o s in Admits s next t
  unfolding fail_over
  fail_over-Admits opened now payload why o s pos =
      let (kept, free) = budget_blocked-room cfg day s pos in
      elim (Bool-cases (budget_blocked cfg day s).0) [
        | inl b ↦ rw b kept
        | inr b ↦ rw b (free b, kept)
      ]

  after_primary-Admits :
      (opened now : ℕ) (payload : Payload B) (o : Outcome R) (s : State)
      → 0 < cfg.daily_max
      → let (next, t) = after_primary cfg opened now day payload o s in Admits s next t
  unfolding after_primary
  after_primary-Admits opened now payload (raised (invalid_request e)) s pos = refl
  after_primary-Admits opened now payload (raised (other e)) s pos =
      fail_over-Admits opened now payload (fault e) (raised (other e)) s pos
  after_primary-Admits opened now payload (raised both_unreachable) s pos =
      fail_over-Admits opened now payload (fault "ConnectionError") (raised both_unreachable) s pos
  after_primary-Admits opened now payload (returned (relay status content)) s pos =
      elim (Bool-cases (leb 400 status)) [
        | inr e ↦ rw e (primary_ok-room cfg day s)
        | inl e ↦ elim (Bool-cases (passthrough status)) [
          | inl f ↦ rw (e, f) refl
          | inr f ↦
              rw (e, f)
                (fail_over-Admits opened now payload (upstream_http status)
                  (returned (relay status content)) s pos)
        ]
      ]
  after_primary-Admits opened now payload (returned (answer r)) s pos = primary_ok-room cfg day s

  -- One request takes exactly the room for the answer that the backup gave.
  conclude-room :
      (q : Request B R) (next : Next B R) (s t : State)
      → q.day_secondary ≡ day
      → 0 < cfg.daily_max
      → Admits s next t
      → served_by q next + room cfg day (conclude cfg q next t).1 ≡ room cfg day s
  unfolding conclude
  conclude-room q (done o) s t on pos h = omega (arith, h)
  conclude-room q ask_primary s t on pos h = omega (arith, h)
  conclude-room q (ask_secondary body m) s t on pos h =
      subst
        (λ d.
          (if is_answer (q.secondary body) then 1 else 0)
            + room cfg day (after_secondary cfg d m (q.secondary body) t).1
          ≡ room cfg day s)
        (sym on)
        (after_secondary-room cfg day m (q.secondary body) t pos (omega (arith, h.0, h.1)) ∙ h.1)

  Admits-trans :
      (s t u : State) (next : Next B R)
      → room cfg day t ≡ room cfg day s
      → Admits t next u
      → Admits s next u
  Admits-trans s t u (done o) e h = h ∙ e
  Admits-trans s t u ask_primary e h = h ∙ e
  Admits-trans s t u (ask_secondary body m) e h = (omega (arith, h.0, e), h.1 ∙ e)

  after_begin-Admits :
      (q : Request B R) (next : Next B R) (s t : State)
      → q.day_primary ≡ day
      → 0 < cfg.daily_max
      → Admits s next t
      → let (next', u) = after_begin cfg q next t in Admits s next' u
  unfolding after_begin
  after_begin-Admits q (done o) s t on pos h = h
  after_begin-Admits q ask_primary s t on pos h =
      subst
        (λ d.
          let (next', u) = after_primary cfg q.opened q.now d q.payload q.primary t in
          Admits s next' u)
        (sym on)
        (Admits-trans s t _ _ h (after_primary-Admits q.opened q.now q.payload q.primary t pos))
  after_begin-Admits q (ask_secondary body m) s t on pos h = h

  chat-room :
      (q : Request B R) (s : State)
      → IsOn cfg day q
      → 0 < cfg.daily_max
      → served cfg day q s + room cfg day (chat cfg q s).1 ≡ room cfg day s
  unfolding served chat
  chat-room q s on pos =
      let started =
        subst (λ d. let (next, t) = begin cfg q.started d q.payload s in Admits s next t) (sym on.0)
          (begin-Admits q s pos) in
      let (next, t) = begin cfg q.started q.day_started q.payload s in
      let (next', u) = after_begin cfg q next t in
      conclude-room q next' s u on.2 pos (after_begin-Admits q next s t on.1 pos started)

  -- The answers that the backup gave to a list of requests, one after the other.
  unfoldable pub served_all : List (Request B R) → State → ℕ
  served_all [] s = 0
  served_all (q ∷ qs) s = served cfg day q s + served_all qs (chat cfg q s).1

  served_all-room :
      (qs : List (Request B R)) (s : State)
      → All (IsOn cfg day) qs
      → 0 < cfg.daily_max
      → served_all qs s ≤ room cfg day s
  unfolding served_all
  served_all-room [] s on pos = omega arith
  served_all-room (q ∷ qs) s on pos =
      omega (arith, chat-room q s on.0 pos, served_all-room qs (chat cfg q s).1 on.1 pos)

  -- Requests that come one after the other on one day get at most `daily_max` answers from the
  -- backup, whatever the primary and the backup do, if a daily maximum is set.
  pub budget_holds :
      (qs : List (Request B R)) (s : State)
      → All (IsOn cfg day) qs
      → 0 < cfg.daily_max
      → served_all qs s ≤ cfg.daily_max
  budget_holds qs s on pos = ground (arith, served_all-room qs s on pos)
