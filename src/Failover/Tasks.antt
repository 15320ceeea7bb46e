-- ===== src/Failover/Tasks.antt =====
-- Requests that interleave at their awaits: the breaker of the failover wrapper over any sequence of
-- the pieces of code between two awaits, whichever requests they belong to.
use mathlib.Core.Path.{sym, ◌∙◌}
use proxy_opencode.Prelude.{
  ℕ, zero, suc, ◌+◌, ◌≤◌, ◌<◌, ◌≡◌, ◌≢◌, ◌↔◌, inl, inr, refl, ap, true, false, List, [], ◌∷◌,
  String, arith, leb, Bool-cases,
}
use proxy_opencode.Failover.{
  Settings, State, init, Reason, upstream_http, relay, answer, invalid_request, other,
  both_unreachable, Outcome, returned, raised, Payload, Marker, Next, ask_primary, begin, fail_over,
  primary_ok, after_primary, after_secondary,
}

primary_ok-closed :
    (cfg : Settings) (s : State) → s.fallback_until ≡ 0 → (primary_ok cfg s).fallback_until ≡ 0
unfolding primary_ok
primary_ok-closed cfg s closed = ground arith

after_secondary-closed :
    {R : Type 0} (cfg : Settings) (day : String) (m : Marker) (o : Outcome R) (s : State)
    → s.fallback_until ≡ 0
    → (after_secondary cfg day m o s).1.fallback_until ≡ 0
unfolding after_secondary
after_secondary-closed cfg day m (raised e) s closed = closed
after_secondary-closed cfg day m (returned (relay status content)) s closed = refl
after_secondary-closed cfg day m (returned (answer r)) s closed = ground arith

-- A success that ends the streak closes an open breaker, another one leaves it and counts.
primary_ok-last :
    (cfg : Settings) (s : State)
    → s.fallback_until ≢ 0
    → leb cfg.recover_after (s.primary_streak + 1) ≡ true
    → (primary_ok cfg s).fallback_until ≡ 0
unfolding primary_ok
primary_ok-last cfg s opened e = ground arith

primary_ok-counts :
    (cfg : Settings) (s : State)
    → leb cfg.recover_after (s.primary_streak + 1) ≡ false
    → ((primary_ok cfg s).fallback_until ≡ s.fallback_until)
      × ((primary_ok cfg s).primary_streak ≡ s.primary_streak + 1)
unfolding primary_ok
primary_ok-counts cfg s e = ground arith

-- One piece of code: a request begins, or its primary or its backup has returned.
pub data Turn (B R : Type 0) : Type 0 where
  begins : ℕ → String → Payload B → Turn B R
  primary_returns : ℕ → ℕ → String → Payload B → Outcome R → Turn B R
  backup_returns : String → Marker → Outcome R → Turn B R

module _ {B R : Type 0} (cfg : Settings) where
  pub turn : Turn B R → State → State
  turn (begins now day payload) s = (begin {R = R} cfg now day payload s).1
  turn (primary_returns opened now day payload o) s =
      (after_primary cfg opened now day payload o s).1
  turn (backup_returns day m o) s = (after_secondary cfg day m o s).1

  pub turns : List (Turn B R) → State → State
  turns [] s = s
  turns (t ∷ ts) s = turns ts (turn t s)

  begin-closed :
      (now : ℕ) (day : String) (payload : Payload B) (s : State)
      → s.fallback_until ≡ 0
      → begin {R = R} cfg now day payload s ≡ (ask_primary, s)
  unfolding begin
  begin-closed now day payload s closed = ground arith

  fail_over-closed :
      (opened now : ℕ) (day : String) (payload : Payload B) (why : Reason) (o : Outcome R)
      (s : State)
      → cfg.request_scoped ≡ true
      → s.fallback_until ≡ 0
      → (fail_over cfg opened now day payload why o s).1.fallback_until ≡ 0
  unfolding fail_over
  fail_over-closed opened now day payload why o s scoped closed = ground arith

  after_primary-closed :
      (opened now : ℕ) (day : String) (payload : Payload B) (o : Outcome R) (s : State)
      → cfg.request_scoped ≡ true
      → s.fallback_until ≡ 0
      → (after_primary cfg opened now day payload o s).1.fallback_until ≡ 0
  unfolding after_primary
  after_primary-closed opened now day payload (raised (invalid_request e)) s scoped closed = closed
  after_primary-closed opened now day payload (raised (other e)) s scoped closed =
      fail_over-closed opened now day payload _ _ s scoped closed
  after_primary-closed opened now day payload (raised both_unreachable) s scoped closed =
      fail_over-closed opened now day payload _ _ s scoped closed
  after_primary-closed opened now day payload (returned (relay status content)) s scoped closed =
      ground (
        arith,
        fail_over-closed opened now day payload (upstream_http status)
            (returned (relay status content)) s,
        primary_ok-closed cfg s,
      )
  after_primary-closed opened now day payload (returned (answer r)) s scoped closed =
      primary_ok-closed cfg s closed

  turn-closed :
      (t : Turn B R) (s : State)
      → cfg.request_scoped ≡ true
      → s.fallback_until ≡ 0
      → (turn t s).fallback_until ≡ 0
  unfolding turn
  turn-closed (begins now day payload) s scoped closed =
      ap (λ (r : Next B R × State). r.1.fallback_until) (begin-closed now day payload s closed)
      ∙ closed
  turn-closed (primary_returns opened now day payload o) s scoped closed =
      after_primary-closed opened now day payload o s scoped closed
  turn-closed (backup_returns day m o) s scoped closed = after_secondary-closed cfg day m o s closed

  turns-closed :
      (ts : List (Turn B R)) (s : State)
      → cfg.request_scoped ≡ true
      → s.fallback_until ≡ 0
      → (turns ts s).fallback_until ≡ 0
  unfolding turns
  turns-closed [] s scoped closed = closed
  turns-closed (t ∷ ts) s scoped closed =
      turns-closed ts (turn t s) scoped (turn-closed t s scoped closed)

  -- With request-scoped failover, whatever requests came before and however they were interleaved,
  -- a new request asks the primary.
  pub scoped_asks_primary :
      (ts : List (Turn B R)) (now : ℕ) (day : String) (payload : Payload B)
      → cfg.request_scoped ≡ true
      → (begin {R = R} cfg now day payload (turns ts init)).0 ≡ ask_primary
  scoped_asks_primary ts now day payload scoped =
      ap (λ (r : Next B R × State). r.0)
        (begin-closed now day payload (turns ts init) (turns-closed ts init scoped refl))

-- The primary succeeds `k` times in a row.
pub successes : Settings → ℕ → State → State
successes cfg zero s = s
successes cfg (suc k) s = successes cfg k (primary_ok cfg s)

successes-closed :
    (cfg : Settings) (k : ℕ) (s : State)
    → s.fallback_until ≡ 0
    → (successes cfg k s).fallback_until ≡ 0
unfolding successes
successes-closed cfg zero s h = h
successes-closed cfg (suc k) s h =
    successes-closed cfg k (primary_ok cfg s) (primary_ok-closed cfg s h)

successes-streak :
    (cfg : Settings) (k : ℕ) (s : State)
    → s.fallback_until ≢ 0
    → s.primary_streak < cfg.recover_after
    → ((successes cfg k s).fallback_until ≡ 0) ↔ (cfg.recover_after ≤ s.primary_streak + k)
unfolding successes
successes-streak cfg zero s opened low = (λ e. absurd (opened e), λ h. absurd (omega arith))
successes-streak cfg (suc k) s opened low =
    elim (Bool-cases (leb cfg.recover_after (s.primary_streak + 1))) [
      | inl e ↦
          let full : cfg.recover_after ≤ s.primary_streak + suc k = ground arith in
          (λ _. full, λ _. successes-closed cfg k _ (primary_ok-last cfg s opened e))
      | inr e ↦
          let (same, more) = primary_ok-counts cfg s e in
          let room : (primary_ok cfg s).primary_streak < cfg.recover_after = ground (arith, more) in
          let ih = successes-streak cfg k (primary_ok cfg s) (λ z. opened (sym same ∙ z)) room in
          (λ z. omega (arith, ih.0 z, more), λ h. ih.1 (omega (arith, more)))
    ]

-- An open breaker closes with the `recover_after`-th success of the primary in a row, and not
-- before.
pub recovery_exact :
    (cfg : Settings) (k : ℕ) (s : State)
    → s.fallback_until ≢ 0
    → s.primary_streak ≡ 0
    → 0 < cfg.recover_after
    → ((successes cfg k s).fallback_until ≡ 0) ↔ (cfg.recover_after ≤ k)
recovery_exact cfg k s opened none_yet pos =
    let sharp = successes-streak cfg k s opened (omega arith) in
    (λ e. omega (arith, sharp.0 e), λ h. sharp.1 (omega arith))
