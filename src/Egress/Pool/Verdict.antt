-- ===== src/Egress/Pool/Verdict.antt =====
-- What a finished request means for its bucket: the cordons, the cooldown and `release` of
-- proxy_opencode/egress/pool.py, for one bucket. The proofs are in the modules below.
pub mod Laws
use proxy_opencode.Prelude.{
  ℕ, ◌+◌, ◌-◌, ◌*◌, min, max, String, Bool, true, false, not, ◌&&◌, ◌||◌, Option, none, some, List,
  [], ◌∷◌, ltb, leb, str_eq, if◌then◌else◌,
}
use proxy_opencode.Egress.Models.{
  CordonReason, no_reason, free_quota_soft, free_quota_exhausted, free_tier_rejected, EgressState,
  cordoned, seconds, hard_quota_retry_after,
}
use proxy_opencode.Egress.Ledger.{Event}
use proxy_opencode.Egress.Pool.{Config}

-- The verdict that a request's holder hands to `release`.
pub record Outcome : Type 0 where
  pub ok : Bool
  pub kind : String
  pub retry_after : Option ℕ

-- The readings of the clocks during one `release`: its own, that of `_enter_cordon`, and
-- `seconds_to_window_reset()`.
pub record Readings : Type 0 where
  pub now : ℕ
  pub now_mono : ℕ
  pub window_s : ℕ

-- `a.split(" (", 1)[0] == b.split(" (", 1)[0]` on the texts of two reasons.
unfoldable pub same_core : CordonReason → CordonReason → Bool
same_core no_reason no_reason = true
same_core free_quota_soft free_quota_soft = true
same_core free_quota_exhausted free_quota_exhausted = true
same_core free_tier_rejected free_tier_rejected = true
same_core _ _ = false

unfoldable pub enter_cordon : ℕ → EgressState → ℕ → CordonReason → EgressState × List Event
unfolding cordoned same_core
enter_cordon now_mono s until reason =
    let live = cordoned s now_mono in
    let already = live && same_core s.cordon_reason reason in
    if already || (live && leb until s.cordoned_until)
    then (if not already
        then (s, [])
        else (record s { cordoned_until = max s.cordoned_until until }, []))
    else (
      record s { cordoned_until = until; cordon_reason = reason },
      Event.cordon s.spec.name reason ∷ [],
    )

unfoldable pub enter_cooldown : Config → EgressState → ℕ → String → EgressState × List Event
enter_cooldown cfg s now kind =
    let streak = max 1 s.failures in
    let span = min (cfg.cooldown_s * streak) cfg.cooldown_max_s in
    (
      record s { cooldown_until = max s.cooldown_until (now + span) },
      Event.egress_cooldown s.spec.name kind streak span ∷ [],
    )

-- `_SUCCESS_LIFTABLE_CORDON_REASONS`
unfoldable pub success_liftable : CordonReason → Bool
success_liftable no_reason = false
success_liftable _ = true

unfoldable pub lift_cordon_on_success : EgressState → ℕ → EgressState × List Event
unfolding cordoned success_liftable
lift_cordon_on_success s now =
    if not (cordoned s now)
    then (s, [])
    else if not (success_liftable s.cordon_reason)
    then (s, [])
    else (
      record s { cordoned_until = 0; cordon_reason = no_reason },
      Event.cordon_lifted s.spec.name s.cordon_reason none ∷ [],
    )

-- `soft_s`: a Retry-After that is a short throttle.
unfoldable pub soft_throttle : Option ℕ → Option ℕ
soft_throttle none = none
soft_throttle (some after) = if leb after hard_quota_retry_after then some after else none

-- `capped`: how long a hard 429 benches the bucket.
unfoldable pub quota_bench : Config → ℕ → ℕ
quota_bench cfg window_s =
    if ltb 0 cfg.quota_cordon_max_s then min window_s cfg.quota_cordon_max_s else window_s

-- The branch `kind == "http_429"`.
unfoldable pub on_429 : Config → Readings → Option ℕ → EgressState → EgressState × List Event
unfolding enter_cordon quota_bench
on_429 cfg c (some soft_s) s =
    enter_cordon c.now_mono s (c.now + max (seconds 30) soft_s) free_quota_soft
on_429 cfg c none s =
    enter_cordon c.now_mono s (c.now + quota_bench cfg c.window_s) free_quota_exhausted

unfoldable pub on_success : EgressState → ℕ → EgressState × List Event
unfolding lift_cordon_on_success
on_success s now =
    lift_cordon_on_success (record s { failures = 0; last_error = ""; cooldown_until = 0 }) now

-- `kind or "error"`
unfoldable pub error_name : String → String
error_name kind = if str_eq kind "" then "error" else kind

unfoldable pub on_failure : Config → Readings → Outcome → EgressState → EgressState × List Event
unfolding soft_throttle on_429 enter_cooldown error_name
on_failure cfg c o s =
    let s' = record s {
      failures = s.failures + 1;
      last_error = error_name o.kind;
      last_error_at = c.now;
    } in
    if str_eq o.kind "http_429"
    then on_429 cfg c (soft_throttle o.retry_after) s'
    else if str_eq o.kind "free_tier_rejected"
    then enter_cordon c.now_mono s' (c.now + cfg.cordon_s) free_tier_rejected
    else enter_cooldown cfg s' c.now o.kind

-- `kind if kind else ("ok" if ok else "error")`
unfoldable pub shown_kind : Outcome → String
shown_kind o = if str_eq o.kind "" then (if o.ok then "ok" else "error") else o.kind

-- `release` of a lease that was not released before, without the observer's call.
unfoldable pub settle : Config → Readings → Outcome → EgressState → EgressState × List Event
unfolding on_success on_failure shown_kind
settle cfg c o s =
    let s' = record s { inflight = s.inflight - 1; total = s.total + 1 } in
    let request = Event.egress_request s.spec.name s.egress_ip o.ok (shown_kind o) o.retry_after in
    let (t, events) = if o.ok then on_success s' c.now else on_failure cfg c o s' in
    (t, request ∷ events)
