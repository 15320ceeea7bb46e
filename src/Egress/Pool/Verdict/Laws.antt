-- ===== src/Egress/Pool/Verdict/Laws.antt =====
-- What one verdict does to its bucket, on each branch of `release`, and when it is reported.
use proxy_opencode.Prelude.{
  ℕ, suc, ◌+◌, ◌≤◌, ◌<◌, max, ◌≡◌, ◌≢◌, ◌⊎◌, ◌↔◌, true, false, none, some, List, [], ◌∷◌, str_eq,
  arith,
}
use proxy_opencode.Egress.Models.{
  free_quota_soft, free_quota_exhausted, EgressState, cordoned, seconds, hard_quota_retry_after,
}
use proxy_opencode.Egress.Ledger.{Event}
use proxy_opencode.Egress.Pool.{Config}
use proxy_opencode.Egress.Pool.Verdict.{Outcome, Readings, quota_bench, settle}

-- A verdict that arrives while the bucket is cordoned never shortens the cordon, unless it is the
-- verdict of a request that succeeded.
pub settle-never_shortens :
    (cfg : Config) (c : Readings) (o : Outcome) (s : EgressState)
    → o.ok ≡ false
    → cordoned s c.now_mono ≡ true
    → s.cordoned_until ≤ (settle cfg c o s).0.cordoned_until
unfolding settle cordoned
settle-never_shortens cfg c o s failed live = ground arith

-- While the bucket is cordoned, a failed request changes the reason of the cordon only together
-- with a later deadline.
pub settle-relabels_later :
    (cfg : Config) (c : Readings) (o : Outcome) (s : EgressState)
    → o.ok ≡ false
    → cordoned s c.now_mono ≡ true
    → (settle cfg c o s).0.cordon_reason ≢ s.cordon_reason
    → s.cordoned_until < (settle cfg c o s).0.cordoned_until
unfolding settle cordoned
settle-relabels_later cfg c o s failed live changed = ground arith

abbrev pub cordon_events : List Event → ℕ
cordon_events [] = 0
cordon_events (Event.cordon _ _ ∷ es) = suc (cordon_events es)
cordon_events (_ ∷ es) = cordon_events es

-- A request that failed with a 429 or a free-tier rejection puts at most one cordon on the event
-- stream, and puts one exactly when the cordon is a fresh one: the bucket was not cordoned, or it
-- got another reason.
pub settle-reports_transitions :
    (cfg : Config) (c : Readings) (o : Outcome) (s : EgressState)
    → o.ok ≡ false
    → (str_eq o.kind "http_429" ≡ true) ⊎ (str_eq o.kind "free_tier_rejected" ≡ true)
    → let (t, events) = settle cfg c o s in
      (cordon_events events ≤ 1)
      × ((cordon_events events ≡ 1)
          ↔ ((cordoned s c.now_mono ≡ false) ⊎ (t.cordon_reason ≢ s.cordon_reason)))
unfolding settle cordoned
settle-reports_transitions cfg c o s failed verdict =
    (ground arith, (λ e. ground arith, λ e. ground arith))

-- A request that failed with a hard 429 (no Retry-After, or one of more than an hour) on a bucket
-- that was not cordoned benches it for the rest of the quota window, or for
-- `quota_cordon_max_s` if that is set and shorter; one with a short Retry-After benches it for that
-- time, and at least for 30 s.
pub settle-429 :
    (cfg : Config) (c : Readings) (o : Outcome) (s : EgressState)
    → o.ok ≡ false
    → str_eq o.kind "http_429" ≡ true
    → cordoned s c.now_mono ≡ false
    → let t = (settle cfg c o s).0 in
      (o.retry_after ≡ none
        → (t.cordon_reason ≡ free_quota_exhausted)
          × (t.cordoned_until ≡ c.now + quota_bench cfg c.window_s))
      × ((after : ℕ)
          → o.retry_after ≡ some after
          → hard_quota_retry_after < after
          → (t.cordon_reason ≡ free_quota_exhausted)
            × (t.cordoned_until ≡ c.now + quota_bench cfg c.window_s))
      × ((after : ℕ)
          → o.retry_after ≡ some after
          → after ≤ hard_quota_retry_after
          → (t.cordon_reason ≡ free_quota_soft)
            × (t.cordoned_until ≡ c.now + max (seconds 30) after))
unfolding settle cordoned
settle-429 cfg c o s failed kind free =
    (λ e. ground arith, λ after e h. ground arith, λ after e h. ground arith)
