-- ===== src/Egress/Pool/Health/Laws.antt =====
-- What one probe, or one finished rotation, makes of its bucket.
use proxy_opencode.Prelude.{ℕ, ◌+◌, ◌<◌, ◌≡◌, ◌⊎◌, ◌↔◌, Bool, true, false, ◌&&◌, String, arith}
use proxy_opencode.Egress.Models.{EgressSpec, EgressState}
use proxy_opencode.Egress.Pool.{Config}
use proxy_opencode.Egress.Pool.Health.{
  Answer, Probe, no_answer, answer, ip_scoped, ip_changed, probe_ok, probe_one,
}

-- A good answer that shows another address.
abbrev pub shows_new_ip : Probe → EgressState → Bool
shows_new_ip (no_answer fault) s = false
shows_new_ip (answer a) s = probe_ok a && ip_changed s a

module _ (cfg : Config) (matches_prefix : EgressSpec → String → Bool) (now : ℕ) where
  -- Requests in flight, the counts of requests and the rotation mark are none of a probe's business.
  pub probe_one-frame :
      (e : Probe) (s : EgressState)
      → let t = (probe_one cfg matches_prefix now e s).0 in
        (t.inflight ≡ s.inflight)
        × (t.total ≡ s.total)
        × (t.rotating ≡ s.rotating)
        × (t.spec ≡ s.spec)
        × (t.cooldown_until ≡ s.cooldown_until)
  unfolding probe_one
  probe_one-frame (no_answer fault) s = ground arith
  probe_one-frame (answer a) s = ground arith

  -- A probe never benches a bucket: it leaves the cordon's deadline, or clears the cordon. It clears
  -- it only where the answer is good, shows another address, and the cordon was a verdict on the old
  -- address (the daily quota or the free-tier gate).
  pub probe_one-cordon :
      (e : Probe) (s : EgressState)
      → let t = (probe_one cfg matches_prefix now e s).0 in
        (t.cordoned_until ≡ s.cordoned_until)
        ⊎ ((t.cordoned_until ≡ 0)
            × (t.failures ≡ 0)
            × (ip_scoped s.cordon_reason ≡ true)
            × (shows_new_ip e s ≡ true))
  unfolding probe_one
  probe_one-cordon (no_answer fault) s = ground arith
  probe_one-cordon (answer a) s = ground arith

  -- Silence makes the bucket unhealthy at once.
  pub probe_one-no_answer :
      (fault : String) (s : EgressState)
      → (probe_one cfg matches_prefix now (no_answer fault) s).0.healthy ≡ false
  unfolding probe_one
  probe_one-no_answer fault s = ground arith

  -- A good answer makes the bucket healthy and ends its streak of soft failures.
  pub probe_one-good :
      (a : Answer) (s : EgressState)
      → probe_ok a ≡ true
      → let t = (probe_one cfg matches_prefix now (answer a) s).0 in
        (t.healthy ≡ true) × (t.probe_soft_fail_streak ≡ 0)
  unfolding probe_one
  probe_one-good a s good = ground arith

  -- An answer that is not good counts one more soft failure, and takes the bucket out of its health
  -- only when the streak has reached the tolerance.
  pub probe_one-soft :
      (a : Answer) (s : EgressState)
      → probe_ok a ≡ false
      → let t = (probe_one cfg matches_prefix now (answer a) s).0 in
        (t.probe_soft_fail_streak ≡ s.probe_soft_fail_streak + 1)
        × ((t.healthy ≡ true)
            ↔ ((s.healthy ≡ true) × (s.probe_soft_fail_streak + 1 < cfg.probe_fail_tolerance)))
  unfolding probe_one
  probe_one-soft a s bad = (ground arith, (λ h. (ground arith, ground arith), λ h. ground arith))
