-- ===== src/Egress/Pool/Health/Outage.antt =====
-- A run of probes of one bucket: the rounds of `_probe_loop` in proxy_opencode/egress/pool.py, with
-- no request between them. How many bad answers a bucket survives, and how often an outage is
-- reported.
use proxy_opencode.Prelude.{
  ℕ, suc, ◌+◌, ◌≤◌, ◌<◌, ◌≡◌, ◌↔◌, Bool, true, false, not, ◌||◌, List, [], ◌∷◌, ◌++◌, String,
  length, All, arith, if◌then◌else◌,
}
use proxy_opencode.Egress.Models.{EgressSpec, EgressState}
use proxy_opencode.Egress.Ledger.{Event}
use proxy_opencode.Egress.Pool.{Config}
use proxy_opencode.Egress.Pool.Health.{Answer, Probe, no_answer, answer, probe_ok, probe_one}
use proxy_opencode.Egress.Pool.Health.Laws.{probe_one-soft}

abbrev pub failed_events : List Event → ℕ
failed_events [] = 0
failed_events (Event.probe_failed _ _ ∷ es) = suc (failed_events es)
failed_events (_ ∷ es) = failed_events es

failed_events-append :
    (es fs : List Event) → failed_events (es ++ fs) ≡ failed_events es + failed_events fs
failed_events-append [] fs = omega arith
failed_events-append (Event.probe_failed _ _ ∷ es) fs = omega (arith, failed_events-append es fs)
failed_events-append (Event.cordon _ _ ∷ es) fs = failed_events-append es fs
failed_events-append (Event.egress_request _ _ _ _ _ ∷ es) fs = failed_events-append es fs
failed_events-append (Event.cordon_lifted _ _ _ ∷ es) fs = failed_events-append es fs
failed_events-append (Event.egress_cooldown _ _ _ _ ∷ es) fs = failed_events-append es fs
failed_events-append (Event.rotation_applied _ _ _ ∷ es) fs = failed_events-append es fs
failed_events-append (Event.egress_ip_observed _ _ _ ∷ es) fs = failed_events-append es fs
failed_events-append (Event.prefix_mismatch _ _ ∷ es) fs = failed_events-append es fs
failed_events-append (Event.egress_recovered _ ∷ es) fs = failed_events-append es fs
failed_events-append (Event.request_on_cordoned_bucket _ _ ∷ es) fs = failed_events-append es fs

-- A probe that did not find a working agent.
abbrev IsBad : ℕ × Probe → Type 0
IsBad (now, no_answer fault) = Unit
IsBad (now, answer a) = probe_ok a ≡ false

abbrev IsBadAnswer : ℕ × Answer → Type 0
IsBadAnswer (now, a) = probe_ok a ≡ false

-- Whether a failed probe would be reported.
abbrev alerts : EgressState → ℕ
alerts s = if s.healthy || not s.probe_alert_sent then 1 else 0

module _ (cfg : Config) (matches_prefix : EgressSpec → String → Bool) where
  pub probes : List (ℕ × Probe) → EgressState → EgressState × List Event
  probes [] s = (s, [])
  probes ((now, e) ∷ rest) s =
      let (s', es) = probe_one cfg matches_prefix now e s in
      let (t, fs) = probes rest s' in (t, es ++ fs)

  pub answers : List (ℕ × Answer) → EgressState → EgressState
  answers [] s = s
  answers ((now, a) ∷ rest) s = answers rest (probe_one cfg matches_prefix now (answer a) s).0

  -- one probe
  alerts-probe_one :
      (now : ℕ) (e : Probe) (s : EgressState)
      → IsBad (now, e)
      → let (t, es) = probe_one cfg matches_prefix now e s in failed_events es + alerts t ≤ alerts s
  unfolding probe_one
  alerts-probe_one now (no_answer fault) s bad = ground arith
  alerts-probe_one now (answer a) s bad = ground arith

  alerts-probes :
      (run : List (ℕ × Probe)) (s : EgressState)
      → All IsBad run
      → let (t, es) = probes run s in failed_events es + alerts t ≤ alerts s
  unfolding probes
  alerts-probes [] s bad = omega arith
  alerts-probes ((now, e) ∷ rest) s bad =
      let (s', es) = probe_one cfg matches_prefix now e s in
      let fs = (probes rest s').1 in
      omega (
        arith,
        failed_events-append es fs,
        alerts-probe_one now e s bad.0,
        alerts-probes rest s' bad.1,
      )

  -- However long an outage is, and whatever the bucket's state at its start, the event stream gets at
  -- most one report of it.
  pub outage_reported_once :
      (run : List (ℕ × Probe)) (s : EgressState)
      → All IsBad run
      → failed_events (probes run s).1 ≤ 1
  outage_reported_once run s bad = ground (arith, alerts-probes run s bad)

  answers_health :
      (run : List (ℕ × Answer)) (s : EgressState)
      → All IsBadAnswer run
      → (s.healthy ≡ true → s.probe_soft_fail_streak < cfg.probe_fail_tolerance)
      → ((answers run s).healthy ≡ true)
        ↔ ((s.healthy ≡ true) × (s.probe_soft_fail_streak + length run < cfg.probe_fail_tolerance))
  unfolding answers
  answers_health [] s bad low = (λ h. (h, omega (arith, low h)), λ h. h.0)
  answers_health ((now, a) ∷ rest) s bad low =
      let s' = (probe_one cfg matches_prefix now (answer a) s).0 in
      let (streak, soft) = probe_one-soft cfg matches_prefix now a s bad.0 in
      let step = answers_health rest s' bad.1 (λ h. omega (arith, streak, (soft.0 h).1)) in
      (
        λ h. let (up, room) = step.0 h in ((soft.0 up).0, omega (arith, streak, room)),
        λ h. step.1 (soft.1 (h.0, omega (arith, h.1)), omega (arith, streak, h.1)),
      )

  -- A healthy bucket with no soft failure yet survives exactly the bad answers below the tolerance:
  -- after `k` of them in a row it is healthy if `k` is smaller, and not healthy otherwise.
  pub tolerance_exact :
      (run : List (ℕ × Answer)) (s : EgressState)
      → All IsBadAnswer run
      → s.healthy ≡ true
      → s.probe_soft_fail_streak ≡ 0
      → 0 < cfg.probe_fail_tolerance
      → ((answers run s).healthy ≡ true) ↔ (length run < cfg.probe_fail_tolerance)
  tolerance_exact run s bad healthy none_yet pos =
      let sharp = answers_health run s bad (λ _. omega arith) in
      (λ h. omega (arith, (sharp.0 h).1), λ h. sharp.1 (healthy, omega arith))
