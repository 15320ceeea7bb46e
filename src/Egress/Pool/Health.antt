-- ===== src/Egress/Pool/Health.antt =====
-- Probes and rotations of proxy_opencode/egress/pool.py, for one bucket: what an answer of the
-- agent, or its silence, makes of the bucket's health and cordon. What the agent answers is an
-- argument, and so is `matches_prefix`, which only decides what is reported.
pub mod Laws
pub mod Outage
use proxy_opencode.Prelude.{
  ℕ, ◌+◌, String, Bool, true, false, not, ◌&&◌, ◌||◌, Option, none, some, List, [], ◌∷◌, ◌++◌, ltb,
  leb, ◌==◌, str_eq, if◌then◌else◌,
}
use proxy_opencode.Egress.Models.{
  CordonReason, no_reason, free_quota_soft, free_quota_exhausted, free_tier_rejected, EgressSpec,
  EgressState, cordoned,
}
use proxy_opencode.Egress.Ledger.{
  ProbeFault, unreachable, bad_status, egress_probe_not_ok, not_ready, Event,
}
use proxy_opencode.Egress.Pool.{Config}

-- The answer to `GET /healthz`: the status, and the fields of its JSON object (of an empty one if
-- the answer is no object or its status is not 200). A text that is empty is no address.
pub record Answer : Type 0 where
  pub status : ℕ
  pub ready : Bool
  pub egress_probe_failed : Bool
  pub egress_ip : Option String
  pub egress_ip_at : String

-- What one probe met.
pub data Probe : Type 0 where
  no_answer : String → Probe
  answer : Answer → Probe

-- `_mark_probe_failed`; its argument `was_healthy` is the state's own where the caller gives none.
unfoldable pub mark_probe_failed : EgressState → ℕ → ProbeFault → Bool → EgressState × List Event
mark_probe_failed s now fault was_healthy =
    let s' = record s { last_probe_at = now; last_probe_ok = some false; healthy = false } in
    if was_healthy || not s.probe_alert_sent
    then (record s' { probe_alert_sent = true }, Event.probe_failed s.spec.name fault ∷ [])
    else (s', [])

-- `_probe_soft_failure`
unfoldable pub probe_soft_failure :
    Config → EgressState → ℕ → ProbeFault → Bool → EgressState × List Event
unfolding mark_probe_failed
probe_soft_failure cfg s now fault was_healthy =
    let s' = record s { probe_soft_fail_streak = s.probe_soft_fail_streak + 1 } in
    if ltb s'.probe_soft_fail_streak cfg.probe_fail_tolerance
    then (s', [])
    else mark_probe_failed s' now fault was_healthy

-- `_probe_fail_reason`
unfoldable pub probe_fail_reason : Answer → ProbeFault
probe_fail_reason a =
    if not (a.status == 200)
    then bad_status a.status
    else if a.egress_probe_failed
    then egress_probe_not_ok
    else not_ready

-- `_IP_SCOPED_CORDON_REASONS`
unfoldable pub ip_scoped : CordonReason → Bool
ip_scoped free_quota_exhausted = true
ip_scoped free_tier_rejected = true
ip_scoped _ = false

-- `_lift_ip_scoped_cordon`
unfoldable pub lift_ip_scoped_cordon : EgressState → String → Bool → EgressState × List Event
unfolding ip_scoped
lift_ip_scoped_cordon s new_ip in_prefix = if not (ip_scoped s.cordon_reason) then (s, []) else (
  record s { cordoned_until = 0; cordon_reason = no_reason; failures = 0 },
  Event.cordon_lifted s.spec.name s.cordon_reason (some new_ip)
      ∷ (if in_prefix then [] else Event.prefix_mismatch s.spec.name new_ip ∷ []),
)

-- Whether the answer shows an address, and another than the one that is known.
unfoldable pub ip_changed : EgressState → Answer → Bool
ip_changed s a = elim a.egress_ip [
  | none ↦ false
  | some ip ↦ elim s.egress_ip [ none ↦ true | some old ↦ not (str_eq ip old) ]
]

unfoldable pub probe_ok : Answer → Bool
probe_ok a = a.ready && (a.status == 200) && not a.egress_probe_failed

-- The address that the answer shows is taken over, and a change of it is reported.
unfoldable pub observe_ip : EgressState → Answer → EgressState × List Event
unfolding ip_changed
observe_ip s a = elim a.egress_ip [
  | none ↦ (s, [])
  | some ip ↦ (
    record s { egress_ip = some ip; egress_ip_at = some a.egress_ip_at },
    if ip_changed s a then Event.egress_ip_observed s.spec.name s.egress_ip ip ∷ [] else [],
  )
]

-- The end of `_probe_one` for a good answer from an agent whose bucket was not healthy.
unfoldable pub recover : EgressState → ℕ → EgressState × List Event
unfolding cordoned
recover s now = (
  if cordoned s now then s else record s { failures = 0; cordon_reason = no_reason },
  Event.egress_recovered s.spec.name ∷ [],
)

unfoldable pub lift_if_changed :
    Bool → Option String → (String → Bool) → EgressState → EgressState × List Event
unfolding lift_ip_scoped_cordon
lift_if_changed changed none in_prefix s = (s, [])
lift_if_changed changed (some ip) in_prefix s =
    if changed then lift_ip_scoped_cordon s ip (in_prefix ip) else (s, [])

-- `_probe_one`, with the clock's reading after the answer.
unfoldable pub probe_one :
    Config → (EgressSpec → String → Bool) → ℕ → Probe → EgressState → EgressState × List Event
unfolding mark_probe_failed probe_soft_failure probe_fail_reason observe_ip probe_ok lift_if_changed
    recover
probe_one cfg matches_prefix now (no_answer fault) s =
    mark_probe_failed s now (unreachable fault) s.healthy
probe_one cfg matches_prefix now (answer a) s =
    let ok = probe_ok a in
    let changed = ip_changed s a in
    let (s₁, seen) = observe_ip (record s { last_probe_at = now; last_probe_ok = some ok }) a in
    let (s₂, soft) = probe_soft_failure cfg s₁ now (probe_fail_reason a) s.healthy in
    let s₃ = record s₁ { healthy = true; probe_soft_fail_streak = 0; probe_alert_sent = false } in
    let (s₄, lifted) = lift_if_changed changed a.egress_ip (matches_prefix s.spec) s₃ in
    let (s₅, back) = recover s₄ now in
    if not ok
    then (s₂, seen ++ soft)
    else if s.healthy
    then (s₄, seen ++ lifted)
    else (s₅, seen ++ (lifted ++ back))

-- The change of `mark_rotating` to a bucket.
unfoldable pub set_rotating : Bool → EgressState → EgressState
set_rotating rotating s = record s { rotating = rotating }

-- `apply_rotation_success`, for the bucket that it found. An empty `ip_at` leaves the old one.
unfoldable pub rotation_success :
    ℕ → String → String → Option String → EgressState → EgressState × List Event
rotation_success now ip ip_at ip_from s = (
  record s {
    egress_ip = some ip;
    egress_ip_at = if str_eq ip_at "" then s.egress_ip_at else some ip_at;
    last_probe_ok = some true;
    last_probe_at = now;
    healthy = true;
    failures = 0;
    cordoned_until = 0;
    cordon_reason = no_reason;
    cooldown_until = 0;
  },
  Event.rotation_applied s.spec.name (elim ip_from [ none ↦ s.egress_ip | some from ↦ some from ])
        ip
      ∷ [],
)
