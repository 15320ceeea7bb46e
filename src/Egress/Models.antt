-- ===== src/Egress/Models.antt =====
-- The value objects of proxy_opencode/egress/models.py. Times are natural numbers of milliseconds:
-- the source's floats of seconds are their thousandths. The HTTP client of a bucket is left out.
pub mod Window
use proxy_opencode.Prelude.{
  ℕ, ◌+◌, ◌-◌, ◌*◌, String, Bool, true, false, not, ◌&&◌, Option, none, some, List, [], ◌∷◌, ltb,
  if◌then◌else◌,
}

-- A duration of the source, given in seconds.
abbrev pub seconds : ℕ → ℕ
seconds n = n * 1000

abbrev pub hard_quota_retry_after : ℕ
hard_quota_retry_after = 3600 * 1000

pub record EgressSpec : Type 0 where
  pub name : String
  pub agent_url : String
  pub expect_prefix : Option String

-- The values of `cordon_reason`: the empty text, and the three texts that `release` writes.
pub data CordonReason : Type 0 where
  no_reason free_quota_soft free_quota_exhausted free_tier_rejected : CordonReason

pub record EgressState : Type 0 where
  pub spec : EgressSpec
  pub inflight : ℕ
  pub total : ℕ
  pub failures : ℕ
  pub last_error : String
  pub last_error_at : ℕ
  pub cordoned_until : ℕ
  pub cordon_reason : CordonReason
  pub cooldown_until : ℕ
  pub healthy : Bool
  pub rotating : Bool
  pub egress_ip : Option String
  pub egress_ip_at : Option String
  pub last_probe_at : ℕ
  pub last_probe_ok : Option Bool
  pub probe_soft_fail_streak : ℕ
  pub probe_alert_sent : Bool

-- `EgressState(spec=spec)`: every other field at its default.
unfoldable pub fresh : EgressSpec → EgressState
fresh spec = record {
  spec = spec;
  inflight = 0;
  total = 0;
  failures = 0;
  last_error = "";
  last_error_at = 0;
  cordoned_until = 0;
  cordon_reason = no_reason;
  cooldown_until = 0;
  healthy = false;
  rotating = false;
  egress_ip = none;
  egress_ip_at = none;
  last_probe_at = 0;
  last_probe_ok = none;
  probe_soft_fail_streak = 0;
  probe_alert_sent = false;
}

unfoldable pub cordoned : EgressState → ℕ → Bool
cordoned s now = ltb now s.cordoned_until

unfoldable pub cooling_down : EgressState → ℕ → Bool
cooling_down s now = ltb now s.cooldown_until

unfoldable pub available : EgressState → ℕ → Bool
unfolding cordoned
available s now = not (cordoned s now) && not s.rotating

-- `max(0.0, until - now)`: the subtraction on ℕ stops at 0.
unfoldable pub cordon_remaining : EgressState → ℕ → ℕ
cordon_remaining s now = s.cordoned_until - now

unfoldable pub cooldown_remaining : EgressState → ℕ → ℕ
cooldown_remaining s now = s.cooldown_until - now

-- The fields of `snapshot` that depend on the clock; the others are copies of the state's.
pub record Snapshot : Type 0 where
  pub name : String
  pub healthy : Bool
  pub cordoned : Bool
  pub cordon_reason : CordonReason
  pub cordon_remaining : ℕ
  pub cooldown : Bool
  pub cooldown_remaining : ℕ
  pub inflight : ℕ
  pub total : ℕ
  pub failures : ℕ
  pub last_error : String
  pub rotating : Bool
  pub egress_ip : Option String
  pub egress_ip_at : Option String
  pub last_probe_ok : Option Bool

unfoldable pub snapshot : EgressState → ℕ → Snapshot
unfolding cordoned cooling_down cordon_remaining cooldown_remaining
snapshot s now = record {
  name = s.spec.name;
  healthy = s.healthy;
  cordoned = cordoned s now;
  cordon_reason = if cordoned s now then s.cordon_reason else no_reason;
  cordon_remaining = cordon_remaining s now;
  cooldown = cooling_down s now;
  cooldown_remaining = cooldown_remaining s now;
  inflight = s.inflight;
  total = s.total;
  failures = s.failures;
  last_error = s.last_error;
  rotating = s.rotating;
  egress_ip = s.egress_ip;
  egress_ip_at = s.egress_ip_at;
  last_probe_ok = s.last_probe_ok;
}

-- One acquired egress: the position of its bucket in the pool stands for the reference to it.
pub record Lease : Type 0 where
  pub bucket : ℕ
  pub released : Bool
  pub tokens : ℕ

unfoldable pub new_lease : ℕ → Lease
new_lease i = record { bucket = i; released = false; tokens = 0 }
