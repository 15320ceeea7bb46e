-- ===== src/Egress/Ledger.antt =====
-- What the pool writes to the event stream (`EVENTS.emit` in proxy_opencode/egress/pool.py), and
-- what it tells the release observer. Of an event the fields are kept that say which bucket it is
-- about and why; formatted details and log lines are left out.
use proxy_opencode.Prelude.{ℕ, String, Bool, Option}
use proxy_opencode.Egress.Models.{CordonReason}

-- Why a probe failed: the agent was unreachable (with the exception's name), or it answered and the
-- answer was not good (`_probe_fail_reason`).
pub data ProbeFault : Type 0 where
  unreachable : String → ProbeFault
  bad_status : ℕ → ProbeFault
  egress_probe_not_ok : ProbeFault
  not_ready : ProbeFault

pub data Event : Type 0 where
  egress_request : String → Option String → Bool → String → Option ℕ → Event
  cordon : String → CordonReason → Event
  cordon_lifted : String → CordonReason → Option String → Event
  egress_cooldown : String → String → ℕ → ℕ → Event
  rotation_applied : String → Option String → String → Event
  egress_ip_observed : String → Option String → String → Event
  prefix_mismatch : String → String → Event
  egress_recovered : String → Event
  probe_failed : String → ProbeFault → Event
  request_on_cordoned_bucket : String → CordonReason → Event

-- The arguments of `ReleaseObserver.on_release`.
pub record Notice : Type 0 where
  pub name : String
  pub ok : Bool
  pub kind : String
  pub retry_after : Option ℕ
  pub tokens : ℕ
