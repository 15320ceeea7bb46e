-- ===== src/Egress/Rotator/Tests.antt =====
-- Runs of the rotator on concrete inputs: one bucket, whose requests reach its threshold.
use proxy_opencode.Prelude.{◌≡◌, refl, String, Bool, true, false, none, some, List, [], ◌∷◌, ◌++◌}
use proxy_opencode.Egress.Models.{EgressSpec, EgressState, fresh, seconds}
use proxy_opencode.Egress.Counts.{Counters, no_file, window_start}
use proxy_opencode.Egress.Models.Window.{next_window_reset}
use proxy_opencode.Egress.Counters.Capped.{IsCapped}
use proxy_opencode.Egress.Pool.{Pool}
use proxy_opencode.Egress.Pool.Affinity.{find_from}
use proxy_opencode.Egress.Pool.Verdict.{Outcome, Readings}
use proxy_opencode.Egress.Pool.Health.{Answer, answer}
use proxy_opencode.Egress.Pool.World.{acquire, probe, start}
use proxy_opencode.Egress.Rotation.{agent_answer}
use proxy_opencode.Egress.Rotator.{RotatorConfig, Rotator, new_rotator, clamp_cap, running}
use proxy_opencode.Egress.Rotator.Run.{
  Happening, of_pool, releases, demanded, task_begins, task_ends, happens,
}
use proxy_opencode.Egress.Rotator.Cap.{rotation_cap}
use proxy_opencode.Egress.Rotator.Marks.{marked_iff_running}

abbrev any_prefix : EgressSpec → String → Bool
any_prefix spec ip = true

abbrev home : EgressSpec
home = record { name = "home"; agent_url = "http://10.0.0.1"; expect_prefix = none }

abbrev pool : Pool
pool = record {
  config = record {
    cordon_s = seconds 900;
    cooldown_s = seconds 5;
    cooldown_max_s = seconds 60;
    quota_cordon_max_s = 0;
    probe_fail_tolerance = 2;
    max_inflight = 4;
    inflight_wait_s = seconds 10;
    affinity_ttl_s = seconds 600;
    last_resort = [];
  };
  states = fresh home ∷ [];
  rr = 0;
  affinity = [];
  observed = true;
  events = [];
  notices = [];
}

abbrev config : RotatorConfig
config = record {
  rotate_on_hard_429 = true;
  timeout_s = seconds 420;
  timeout_text = "420";
  max_rotations = 1;
}

abbrev counters : Counters
counters = record {
  config = record {
    thresholds = ("home", 1) ∷ [];
    token_budgets = [];
    hard_retry_after = seconds 3600;
    retry_cooldown = seconds 900;
    hard_min_interval = seconds 1800;
    persistent = false;
  };
  records = [];
  file = no_file;
  rollovers = [];
}

abbrev good : Answer
good = record {
  status = 200;
  ready = true;
  egress_probe_failed = false;
  egress_ip = some "198.51.100.7";
  egress_ip_at = "2026-01-01";
}

abbrev served : Outcome
served = record { ok = true; kind = ""; retry_after = none }

abbrev at_3 : Readings
at_3 = record { now = seconds 3; now_mono = seconds 3; window_s = seconds 3600 }

-- The bucket comes up and serves a request, which asks for a rotation; the task waits for the agent.
abbrev busy : List Happening
busy =
    of_pool (probe 0 (seconds 1) (answer good))
    ∷ of_pool (acquire "" [] (seconds 2) (seconds 2) (seconds 2) (seconds 2))
    ∷ releases 0 at_3 served (seconds 3) (seconds 3) (seconds 3)
    ∷ task_begins "home"
    ∷ []

-- The rotation fails, and no other is asked for.
abbrev after_busy : List Happening
after_busy =
    task_ends "home" (agent_answer 500 false "no answer") (seconds 4) [] (seconds 4) (seconds 4)
      (seconds 4)
    ∷ demanded "home" "admin" false (seconds 5) (seconds 5)
    ∷ []

abbrev rotator : Rotator
rotator = happens any_prefix (new_rotator config (start pool) counters) busy

rotator-running : running rotator "home" ≡ true
unfolding happens new_rotator running fresh window_start next_window_reset
rotator-running = refl

found : (s : EgressState) × (find_from "home" 0 rotator.world.pool.states ≡ some (0, s))
unfolding happens new_rotator find_from fresh window_start next_window_reset
found = (_, refl)

marked_iff_running_example : found.0.rotating ≡ running rotator "home"
unfolding fresh
marked_iff_running_example =
    marked_iff_running any_prefix config (start pool) counters busy "home" 0 found.0 (refl, tt)
      (tt, (tt, (tt, (tt, tt)))) found.1

rotation_cap_example :
    IsCapped
      (clamp_cap config).max_rotations
      (happens any_prefix (new_rotator config (start pool) counters) (busy ++ after_busy)).counters
rotation_cap_example =
    rotation_cap any_prefix config (start pool) counters (busy ++ after_busy) tt
      (tt, (tt, (tt, (tt, (tt, (refl, tt))))))
