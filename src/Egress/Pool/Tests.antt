-- ===== src/Egress/Pool/Tests.antt =====
-- Runs of the pool on concrete inputs: two buckets, one of them a last resort.
use proxy_opencode.Prelude.{
  ℕ, ◌+◌, ◌%◌, ◌≤◌, ◌≡◌, ◌≢◌, ◌↔◌, inl, inr, refl, ap, String, Bool, true, false, Option, none,
  some, List, [], ◌∷◌, str_eq, length, get_elem?, All, arith, keep, ◌==◌, if◌then◌else◌,
}
use proxy_opencode.Prelude.Dict.{put}
use proxy_opencode.Egress.Models.{
  EgressSpec, EgressState, free_quota_soft, free_quota_exhausted, fresh, cordoned, cooling_down,
  seconds, Lease,
}
use proxy_opencode.Egress.Pool.{Config, Pool, new}
use proxy_opencode.Egress.Pool.Verdict.{Outcome, Readings, settle}
use proxy_opencode.Egress.Pool.Health.{Answer, Probe, no_answer, answer, probe_ok}
use proxy_opencode.Egress.Pool.Health.Outage.{probes, outage_reported_once, failed_events}
use proxy_opencode.Egress.Pool.Affinity.{sticky}
use proxy_opencode.Egress.Pool.Select.{begin, finish, usable, inflight_at, live_at, exhausted}
use proxy_opencode.Egress.Pool.Select.Tiers.{AtRank, NoneBelow}
use proxy_opencode.Egress.Pool.Select.Order.{Beats}
use proxy_opencode.Egress.Pool.Select.Acquire.{offered, Serves, begin-Serves}
use proxy_opencode.Egress.Pool.Select.Ranks.{begin-AtRank, begin-exhausted}
use proxy_opencode.Egress.Pool.Select.Choice.{acquire_round_robin}
use proxy_opencode.Egress.Pool.Select.NewSession.{acquire_new_session}
use proxy_opencode.Egress.Pool.World.{World, Action, acquire, finish_request, probe, run, start}
use proxy_opencode.Egress.Pool.World.Counts.{held}
use proxy_opencode.Egress.Pool.World.Taken.{IsAmong, finish-takes_least}
use proxy_opencode.Egress.Pool.World.Steps.{inflight_exact}
use proxy_opencode.Egress.Pool.World.Labels.{AllTimely}
use proxy_opencode.Egress.Pool.World.Freed.{success_frees}

abbrev any_prefix : EgressSpec → String → Bool
any_prefix spec ip = true

abbrev config : Config
config = record {
  cordon_s = seconds 900;
  cooldown_s = seconds 5;
  cooldown_max_s = seconds 60;
  quota_cordon_max_s = 0;
  probe_fail_tolerance = 2;
  max_inflight = 4;
  inflight_wait_s = seconds 10;
  affinity_ttl_s = seconds 600;
  last_resort = "spare" ∷ [];
}

abbrev home : EgressSpec
home = record { name = "home"; agent_url = "http://10.0.0.1"; expect_prefix = none }

abbrev spare : EgressSpec
spare = record { name = "spare"; agent_url = "http://10.0.0.2"; expect_prefix = none }

abbrev up : EgressSpec → EgressState
up spec = record (fresh spec) { healthy = true }

-- A bucket whose daily quota is used up until second 2000.
abbrev benched : EgressSpec → EgressState
benched spec = record (up spec) { cordoned_until = seconds 2000; cordon_reason = free_quota_soft }

abbrev two : Pool
two = record {
  config = config;
  states = up home ∷ up spare ∷ [];
  rr = 0;
  affinity = [];
  observed = true;
  events = [];
  notices = [];
}

abbrev made : Pool
made = record {
  config = config;
  states = fresh home ∷ fresh spare ∷ [];
  rr = 0;
  affinity = [];
  observed = true;
  events = [];
  notices = [];
}

new-made : new (home ∷ spare ∷ []) config true ≡ some made
unfolding new
new-made = refl

abbrev good : Answer
good = record {
  status = 200;
  ready = true;
  egress_probe_failed = false;
  egress_ip = some "198.51.100.7";
  egress_ip_at = "2026-01-01";
}

abbrev bad : Answer
bad = record good { ready = false }

abbrev at_100 : Readings
at_100 = record { now = seconds 100; now_mono = seconds 100; window_s = seconds 3600 }

abbrev ok_outcome : Outcome
ok_outcome = record { ok = true; kind = ""; retry_after = none }

abbrev limited : Option ℕ → Outcome
limited after = record { ok = false; kind = "http_429"; retry_after = after }

-- Both buckets come up, a request gets the first one and meets a 429.
abbrev actions : List Action
actions =
    probe 0 (seconds 1) (answer good)
    ∷ probe 1 (seconds 1) (answer good)
    ∷ acquire "session" [] (seconds 2) (seconds 2) (seconds 2) (seconds 2)
    ∷ finish_request 0 at_100 (limited none)
    ∷ acquire "session" [] (seconds 101) (seconds 101) (seconds 101) (seconds 101)
    ∷ []

abbrev after_actions : World
after_actions = run any_prefix (start made) actions

-- The second request went to the spare bucket, which it still holds.
spare_held : inflight_at after_actions.pool.states 1 ≡ 1
unfolding run inflight_at fresh put
spare_held = refl

inflight_exact_example : inflight_at after_actions.pool.states 1 ≡ held 1 after_actions.leases
inflight_exact_example =
    inflight_exact any_prefix (home ∷ spare ∷ []) config true actions 1 new-made

timely : AllTimely 0 actions
timely = (omega arith, (omega arith, (omega arith, ((omega arith, omega arith), (omega arith, _)))))

state_at_0 : (s : EgressState) × (get_elem? after_actions.pool.states 0 ≡ some s)
unfolding run fresh put
state_at_0 = (_, refl)

home_benched : state_at_0.0.cordon_reason ≡ free_quota_exhausted
unfolding state_at_0 run fresh put
home_benched = refl

abbrev at_200 : Readings
at_200 = record { now = seconds 200; now_mono = seconds 200; window_s = seconds 3500 }

success_frees_example :
    let t = (settle after_actions.pool.config at_200 ok_outcome state_at_0.0).0 in
    (cordoned t (seconds 200) ≡ false) × (cooling_down t (seconds 200) ≡ false) × (t.failures ≡ 0)
success_frees_example =
    success_frees any_prefix (home ∷ spare ∷ []) config true actions 0 at_200 ok_outcome new-made
      timely state_at_0.1 (omega arith) refl

-- One bucket is benched: it is not offered.
abbrev one_benched : Pool
one_benched = record two { states = benched home ∷ up spare ∷ [] }

begin-Serves_example :
    All
      (Serves (seconds 100) one_benched.states)
      (offered (begin one_benched "session" [] (seconds 100) (seconds 100) (seconds 100)).0)
begin-Serves_example =
    begin-Serves one_benched "session" [] (seconds 100) (seconds 100) (seconds 100)

begin-AtRank_example :
    (r : ℕ) × NoneBelow config [] (seconds 100) two.states r two.states
    × All
        (AtRank config [] (seconds 100) two.states r)
        (offered (begin two "" [] (seconds 100) (seconds 100) (seconds 100)).0)
begin-AtRank_example = begin-AtRank two "" [] (seconds 100) (seconds 100) (seconds 100) (inl refl)

abbrev all_benched : Pool
all_benched = record two { states = benched home ∷ benched spare ∷ [] }

begin-exhausted_example :
    ((begin all_benched "" [] (seconds 100) (seconds 100) (seconds 100)).0 ≡ exhausted)
    ↔ NoneBelow config [] (seconds 100) all_benched.states 5 all_benched.states
begin-exhausted_example =
    begin-exhausted all_benched "" [] (seconds 100) (seconds 100) (seconds 100)

-- One bucket has two requests in flight, the other none.
abbrev loaded : Pool
loaded = record two { states = record (up home) { inflight = 2 } ∷ up spare ∷ [] }

finish-takes_least_example :
    (l : Lease) × (q : Pool) × (finish loaded "" 0 0 (0 ∷ 1 ∷ []) ≡ some (l, q))
    × IsAmong (0 ∷ 1 ∷ []) l.bucket
    × All (λ i. inflight_at loaded.states l.bucket ≤ inflight_at loaded.states i) (0 ∷ 1 ∷ [])
    × ((j : ℕ)
        → inflight_at q.states j ≡ (
            if l.bucket == j then inflight_at loaded.states j + 1 else inflight_at loaded.states j))
finish-takes_least_example =
    finish-takes_least loaded "" 0 0 (0 ∷ 1 ∷ []) (λ e. absurd (ground arith))
      ((_, refl), ((_, refl), _))

-- Two buckets of the same tier, with nothing in flight.
abbrev level : Pool
level = record two { config = record config { last_resort = [] }; rr = 3 }

round_lease :
    (r : Lease × Pool) × (finish
        (begin level "" [] 0 0 0).1
        ""
        0
        0
        (offered (begin level "" [] 0 0 0).0)
      ≡ some r)
unfolding begin finish fresh
round_lease = (_, refl)

level_loads : All (λ i. inflight_at level.states i ≡ 0) (usable level.config [] 0 level.states)
unfolding usable inflight_at fresh
level_loads = (refl, (refl, _))

-- The counter stands at 3, and the second of the two buckets is taken.
round_lease-bucket : round_lease.0.0.bucket ≡ 1
unfolding round_lease begin finish fresh
round_lease-bucket = refl

-- Two buckets of the same tier, one of them with two requests in flight.
abbrev busy : Pool
busy = record loaded { config = record config { last_resort = [] } }

session_lease :
    (r : Lease × Pool) × (finish
        (begin busy "session" [] 0 0 0).1
        "session"
        0
        0
        (offered (begin busy "session" [] 0 0 0).0)
      ≡ some r)
unfolding begin finish fresh
session_lease = (_, refl)

session_free : (sticky busy.config "session" 0 busy.states busy.affinity).0 ≡ none
unfolding sticky keep
session_free = refl

named : ◌≢◌ {A = String} "session" ""
named e = ground (arith, ap (λ key. str_eq key "") e)

acquire_round_robin_example :
    let is = usable level.config [] 0 level.states in
    (get_elem? is (level.rr % length is) ≡ some round_lease.0.0.bucket)
    × ((begin level "" [] 0 0 0).1.rr ≡ level.rr + 1)
acquire_round_robin_example =
    acquire_round_robin level [] 0 0 0 0 0 (inr (omega arith)) level_loads round_lease.1

acquire_new_session_example :
    All
      (Beats
        (live_at busy.config 0 (begin busy "session" [] 0 0 0).1.affinity busy.states)
        (inflight_at busy.states)
        session_lease.0.0.bucket)
      (offered (begin busy "session" [] 0 0 0).0)
acquire_new_session_example =
    acquire_new_session busy "session" [] 0 0 0 0 named session_free session_lease.1

benched-cordoned : cordoned (benched home) (seconds 100) ≡ true
unfolding cordoned
benched-cordoned = refl

up-free : cordoned (up home) (seconds 100) ≡ false
unfolding cordoned fresh
up-free = refl

-- The hard 429 gives the bucket the other reason, with a later deadline.
relabelled : (settle config at_100 (limited none) (benched home)).0.cordon_reason ≢ free_quota_soft
unfolding settle fresh
relabelled = ground arith

-- A bucket that was seen at another address.
abbrev moved : EgressSpec → EgressState
moved spec = record (benched spec) { egress_ip = some "198.51.100.1" }

abbrev outage : List (ℕ × Probe)
outage = (1, no_answer "ConnectError") ∷ (2, answer bad) ∷ (3, no_answer "ReadTimeout") ∷ []

abbrev bad_answers : List (ℕ × Answer)
bad_answers = (1, bad) ∷ (2, bad) ∷ []

outage_reported_once_example : failed_events (probes config any_prefix outage (up home)).1 ≤ 1
unfolding probe_ok
outage_reported_once_example =
    outage_reported_once config any_prefix outage (up home) (_, (refl, (_, _)))
