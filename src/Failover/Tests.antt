-- ===== src/Failover/Tests.antt =====
-- Runs of the failover wrapper on concrete inputs: a payload is its model and a text.
use proxy_opencode.Prelude.{◌≤◌, ◌≡◌, ◌↔◌, refl, String, true, false, [], ◌∷◌, arith}
use proxy_opencode.Failover.{
  Settings, State, init, upstream_http, relay, answer, upstream, Outcome, returned, Payload, Marker,
  ask_primary, passthrough, begin, after_begin, chat, after_primary, Request,
}
use proxy_opencode.Failover.Laws.{outage-FailsOver, FailsOver}
use proxy_opencode.Failover.Budget.{budget_holds, served, served_all}
use proxy_opencode.Failover.Tasks.{
  begins, primary_returns, turns, scoped_asks_primary, successes, recovery_exact,
}

abbrev settings : Settings
settings = record {
  name = "zen";
  secondary_name = "backup";
  model_map = ("big", "small") ∷ [];
  default_model = "plain";
  hold_s = 60000;
  recover_after = 2;
  request_scoped = false;
  daily_max = 1;
}

abbrev scoped : Settings
scoped = record settings { request_scoped = true }

abbrev payload : Payload String
payload = record { model = "big"; rest = "hello" }

abbrev marker : Marker
marker = record { model = "small"; requested_model = "big"; reason = upstream_http 502 }

abbrev broken : Outcome String
broken = returned (relay 502 (upstream "bad gateway"))

abbrev refused : Outcome String
refused = returned (relay 400 (upstream "no such field"))

abbrev today : String
today = "2026-01-01"

-- Two requests that the backup would answer.
abbrev request : Request String String
request = record {
  started = 1000;
  opened = 2000;
  now = 2000;
  day_started = today;
  day_primary = today;
  day_secondary = today;
  payload = payload;
  primary = broken;
  secondary = λ body. returned (answer "hi");
}

abbrev opened : State
opened = record init { fallback_until = 61000 }

outage-FailsOver_example :
    FailsOver settings 2000 today payload broken init
      (after_primary settings 2000 2000 today payload broken init)
unfolding passthrough
outage-FailsOver_example =
    outage-FailsOver settings 2000 2000 today payload broken init (omega arith, refl)

scoped_asks_primary_example :
    (begin {R = String} scoped 3000 today payload (
      turns scoped
        (begins 1000 today payload ∷ primary_returns 2000 2000 today payload broken ∷ [])
        init)).0
    ≡ ask_primary
scoped_asks_primary_example =
    scoped_asks_primary scoped
      (begins 1000 today payload ∷ primary_returns 2000 2000 today payload broken ∷ []) 3000 today
      payload refl

recovery_exact_example : ((successes settings 2 opened).fallback_until ≡ 0) ↔ (2 ≤ 2)
recovery_exact_example = recovery_exact settings 2 opened (λ e. ground arith) refl (omega arith)

budget_holds_example : served_all settings today (request ∷ request ∷ []) init ≤ 1
budget_holds_example =
    budget_holds settings today (request ∷ request ∷ []) init
      ((refl, refl, refl), ((refl, refl, refl), _)) (omega arith)

-- The first of the two requests is answered by the backup.
served_one : served_all settings today (request ∷ request ∷ []) init ≡ 1
unfolding served_all served begin after_begin chat
served_one = refl
