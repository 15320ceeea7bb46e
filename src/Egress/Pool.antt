-- ===== src/Egress/Pool.antt =====
-- The pool of proxy_opencode/egress/pool.py: its configuration and its state. The operations stand
-- in the modules below.
pub mod Verdict
pub mod Health
pub mod Affinity
pub mod Select
pub mod World
mod Tests
use proxy_opencode.Prelude.{
  ℕ, String, Bool, true, false, Option, none, some, List, [], ◌∷◌, map, max, str_eq, any, keep,
}
use proxy_opencode.Prelude.Dict.{Dict}
use proxy_opencode.Egress.Models.{EgressSpec, EgressState, fresh, seconds}
use proxy_opencode.Egress.Ledger.{Event, Notice}

pub record Config : Type 0 where
  pub cordon_s : ℕ
  pub cooldown_s : ℕ
  pub cooldown_max_s : ℕ
  pub quota_cordon_max_s : ℕ
  pub probe_fail_tolerance : ℕ
  pub max_inflight : ℕ
  pub inflight_wait_s : ℕ
  pub affinity_ttl_s : ℕ
  pub last_resort : List String

-- `states` is `_states`, `rr` the next value of the counter `_rr`, `affinity` binds a session to
-- the name of a bucket and the time of its last use. `events` and `notices` are what was emitted
-- and what the observer was told, in order.
pub record Pool : Type 0 where
  pub config : Config
  pub states : List EgressState
  pub rr : ℕ
  pub affinity : Dict (String × ℕ)
  pub observed : Bool
  pub events : List Event
  pub notices : List Notice

unfoldable pub is_named : String → EgressState → Bool
is_named name s = str_eq s.spec.name name

-- The clamps of `__init__`; a last-resort name that no bucket has is dropped. `none` is the
-- `ValueError` for a pool without buckets.
unfoldable pub new : List EgressSpec → Config → Bool → Option Pool
unfolding fresh any keep is_named
new [] config observed = none
new (spec ∷ specs) config observed =
    let states = map fresh (spec ∷ specs) in
    some (record {
      config = record config {
        cooldown_s = max (seconds 1) config.cooldown_s;
        cooldown_max_s = max (max (seconds 1) config.cooldown_s) config.cooldown_max_s;
        probe_fail_tolerance = max 1 config.probe_fail_tolerance;
        last_resort = keep (λ name. any (is_named name) states) config.last_resort;
      };
      states = states;
      rr = 0;
      affinity = [];
      observed = observed;
      events = [];
      notices = [];
    })

-- `attach_release_observer`
unfoldable pub attach_release_observer : Pool → Pool
attach_release_observer p = record p { observed = true }
