-- ===== src/Egress/Pool/Affinity.antt =====
-- The session affinity of proxy_opencode/egress/pool.py: the bindings of sessions to buckets, which
-- `acquire` sweeps, follows and counts.
use proxy_opencode.Prelude.{
  ℕ, suc, ◌-◌, String, Bool, not, ◌&&◌, ◌||◌, Option, none, some, List, [], ◌∷◌, ltb, leb, ◌==◌,
  str_eq, keep, if◌then◌else◌,
}
use proxy_opencode.Prelude.Dict.{Dict, get, remove}
use proxy_opencode.Egress.Models.{EgressState, cordoned, cooling_down, available}
use proxy_opencode.Egress.Pool.{Config}

-- `next((s for s in self._states if s.spec.name == name), None)`
unfoldable pub find_from : String → ℕ → List EgressState → Option (ℕ × EgressState)
find_from name i [] = none
find_from name i (s ∷ states) =
    let rest = find_from name (suc i) states in
    if str_eq s.spec.name name then some (i, s) else rest

-- The bindings without those that were idle for longer than the limit.
unfoldable pub sweep : Config → ℕ → Dict (String × ℕ) → Dict (String × ℕ)
sweep cfg now d = keep (λ b. not (ltb cfg.affinity_ttl_s (now - b.1.1))) d

-- A bound bucket serves its session while this holds.
unfoldable pub steady : ℕ → EgressState → Bool
unfolding available cordoned cooling_down
steady now s = available s now && s.healthy && not (cordoned s now) && not (cooling_down s now)

unfoldable pub bound_bucket : ℕ → String → List EgressState → Option ℕ
unfolding find_from steady
bound_bucket now name states = elim (find_from name 0 states) [
  | none ↦ none
  | some (i, s) ↦ if steady now s then some i else none
]

-- A binding whose bucket cannot serve is dropped.
unfoldable pub keep_or_free : String → Dict (String × ℕ) → Option ℕ → Option ℕ × Dict (String × ℕ)
keep_or_free key d (some i) = (some i, d)
keep_or_free key d none = (none, remove key d)

unfoldable pub follow :
    String
    → ℕ
    → List EgressState
    → Dict (String × ℕ)
    → Option (String × ℕ)
    → Option ℕ × Dict (String × ℕ)
unfolding bound_bucket keep_or_free
follow key now states d none = (none, d)
follow key now states d (some (name, _)) = keep_or_free key d (bound_bucket now name states)

-- The bucket to which the session is bound, and the bindings after the look-up: the expired ones
-- are gone, and so is the session's own if its bucket cannot serve.
unfoldable pub sticky :
    Config → String → ℕ → List EgressState → Dict (String × ℕ) → Option ℕ × Dict (String × ℕ)
unfolding sweep follow get
sticky cfg key now states d =
    if str_eq key "" || (cfg.affinity_ttl_s == 0)
    then (none, d)
    else (let swept = sweep cfg now d in follow key now states swept (get key swept))

-- `_live_bindings(now).get(name, 0)`
unfoldable pub live_bindings : Config → ℕ → Dict (String × ℕ) → String → ℕ
live_bindings cfg now [] name = 0
live_bindings cfg now ((_, (bound, seen)) ∷ d) name =
    let rest = live_bindings cfg now d name in
    if str_eq bound name && leb (now - seen) cfg.affinity_ttl_s then suc rest else rest
