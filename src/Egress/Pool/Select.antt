-- ===== src/Egress/Pool/Select.antt =====
-- `acquire` of proxy_opencode/egress/pool.py: the tiers, the session affinity, the order of the
-- candidates and the gate on requests in flight. A bucket is named by its position in `_states`,
-- and a list of positions stands for a list of references. The `await` in the gate's loop splits
-- `acquire` in two: `begin` runs up to the first sleep, and `wake` after each sleep.
pub mod Tiers
pub mod Order
pub mod Acquire
pub mod Ranks
pub mod Choice
pub mod NewSession
use proxy_opencode.Prelude.{
  ℕ, zero, suc, ◌+◌, ◌-◌, ◌%◌, String, Bool, true, false, not, ◌&&◌, ◌||◌, Option, none, some, List,
  [], ◌∷◌, ◌++◌, ltb, leb, ◌==◌, str_eq, length, get_elem?, modify, take, drop, keep, any,
  if◌then◌else◌,
}
use proxy_opencode.Prelude.Dict.{Dict, get, put, remove}
use proxy_opencode.Egress.Models.{EgressState, Lease, new_lease, cordoned, cooling_down, available}
use proxy_opencode.Egress.Ledger.{Event}
use proxy_opencode.Egress.Pool.{Config, Pool}
use proxy_opencode.Egress.Pool.Affinity.{sticky, live_bindings}

-- The positions, counted from `i`, of the states that pass a test.
unfoldable pub positions : (EgressState → Bool) → ℕ → List EgressState → List ℕ
positions p i [] = []
positions p i (s ∷ states) = let rest = positions p (suc i) states in if p s then i ∷ rest else rest

-- `name in names`
unfoldable pub among : List String → String → Bool
unfolding any
among names name = any (λ other. str_eq other name) names

-- `healthy`, `cooling` and `normal`
unfoldable pub healthy_now : ℕ → EgressState → Bool
unfolding available
healthy_now now s = available s now && s.healthy

unfoldable pub cooling : ℕ → EgressState → Bool
unfolding healthy_now cooling_down
cooling now s = healthy_now now s && cooling_down s now

unfoldable pub normal : ℕ → EgressState → Bool
unfolding healthy_now cooling_down
normal now s = healthy_now now s && not (cooling_down s now)

unfoldable pub last_resort : Config → EgressState → Bool
unfolding among
last_resort cfg s = among cfg.last_resort s.spec.name

unfoldable pub dead_leg : ℕ → EgressState → Bool
unfolding cordoned
dead_leg now s = not s.healthy && not (cordoned s now)

-- The five tiers, each as the test that its buckets pass.
unfoldable pub tier_tests : Config → ℕ → List (EgressState → Bool)
unfolding cooling normal last_resort dead_leg
tier_tests cfg now =
    (λ s. normal now s && not (last_resort cfg s))
    ∷ (λ s. cooling now s && not (last_resort cfg s))
    ∷ (λ s. normal now s && last_resort cfg s)
    ∷ (λ s. cooling now s && last_resort cfg s)
    ∷ (λ s. dead_leg now s)
    ∷ []

-- `next((t for t in tiers if t), None)`, with `[]` for `None`.
unfoldable pub first_tier : List String → List EgressState → List (EgressState → Bool) → List ℕ
unfolding positions among
first_tier exclude states [] = []
first_tier exclude states (test ∷ tests) =
    let rest = first_tier exclude states tests in
    let tier = positions (λ s. test s && not (among exclude s.spec.name)) 0 states in
    elim tier [ [] ↦ rest | i ∷ is ↦ i ∷ is ]

unfoldable pub usable : Config → List String → ℕ → List EgressState → List ℕ
unfolding tier_tests first_tier
usable cfg exclude now states = first_tier exclude states (tier_tests cfg now)

-- `usable[offset:] + usable[:offset]`
unfoldable pub rotate : ℕ → List ℕ → List ℕ
rotate rr is = let offset = rr % length is in drop offset is ++ take offset is

-- The fields of the state at a position.
unfoldable pub inflight_at : List EgressState → ℕ → ℕ
inflight_at states i = elim (get_elem? states i) [ none ↦ 0 | some s ↦ s.inflight ]

unfoldable pub live_at : Config → ℕ → Dict (String × ℕ) → List EgressState → ℕ → ℕ
unfolding live_bindings
live_at cfg now d states i = elim (get_elem? states i) [
  | none ↦ 0
  | some s ↦ live_bindings cfg now d s.spec.name
]

-- The order of the sort's keys, pairs of numbers.
unfoldable pub pair_leb : ℕ × ℕ → ℕ × ℕ → Bool
pair_leb (a, b) (c, d) = ltb a c || ((a == c) && leb b d)

-- `list.sort(key=…)`: stable, here by insertion.
unfoldable pub insert_by : (ℕ → ℕ × ℕ) → ℕ → List ℕ → List ℕ
unfolding pair_leb
insert_by key i [] = i ∷ []
insert_by key i (j ∷ js) = if pair_leb (key i) (key j) then i ∷ j ∷ js else j ∷ insert_by key i js

unfoldable pub sort_by : (ℕ → ℕ × ℕ) → List ℕ → List ℕ
unfolding insert_by
sort_by key [] = []
sort_by key (i ∷ is) = insert_by key i (sort_by key is)

-- `min(rotated, key=…)`: the first of the smallest.
unfoldable pub first_min : (ℕ → ℕ) → ℕ → List ℕ → ℕ
first_min key best [] = best
first_min key best (i ∷ is) = first_min key (if ltb (key i) (key best) then i else best) is

-- The buckets with a free slot.
unfoldable pub candidates : Config → List EgressState → List ℕ → List ℕ
unfolding keep inflight_at
candidates cfg states is = keep (λ i. ltb (inflight_at states i) cfg.max_inflight) is

-- A request that sleeps in the gate's loop: its session, the `now` of its start, the buckets that
-- it may take, and its deadline.
pub record Waiting : Type 0 where
  pub key : String
  pub now : ℕ
  pub rotated : List ℕ
  pub deadline : ℕ

-- How far a call of `acquire` got: `PoolExhausted`, the buckets to take one of, or a sleep.
pub data Progress : Type 0 where
  exhausted : Progress
  choose : List ℕ → Progress
  sleep : Waiting → Progress

-- `rotated` before the gate, for a session without a usable binding.
unfoldable pub order :
    Config → String → ℕ → Dict (String × ℕ) → List EgressState → ℕ → List ℕ → List ℕ
unfolding rotate sort_by live_at inflight_at
order cfg key now d states rr is =
    let rotated = rotate rr is in
    if str_eq key ""
    then rotated
    else sort_by (λ i. (live_at cfg now d states i, inflight_at states i)) rotated

-- One round of the gate's loop: the free buckets if there are any, else another sleep while the
-- deadline is not reached, else all buckets, over the cap.
unfoldable pub gate_round : List ℕ → Bool → Waiting → Progress
gate_round (i ∷ is) early w = choose (i ∷ is)
gate_round [] early w = if early then sleep w else choose w.rotated

-- The gate, up to its first sleep. `started` is the reading that sets the deadline, `checked` the
-- first one that is compared with it.
unfoldable pub gate : Config → List EgressState → String → ℕ → ℕ → ℕ → List ℕ → Progress
unfolding candidates gate_round
gate cfg states key now started checked rotated =
    let deadline = started + cfg.inflight_wait_s in
    if cfg.max_inflight == 0
    then choose rotated
    else gate_round (candidates cfg states rotated) (ltb checked deadline)
        (record { key = key; now = now; rotated = rotated; deadline = deadline })

-- The end of `begin`: the bound bucket alone, or the usable ones in their order, for which the
-- round-robin counter moves on.
unfoldable pub begin_on :
    Pool → String → ℕ → ℕ → ℕ → Dict (String × ℕ) → List ℕ → Option ℕ → Progress × Pool
unfolding order gate
begin_on p key now started checked d is (some b) =
    (gate p.config p.states key now started checked (b ∷ []), record p { affinity = d })
begin_on p key now started checked d is none = (
  gate p.config p.states key now started checked (order p.config key now d p.states p.rr is),
  record p { affinity = d; rr = p.rr + 1 },
)

unfoldable pub begin_with : Pool → String → ℕ → ℕ → ℕ → List ℕ → Progress × Pool
unfolding sticky begin_on
begin_with p key now started checked [] = (exhausted, p)
begin_with p key now started checked (i ∷ is) =
    let (bound, d) = sticky p.config key now p.states p.affinity in
    begin_on p key now started checked d (i ∷ is) bound

-- `acquire` up to its first sleep or its choice.
unfoldable pub begin : Pool → String → List String → ℕ → ℕ → ℕ → Progress × Pool
unfolding usable begin_with
begin p key exclude now started checked =
    begin_with p key now started checked (usable p.config exclude now p.states)

-- The loop after a sleep; `checked` is the reading that is compared with the deadline if there is
-- still no free slot.
unfoldable pub wake : Pool → Waiting → ℕ → Progress
unfolding candidates gate_round
wake p w checked = gate_round (candidates p.config p.states w.rotated) (ltb checked w.deadline) w

-- The state at the chosen position: the slot is taken, and the session is bound to the bucket if
-- it is healthy and not cordoned.
unfoldable pub take_slot : Pool → String → ℕ → ℕ → ℕ → EgressState → Pool
unfolding cordoned
take_slot p key now bound_at i s = record p {
  states = modify p.states i (λ t. record t { inflight = t.inflight + 1 });
  affinity =
      (if not (str_eq key "") && s.healthy && not (cordoned s now)
        then put key (s.spec.name, bound_at) p.affinity
        else p.affinity);
  events =
      (if cordoned s now
        then p.events ++ (Event.request_on_cordoned_bucket s.spec.name s.cordon_reason ∷ [])
        else p.events);
}

unfoldable pub lease_at : Pool → String → ℕ → ℕ → ℕ → Option EgressState → Option (Lease × Pool)
unfolding new_lease take_slot
lease_at p key now bound_at best none = none
lease_at p key now bound_at best (some s) =
    some (new_lease best, take_slot p key now bound_at best s)

-- The end of `acquire`. `none` is the `ValueError` of `min` on an empty list.
unfoldable pub finish : Pool → String → ℕ → ℕ → List ℕ → Option (Lease × Pool)
unfolding first_min inflight_at lease_at
finish p key now bound_at [] = none
finish p key now bound_at (i ∷ is) =
    let best = first_min (inflight_at p.states) i is in
    lease_at p key now bound_at best (get_elem? p.states best)
