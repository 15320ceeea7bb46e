-- ===== src/Egress/Pool/World/Labels.antt =====
-- The reasons of cordons and the readings of the clock along the actions of the pool.
use mathlib.Core.Path.{subst}
use proxy_opencode.Prelude.{
  ℕ, ◌≤◌, ◌<◌, ◌≡◌, ◌≢◌, inl, inr, refl, sym, String, Bool, true, false, Option, none, some, List,
  [], ◌∷◌, get_elem?, All, All-imp, All-modify, All-get_elem?, Bool-cases, arith, if◌then◌else◌,
  not,
}
use proxy_opencode.Egress.Models.{EgressSpec, EgressState, Lease, no_reason, cordoned, cooling_down}
use proxy_opencode.Egress.Pool.{Config, Pool}
use proxy_opencode.Egress.Pool.Verdict.{Outcome, Readings, settle}
use proxy_opencode.Egress.Pool.Health.{Probe, no_answer, answer, probe_one, set_rotating}
use proxy_opencode.Egress.Pool.Select.{
  Waiting, Progress, exhausted, choose, sleep, finish, take_slot, lease_at,
}
use proxy_opencode.Egress.Pool.World.{
  World, Action, acquire, wake_up, finish_request, probe, rotated, release, release_at, abandon,
  give_back, probe_with, flag_at, rotated_at, proceed, add_lease, wake_at, with_lease, settle_lease,
}
use proxy_opencode.Egress.Pool.World.Settled.{
  states-release_at, release-done, release-live, abandon-done, abandon-live,
}

-- At time `t` a cordon that is not over has a reason.
abbrev pub IsLabelled : ℕ → EgressState → Type 0
IsLabelled t s = t < s.cordoned_until → s.cordon_reason ≢ no_reason

settle-IsLabelled :
    (cfg : Config) (c : Readings) (o : Outcome) (s : EgressState)
    → c.now ≤ c.now_mono
    → IsLabelled c.now s
    → IsLabelled c.now_mono (settle cfg c o s).0
unfolding settle
settle-IsLabelled cfg c o s le h = λ live blank. ground arith

probe_one-IsLabelled :
    (cfg : Config) (matches_prefix : EgressSpec → String → Bool) (now : ℕ) (e : Probe)
    (s : EgressState)
    → IsLabelled now s
    → IsLabelled now (probe_one cfg matches_prefix now e s).0
unfolding probe_one
probe_one-IsLabelled cfg matches_prefix now (no_answer fault) s h = ground arith
probe_one-IsLabelled cfg matches_prefix now (answer a) s h = λ live blank. ground arith

pub success_clears :
    (cfg : Config) (c : Readings) (o : Outcome) (s : EgressState)
    → o.ok ≡ true
    → IsLabelled c.now s
    → let t = (settle cfg c o s).0 in
      (cordoned t c.now ≡ false) × (cooling_down t c.now ≡ false) × (t.failures ≡ 0)
unfolding settle cordoned cooling_down
success_clears cfg c o s ok h = (ground arith, ground arith, ground arith)

-- The clock does not run backwards: an action's first reading is not before the last one made.
abbrev pub Timely : ℕ → Action → Type 0
Timely t (acquire key exclude now started checked bound_at) = t ≤ bound_at
Timely t (wake_up n checked bound_at) = t ≤ bound_at
Timely t (finish_request n c o) = (t ≤ c.now) × (c.now ≤ c.now_mono)
Timely t (probe i now e) = t ≤ now
Timely t (rotated now name ip ip_at ip_from) = t ≤ now
Timely t _ = Unit

-- The last reading.
abbrev pub after : ℕ → Action → ℕ
after t (acquire key exclude now started checked bound_at) = bound_at
after t (wake_up n checked bound_at) = bound_at
after t (finish_request n c o) = c.now_mono
after t (probe i now e) = now
after t (rotated now name ip ip_at ip_from) = now
after t _ = t

abbrev pub AllTimely : ℕ → List Action → Type 0
AllTimely t [] = Unit
AllTimely t (a ∷ actions) = Timely t a × AllTimely (after t a) actions

abbrev pub clock : ℕ → List Action → ℕ
clock t [] = t
clock t (a ∷ actions) = clock (after t a) actions

abbrev pub Labels : ℕ → List EgressState → Type 0
Labels t states = All (IsLabelled t) states

pub Labels-later : (t u : ℕ) (states : List EgressState) → t ≤ u → Labels t states → Labels u states
Labels-later t u states le h =
    All-imp (IsLabelled t) (IsLabelled u) states (λ s l live. l (omega arith)) h

Labels-lease_at :
    (t : ℕ) (w : World) (key : String) (now bound_at best : ℕ) (o : Option EgressState)
    → Labels t w.pool.states
    → Labels t (add_lease w (lease_at w.pool key now bound_at best o)).pool.states
unfolding lease_at add_lease take_slot
Labels-lease_at t w key now bound_at best none h = h
Labels-lease_at t w key now bound_at best (some s) h =
    All-modify (IsLabelled t) _ w.pool.states best (λ x l. l) h

pub Labels-proceed :
    (t : ℕ) (w : World) (key : String) (now bound_at : ℕ) (progress : Progress)
    → Labels t w.pool.states
    → Labels t (proceed w key now bound_at progress).pool.states
unfolding proceed finish
Labels-proceed t w key now bound_at exhausted h = h
Labels-proceed t w key now bound_at (choose []) h = unfold add_lease in h
Labels-proceed t w key now bound_at (choose (i ∷ is)) h = Labels-lease_at t w key now bound_at _ _ h
Labels-proceed t w key now bound_at (sleep s) h = h

pub Labels-wake_at :
    (t : ℕ) (w : World) (n checked bound_at : ℕ) (o : Option Waiting)
    → Labels t w.pool.states
    → Labels t (wake_at w n checked bound_at o).pool.states
unfolding wake_at
Labels-wake_at t w n checked bound_at none h = h
Labels-wake_at t w n checked bound_at (some s) h = Labels-proceed t _ s.key s.now bound_at _ h

Labels-release_at :
    (p : Pool) (c : Readings) (o : Outcome) (l : Lease) (found : Option EgressState)
    → get_elem? p.states l.bucket ≡ found
    → c.now ≤ c.now_mono
    → Labels c.now p.states
    → Labels c.now_mono (release_at p c o l found).states
Labels-release_at p c o l none e le h =
    unfold release_at in Labels-later c.now c.now_mono p.states le h
Labels-release_at p c o l (some s) e le h =
    subst (Labels c.now_mono) (sym (states-release_at p c o l s)) (
      All-modify (IsLabelled c.now_mono) _ p.states l.bucket
        (λ _ _.
          settle-IsLabelled p.config c o s le
            (All-get_elem? (IsLabelled c.now) p.states l.bucket {x = s} h e))
        (Labels-later c.now c.now_mono p.states le h))

pub Labels-release :
    (p : Pool) (c : Readings) (o : Outcome) (l : Lease)
    → c.now ≤ c.now_mono
    → Labels c.now p.states
    → Labels c.now_mono (release p c o l).0.states
Labels-release p c o l le h = elim (Bool-cases l.released) [
  | inl done ↦
      subst (λ (r : Pool × Lease). Labels c.now_mono r.0.states) (sym (release-done p c o l done))
        (Labels-later c.now c.now_mono p.states le h)
  | inr live ↦
      subst (λ (r : Pool × Lease). Labels c.now_mono r.0.states) (sym (release-live p c o l live))
        (Labels-release_at p c o l _ refl le h)
]

pub Labels-abandon :
    (t : ℕ) (p : Pool) (l : Lease) → Labels t p.states → Labels t (abandon p l).0.states
Labels-abandon t p l h = elim (Bool-cases l.released) [
  | inl done ↦ subst (λ (r : Pool × Lease). Labels t r.0.states) (sym (abandon-done p l done)) h
  | inr live ↦
      subst (λ (r : Pool × Lease). Labels t r.0.states) (sym (abandon-live p l live))
        (All-modify (IsLabelled t) give_back p.states l.bucket (λ x k. unfold give_back in k) h)
]

pub Labels-with_lease :
    (t u : ℕ) (w : World) (n : ℕ) (f : Lease → Pool × Lease) (ol : Option Lease)
    → Labels u w.pool.states
    → ((l : Lease) → Labels u (f l).0.states)
    → Labels u (with_lease w n f ol).pool.states
unfolding with_lease settle_lease
Labels-with_lease t u w n f none h hf = h
Labels-with_lease t u w n f (some l) h hf = hf l

pub Labels-probe_with :
    (matches_prefix : EgressSpec → String → Bool) (p : Pool) (i now : ℕ) (e : Probe)
    (found : Option EgressState)
    → get_elem? p.states i ≡ found
    → Labels now p.states
    → Labels now (probe_with matches_prefix p i now e found).states
unfolding probe_with
Labels-probe_with matches_prefix p i now e none at h = h
Labels-probe_with matches_prefix p i now e (some s) at h =
    All-modify (IsLabelled now) _ p.states i
      (λ _ _.
        probe_one-IsLabelled p.config matches_prefix now e s
          (All-get_elem? (IsLabelled now) p.states i {x = s} h at))
      h

pub Labels-flag_at :
    (t : ℕ) (p : Pool) (flag : Bool) (o : Option (ℕ × EgressState))
    → Labels t p.states
    → Labels t (flag_at p flag o).0.states
unfolding flag_at
Labels-flag_at t p flag none h = h
Labels-flag_at t p flag (some (i, s)) h =
    elim (Bool-cases (if s.rotating then flag else not flag)) [
      | inl same ↦ rw same h
      | inr other ↦ rw other (All-modify (IsLabelled t) (set_rotating flag) p.states i (λ x l. l) h)
    ]

pub Labels-rotated_at :
    (t : ℕ) (p : Pool) (now : ℕ) (ip ip_at : String) (ip_from : Option String)
    (o : Option (ℕ × EgressState))
    → Labels t p.states
    → Labels t (rotated_at p now ip ip_at ip_from o).0.states
unfolding rotated_at
Labels-rotated_at t p now ip ip_at ip_from none h = h
Labels-rotated_at t p now ip ip_at ip_from (some (i, s)) h =
    All-modify (IsLabelled t) _ p.states i (λ x l live. absurd (omega arith)) h
