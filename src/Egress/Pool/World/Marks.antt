-- ===== src/Egress/Pool/World/Marks.antt =====
-- The names of the buckets and their rotation marks along the actions of the pool.
use mathlib.Core.Option.{some-injective}
use proxy_opencode.Prelude.{
  ℕ, zero, suc, ◌≡◌, ◌∙◌, refl, sym, ap, String, Bool, Option, none, some, List, [], ◌∷◌, map,
  get_elem?, modify, arith, Bool-cases, inl, inr,
}
use proxy_opencode.Prelude.Dict.{Dict}
use proxy_opencode.Egress.Models.{EgressSpec, EgressState, Lease}
use proxy_opencode.Egress.Pool.{Config, Pool}
use proxy_opencode.Egress.Pool.Verdict.{Outcome, Readings, settle}
use proxy_opencode.Egress.Pool.Health.{Probe, no_answer, answer, probe_one}
use proxy_opencode.Egress.Pool.Select.{
  Waiting, Progress, exhausted, choose, sleep, finish, lease_at, take_slot,
}
use proxy_opencode.Egress.Pool.World.{
  World, Action, acquire, wake_up, cancel, set_tokens, finish_request, drop_request, probe,
  rotating, rotated, step, release, release_at, abandon, give_back, probe_with, probe_at, proceed,
  add_lease, wake_at, with_lease, settle_lease,
}
use proxy_opencode.Egress.Pool.World.Accounts.{states-begin}
use proxy_opencode.Egress.Pool.World.Settled.{
  states-release_at, release-done, release-live, abandon-done, abandon-live,
}

abbrev pub mark : EgressState → String × Bool
mark s = (s.spec.name, s.rotating)

abbrev pub marks : List EgressState → Dict Bool
marks states = map mark states

pub marks-modify :
    (f : EgressState → EgressState) (states : List EgressState) (i : ℕ)
    → ((s : EgressState) → mark (f s) ≡ mark s)
    → marks (modify states i f) ≡ marks states
marks-modify f [] i h = refl
marks-modify f (s ∷ states) zero h = ap (λ m. m ∷ marks states) (h s)
marks-modify f (s ∷ states) (suc i) h = ap (λ ms. mark s ∷ ms) (marks-modify f states i h)

pub marks-replace :
    (s s' : EgressState) (states : List EgressState) (i : ℕ)
    → get_elem? states i ≡ some s
    → mark s' ≡ mark s
    → marks (modify states i (λ _. s')) ≡ marks states
marks-replace s s' [] i e h = refl
marks-replace s s' (x ∷ states) zero e h =
    ap (λ m. m ∷ marks states) (h ∙ ap mark (sym (some-injective _ _ e)))
marks-replace s s' (x ∷ states) (suc i) e h =
    ap (λ ms. mark x ∷ ms) (marks-replace s s' states i e h)

settle-mark :
    (cfg : Config) (c : Readings) (o : Outcome) (s : EgressState)
    → mark (settle cfg c o s).0 ≡ mark s
unfolding settle
settle-mark cfg c o s = ground arith

probe_one-mark :
    (cfg : Config) (matches_prefix : EgressSpec → String → Bool) (now : ℕ) (e : Probe)
    (s : EgressState)
    → mark (probe_one cfg matches_prefix now e s).0 ≡ mark s
unfolding probe_one
probe_one-mark cfg matches_prefix now (no_answer fault) s = ground arith
probe_one-mark cfg matches_prefix now (answer a) s = ground arith

marks-lease_at :
    (w : World) (key : String) (now bound_at best : ℕ) (o : Option EgressState)
    → marks (add_lease w (lease_at w.pool key now bound_at best o)).pool.states
      ≡ marks w.pool.states
unfolding lease_at add_lease take_slot
marks-lease_at w key now bound_at best none = refl
marks-lease_at w key now bound_at best (some s) = marks-modify _ w.pool.states best (λ x. refl)

pub marks-proceed :
    (w : World) (key : String) (now bound_at : ℕ) (progress : Progress)
    → marks (proceed w key now bound_at progress).pool.states ≡ marks w.pool.states
unfolding proceed finish
marks-proceed w key now bound_at exhausted = refl
marks-proceed w key now bound_at (choose []) = unfold add_lease in refl
marks-proceed w key now bound_at (choose (i ∷ is)) = marks-lease_at w key now bound_at _ _
marks-proceed w key now bound_at (sleep s) = refl

marks-wake_at :
    (w : World) (n checked bound_at : ℕ) (o : Option Waiting)
    → marks (wake_at w n checked bound_at o).pool.states ≡ marks w.pool.states
unfolding wake_at
marks-wake_at w n checked bound_at none = refl
marks-wake_at w n checked bound_at (some s) = marks-proceed _ s.key s.now bound_at _

marks-release_at :
    (p : Pool) (c : Readings) (o : Outcome) (l : Lease) (found : Option EgressState)
    → get_elem? p.states l.bucket ≡ found
    → marks (release_at p c o l found).states ≡ marks p.states
marks-release_at p c o l none e = unfold release_at in refl
marks-release_at p c o l (some s) e =
    ap marks (states-release_at p c o l s)
    ∙ marks-replace s (settle p.config c o s).0 p.states l.bucket e (settle-mark p.config c o s)

marks-release :
    (p : Pool) (c : Readings) (o : Outcome) (l : Lease)
    → marks (release p c o l).0.states ≡ marks p.states
marks-release p c o l = elim (Bool-cases l.released) [
  | inl done ↦ ap (λ (r : Pool × Lease). marks r.0.states) (release-done p c o l done)
  | inr live ↦
      ap (λ (r : Pool × Lease). marks r.0.states) (release-live p c o l live)
      ∙ marks-release_at p c o l _ refl
]

marks-abandon : (p : Pool) (l : Lease) → marks (abandon p l).0.states ≡ marks p.states
marks-abandon p l = elim (Bool-cases l.released) [
  | inl done ↦ ap (λ (r : Pool × Lease). marks r.0.states) (abandon-done p l done)
  | inr live ↦
      ap (λ (r : Pool × Lease). marks r.0.states) (abandon-live p l live)
      ∙ marks-modify give_back p.states l.bucket (λ s. unfold give_back in refl)
]

marks-with_lease :
    (w : World) (n : ℕ) (f : Lease → Pool × Lease) (ol : Option Lease)
    → ((l : Lease) → marks (f l).0.states ≡ marks w.pool.states)
    → marks (with_lease w n f ol).pool.states ≡ marks w.pool.states
unfolding with_lease settle_lease
marks-with_lease w n f none h = refl
marks-with_lease w n f (some l) h = h l

marks-probe_with :
    (matches_prefix : EgressSpec → String → Bool) (p : Pool) (i now : ℕ) (e : Probe)
    (found : Option EgressState)
    → get_elem? p.states i ≡ found
    → marks (probe_with matches_prefix p i now e found).states ≡ marks p.states
unfolding probe_with
marks-probe_with matches_prefix p i now e none at = refl
marks-probe_with matches_prefix p i now e (some s) at =
    marks-replace s _ p.states i at (probe_one-mark p.config matches_prefix now e s)

-- An action of the requests and the probes.
abbrev pub IsTraffic : Action → Type 0
IsTraffic (rotating name flag) = ⊥
IsTraffic (rotated now name ip ip_at ip_from) = ⊥
IsTraffic _ = Unit

pub marks-step :
    (matches_prefix : EgressSpec → String → Bool) (w : World) (a : Action)
    → IsTraffic a
    → marks (step matches_prefix w a).pool.states ≡ marks w.pool.states
unfolding step probe_at
marks-step mp w (acquire key exclude now started checked bound_at) t =
    marks-proceed _ key now bound_at _
    ∙ ap marks (states-begin w.pool key exclude now started checked)
marks-step mp w (wake_up n checked bound_at) t = marks-wake_at w n checked bound_at _
marks-step mp w (cancel n) t = refl
marks-step mp w (set_tokens n tokens) t = refl
marks-step mp w (finish_request n c o) t =
    marks-with_lease w n _ _ (λ l. marks-release w.pool c o l)
marks-step mp w (drop_request n) t = marks-with_lease w n _ _ (λ l. marks-abandon w.pool l)
marks-step mp w (probe i now e) t = marks-probe_with mp w.pool i now e _ refl
marks-step mp w (rotating name flag) t = absurd t
marks-step mp w (rotated now name ip ip_at ip_from) t = absurd t
