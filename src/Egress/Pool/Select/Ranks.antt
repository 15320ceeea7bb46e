-- ===== src/Egress/Pool/Select/Ranks.antt =====
-- When `acquire` has nothing to offer, and how good the buckets are that it offers.
use mathlib.Core.Path.{subst}
use proxy_opencode.Prelude.{
  ℕ, ◌≤◌, ◌≡◌, ◌≢◌, ◌⊎◌, ◌↔◌, inl, inr, refl, sym, ap, String, Bool, true, false, Option, none,
  some, List, [], ◌∷◌, ◌==◌, str_eq, All, Bool-cases, arith, eq_iff, All-get_elem?, All-⊥,
}
use proxy_opencode.Prelude.Dict.{Dict}
use proxy_opencode.Egress.Models.{EgressState}
use proxy_opencode.Egress.Pool.{Config, Pool}
use proxy_opencode.Egress.Pool.Affinity.{sticky}
use proxy_opencode.Egress.Pool.Select.{
  Waiting, exhausted, begin, begin_with, begin_on, gate_round, gate, order, usable, among,
  inflight_at, live_at, rotate,
}
use proxy_opencode.Egress.Pool.Select.Tiers.{rank, AtRank, NoneBelow, Best, usable-Best}
use proxy_opencode.Egress.Pool.Select.Order.{rotate-All, sort_by-All}
use proxy_opencode.Egress.Pool.Select.Acquire.{offered, offered-begin_with}

sticky-no_key :
    (cfg : Config) (key : String) (now : ℕ) (states : List EgressState) (d : Dict (String × ℕ))
    → key ≡ ""
    → (sticky cfg key now states d).0 ≡ none
unfolding sticky
sticky-no_key cfg key now states d e = ground (arith, eq_iff key "")

offered-gate_round-nonempty :
    (free : List ℕ) (early : Bool) (w : Waiting)
    → w.rotated ≢ []
    → offered (gate_round free early w) ≢ []
unfolding gate_round
offered-gate_round-nonempty (i ∷ is) early w h e = cc
offered-gate_round-nonempty [] true w h e = h e
offered-gate_round-nonempty [] false w h e = h e

offered-gate-nonempty :
    (cfg : Config) (states : List EgressState) (key : String) (now started checked : ℕ)
    (is : List ℕ)
    → is ≢ []
    → offered (gate cfg states key now started checked is) ≢ []
unfolding gate
offered-gate-nonempty cfg states key now started checked is h =
    elim (Bool-cases (cfg.max_inflight == 0)) [
      | inl e ↦ rw e h
      | inr e ↦ rw e (offered-gate_round-nonempty _ _ _ h)
    ]

order-nonempty :
    (cfg : Config) (key : String) (now : ℕ) (d : Dict (String × ℕ)) (states : List EgressState)
    (rr : ℕ) (is : List ℕ)
    → is ≢ []
    → order cfg key now d states rr is ≢ []
unfolding order
order-nonempty cfg key now d states rr is h e =
    h (All-⊥ is (rotate-All (λ _. ⊥) rr is (unsorted (Bool-cases (str_eq key "")))))
  where
    unsorted : ((str_eq key "" ≡ true) ⊎ (str_eq key "" ≡ false)) → All (λ _. ⊥) (rotate rr is)
    unsorted (inl t) = subst (All (λ _. ⊥)) (sym (rw t at e)) tt
    unsorted (inr t) =
        sort_by-All (λ _. ⊥) (λ x. (live_at cfg now d states x, inflight_at states x))
          (rotate rr is) (subst (All (λ _. ⊥)) (sym (rw t at e)) tt)

begin_with-nil :
    (p : Pool) (key : String) (now started checked : ℕ)
    → (begin_with p key now started checked []).0 ≡ exhausted
unfolding begin_with
begin_with-nil p key now started checked = refl

begin_on-nonempty :
    (p : Pool) (key : String) (now started checked : ℕ) (d : Dict (String × ℕ)) (is : List ℕ)
    (bound : Option ℕ)
    → is ≢ []
    → offered (begin_on p key now started checked d is bound).0 ≢ []
unfolding begin_on
begin_on-nonempty p key now started checked d is (some b) h =
    offered-gate-nonempty p.config p.states key now started checked (b ∷ []) (λ e. cc)
begin_on-nonempty p key now started checked d is none h =
    offered-gate-nonempty p.config p.states key now started checked _
      (order-nonempty p.config key now d p.states p.rr is h)

begin_with-cons :
    (p : Pool) (key : String) (now started checked i : ℕ) (is : List ℕ)
    → offered (begin_with p key now started checked (i ∷ is)).0 ≢ []
unfolding begin_with
begin_with-cons p key now started checked i is =
    begin_on-nonempty p key now started checked _ (i ∷ is) _ (λ e. cc)

-- A call without a session, or with one that has no usable bound bucket, is offered only buckets
-- outside `exclude`, all of one rank, and no bucket outside `exclude` has a better one.
pub begin-AtRank :
    (p : Pool) (key : String) (exclude : List String) (now started checked : ℕ)
    → (key ≡ "") ⊎ ((sticky p.config key now p.states p.affinity).0 ≡ none)
    → (r : ℕ) × NoneBelow p.config exclude now p.states r p.states
      × All
          (AtRank p.config exclude now p.states r)
          (offered (begin p key exclude now started checked).0)
unfolding begin begin_with
begin-AtRank p key exclude now started checked unbound =
    within (usable p.config exclude now p.states) (usable-Best p.config exclude now p.states)
  where
    free : (sticky p.config key now p.states p.affinity).0 ≡ none
    free = elim unbound [ inl e ↦ sticky-no_key p.config key now p.states p.affinity e | inr e ↦ e ]

    within :
        (is : List ℕ)
        → Best p.config exclude now p.states is
        → (r : ℕ) × NoneBelow p.config exclude now p.states r p.states
          × All
              (AtRank p.config exclude now p.states r)
              (offered (begin_with p key now started checked is).0)
    within [] low = (5, low, tt)
    within (i ∷ is) (r, lt, low, h) = (
      r,
      low,
      offered-begin_with (AtRank p.config exclude now p.states r) p key now started checked (i ∷ is)
          h (λ j e. absurd (cc (e, free))),
    )

-- `acquire` raises `PoolExhausted` exactly when every bucket outside `exclude` is cordoned, or
-- healthy and in a rotation.
pub begin-exhausted :
    (p : Pool) (key : String) (exclude : List String) (now started checked : ℕ)
    → ((begin p key exclude now started checked).0 ≡ exhausted)
      ↔ NoneBelow p.config exclude now p.states 5 p.states
unfolding begin
begin-exhausted p key exclude now started checked =
    within (usable p.config exclude now p.states) (usable-Best p.config exclude now p.states)
  where
    within :
        (is : List ℕ)
        → Best p.config exclude now p.states is
        → ((begin_with p key now started checked is).0 ≡ exhausted)
          ↔ NoneBelow p.config exclude now p.states 5 p.states
    within [] low = (λ _. low, λ _. begin_with-nil p key now started checked)
    within (i ∷ is) (r, lt, low, h) = (
      λ e. absurd (begin_with-cons p key now started checked i is (ap offered e)),
      λ none_left.
          let (s, at, e, o) = h.0 in
          absurd (
            omega (
              arith,
              e,
              All-get_elem? (λ t. among exclude t.spec.name ≡ false → 5 ≤ rank p.config now t)
                  p.states i {x = s} none_left at o,
            )),
    )
