-- ===== src/Egress/Pool/World/Accounts.antt =====
-- The books of the pool: the requests in flight of a bucket, and the leases held on it.
use mathlib.Core.Path.{◌∙◌, subst}
use proxy_opencode.Prelude.{
  ℕ, zero, suc, ◌+◌, ◌-◌, ◌≡◌, refl, sym, ap, String, true, false, Option, none, some, List, [],
  ◌∷◌, get_elem?, modify, erase_idx, All, All-append, All-imp, All-erase_idx, All-modify,
  All-get_elem?, arith,
}
use proxy_opencode.Prelude.Dict.{Dict}
use proxy_opencode.Egress.Models.{EgressState, Lease, new_lease}
use proxy_opencode.Egress.Pool.{Pool}
use proxy_opencode.Egress.Pool.Select.{
  Waiting, Progress, exhausted, choose, sleep, begin, begin_with, begin_on, wake, finish,
  inflight_at, take_slot, lease_at,
}
use proxy_opencode.Egress.Pool.Select.Acquire.{offered, begin-Serves, offered-wake}
use proxy_opencode.Egress.Pool.World.{World, proceed, add_lease, wake_at, settle_lease}
use proxy_opencode.Egress.Pool.World.Counts.{
  held, held-append, held-release, inflight_at-modify, inflight_at-found,
}

-- The position names a bucket.
abbrev pub InPool : List EgressState → ℕ → Type 0
InPool states i = (s : EgressState) × (get_elem? states i ≡ some s)

-- The pool's books: each bucket's requests in flight are the leases held on it, and every lease and
-- every sleeping request names buckets of the pool.
pub record Accounts (w : World) : Type 0 where
  pub exact : (i : ℕ) → inflight_at w.pool.states i ≡ held i w.leases
  pub leases : All (λ l. InPool w.pool.states l.bucket) w.leases
  pub sleepers : All (λ s. All (InPool w.pool.states) s.rotated) w.sleepers

-- A change of a state keeps every position.
InPool-modify :
    (states : List EgressState) (b i : ℕ) (f : EgressState → EgressState)
    → InPool states i
    → InPool (modify states b f) i
InPool-modify [] b i f h = h
InPool-modify (u ∷ states) zero zero f h = (f u, refl)
InPool-modify (u ∷ states) zero (suc i) f h = h
InPool-modify (u ∷ states) (suc b) zero f h = h
InPool-modify (u ∷ states) (suc b) (suc i) f h = InPool-modify states b i f h

InPool-moved :
    (states states' : List EgressState) (b : ℕ) (f : EgressState → EgressState)
    → states' ≡ modify states b f
    → (i : ℕ) → InPool states i
    → InPool states' i
InPool-moved states states' b f e i h =
    subst (λ ss. InPool ss i) (sym e) (InPool-modify states b i f h)

-- Every step changes the states, if at all, by one change of one state.
module _ (w : World) (books : Accounts w) (b : ℕ) (s : EgressState) (f : EgressState → EgressState)
    (found : get_elem? w.pool.states b ≡ some s) where
  -- A change that leaves the requests in flight alone.
  pub Accounts-change :
      (p : Pool)
      → p.states ≡ modify w.pool.states b f
      → (f s).inflight ≡ s.inflight
      → Accounts (record w { pool = p })
  Accounts-change p e same = record {
    exact = λ i. ground (
      arith,
      ap (λ ss. inflight_at ss i) e,
      inflight_at-modify w.pool.states b i s (f s) f found refl,
      inflight_at-found w.pool.states b s found,
      books.exact i,
    );
    leases =
        All-imp _ _ w.leases (λ l. InPool-moved w.pool.states p.states b f e l.bucket) books.leases;
    sleepers =
        All-imp _ _ w.sleepers
          (λ l. All-imp _ _ l.rotated (InPool-moved w.pool.states p.states b f e)) books.sleepers;
  }

  -- A lease on the bucket is released.
  pub Accounts-release :
      (p : Pool) (n : ℕ) (l l' : Lease)
      → p.states ≡ modify w.pool.states b f
      → (f s).inflight ≡ s.inflight - 1
      → get_elem? w.leases n ≡ some l
      → l.released ≡ false
      → l'.released ≡ true
      → l.bucket ≡ b
      → l'.bucket ≡ b
      → Accounts (settle_lease w n (p, l'))
  unfolding settle_lease
  Accounts-release p n l l' e less here live done at_b at_b' = record {
    exact = λ i. ground (
      arith,
      ap (λ ss. inflight_at ss i) e,
      inflight_at-modify w.pool.states b i s (f s) f found refl,
      inflight_at-found w.pool.states b s found,
      books.exact i,
      held-release i w.leases n l l' here live done,
    );
    leases =
        All-modify _ (λ _. l') w.leases n
          (λ _ _.
            subst (InPool p.states) (sym at_b')
              (InPool-moved w.pool.states p.states b f e b (s, found)))
          (All-imp _ _ w.leases (λ k. InPool-moved w.pool.states p.states b f e k.bucket)
            books.leases);
    sleepers =
        All-imp _ _ w.sleepers
          (λ l. All-imp _ _ l.rotated (InPool-moved w.pool.states p.states b f e)) books.sleepers;
  }

-- A lease on the bucket is added.
Accounts-add :
    (w : World) (books : Accounts w) (b : ℕ) (s : EgressState) (p : Pool)
    → get_elem? w.pool.states b ≡ some s
    → p.states ≡ modify w.pool.states b (λ t. record t { inflight = t.inflight + 1 })
    → Accounts (add_lease w (some (new_lease b, p)))
unfolding add_lease new_lease
Accounts-add w books b s p found e =
    let f = λ (t : EgressState). record t { inflight = t.inflight + 1 } in
    record {
      exact = λ i. ground (
        arith,
        ap (λ ss. inflight_at ss i) e,
        inflight_at-modify w.pool.states b i s (f s) f found refl,
        inflight_at-found w.pool.states b s found,
        books.exact i,
        held-append i w.leases (new_lease b),
      );
      leases =
          All-append _ w.leases (new_lease b ∷ [])
            (All-imp _ _ w.leases (λ k. InPool-moved w.pool.states p.states b f e k.bucket)
              books.leases)
            (InPool-moved w.pool.states p.states b f e b (s, found), tt);
      sleepers =
          All-imp _ _ w.sleepers
            (λ l. All-imp _ _ l.rotated (InPool-moved w.pool.states p.states b f e)) books.sleepers;
    }

Accounts-lease_at :
    (w : World) (books : Accounts w) (key : String) (now bound_at best : ℕ) (o : Option EgressState)
    → get_elem? w.pool.states best ≡ o
    → Accounts (add_lease w (lease_at w.pool key now bound_at best o))
unfolding lease_at
Accounts-lease_at w books key now bound_at best none e = unfold add_lease in books
Accounts-lease_at w books key now bound_at best (some s) e =
    Accounts-add w books best s _ e (unfold take_slot in refl)

Accounts-finish :
    (w : World) (books : Accounts w) (key : String) (now bound_at : ℕ) (is : List ℕ)
    → Accounts (add_lease w (finish w.pool key now bound_at is))
unfolding finish
Accounts-finish w books key now bound_at [] = unfold add_lease in books
Accounts-finish w books key now bound_at (i ∷ is) =
    Accounts-lease_at w books key now bound_at _ _ refl

Accounts-proceed :
    (w : World) (books : Accounts w) (key : String) (now bound_at : ℕ) (progress : Progress)
    → All (InPool w.pool.states) (offered progress)
    → Accounts (proceed w key now bound_at progress)
unfolding proceed
Accounts-proceed w books key now bound_at exhausted h = books
Accounts-proceed w books key now bound_at (choose is) h =
    Accounts-finish w books key now bound_at is
Accounts-proceed w books key now bound_at (sleep s) h = record {
  exact = books.exact;
  leases = books.leases;
  sleepers = All-append _ w.sleepers (s ∷ []) books.sleepers (h, tt);
}

-- A pool with the same states has the same books.
Accounts-states :
    (w : World) (books : Accounts w) (p : Pool)
    → p.states ≡ w.pool.states
    → Accounts (record w { pool = p })
Accounts-states w books p e = record {
  exact = λ i. ap (λ ss. inflight_at ss i) e ∙ books.exact i;
  leases = All-imp _ _ w.leases (λ l. subst (λ ss. InPool ss l.bucket) (sym e)) books.leases;
  sleepers =
      All-imp _ _ w.sleepers (λ l. All-imp _ _ l.rotated (λ i. subst (λ ss. InPool ss i) (sym e)))
        books.sleepers;
}

states-begin_on :
    (p : Pool) (key : String) (now started checked : ℕ) (d : Dict (String × ℕ)) (is : List ℕ)
    (bound : Option ℕ)
    → (begin_on p key now started checked d is bound).1.states ≡ p.states
unfolding begin_on
states-begin_on p key now started checked d is none = refl
states-begin_on p key now started checked d is (some b) = refl

states-begin_with :
    (p : Pool) (key : String) (now started checked : ℕ) (is : List ℕ)
    → (begin_with p key now started checked is).1.states ≡ p.states
unfolding begin_with
states-begin_with p key now started checked [] = refl
states-begin_with p key now started checked (i ∷ is) =
    states-begin_on p key now started checked _ (i ∷ is) _

pub states-begin :
    (p : Pool) (key : String) (exclude : List String) (now started checked : ℕ)
    → (begin p key exclude now started checked).1.states ≡ p.states
unfolding begin
states-begin p key exclude now started checked = states-begin_with p key now started checked _

pub Accounts-acquire :
    (w : World) (books : Accounts w) (key : String) (exclude : List String)
    (now started checked bound_at : ℕ)
    → let (progress, p) = begin w.pool key exclude now started checked in
      Accounts (proceed (record w { pool = p }) key now bound_at progress)
Accounts-acquire w books key exclude now started checked bound_at =
    let (progress, p) = begin w.pool key exclude now started checked in
    let e = states-begin w.pool key exclude now started checked in
    Accounts-proceed (record w { pool = p }) (Accounts-states w books p e) key now bound_at progress
      (All-imp _ _ (offered progress)
        (λ i (s, found, _, _). (s, ap (λ ss. get_elem? ss i) e ∙ found))
        (begin-Serves w.pool key exclude now started checked))

pub Accounts-wake_at :
    (w : World) (books : Accounts w) (n checked bound_at : ℕ) (o : Option Waiting)
    → get_elem? w.sleepers n ≡ o
    → Accounts (wake_at w n checked bound_at o)
unfolding wake_at
Accounts-wake_at w books n checked bound_at none e = books
Accounts-wake_at w books n checked bound_at (some s) e =
    Accounts-proceed (record w { sleepers = erase_idx n w.sleepers })
      (record {
        exact = books.exact;
        leases = books.leases;
        sleepers = All-erase_idx _ n w.sleepers books.sleepers;
      })
      s.key s.now bound_at (wake w.pool s checked)
      (offered-wake (InPool w.pool.states) w.pool s checked
        (All-get_elem? _ w.sleepers n {x = s} books.sleepers e))
