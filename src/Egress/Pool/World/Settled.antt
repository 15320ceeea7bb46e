-- ===== src/Egress/Pool/World/Settled.antt =====
-- `release` and `abandon` of a lease: the first verdict, and later ones.
use proxy_opencode.Prelude.{
  ℕ, ◌-◌, ◌≡◌, String, true, false, some, get_elem?, modify, modify_self, arith,
}
use proxy_opencode.Egress.Models.{EgressState, Lease}
use proxy_opencode.Egress.Pool.{Config, Pool}
use proxy_opencode.Egress.Pool.Verdict.{Outcome, Readings, settle}
use proxy_opencode.Egress.Pool.World.{
  World, update, notify, release, release_at, abandon, mark_released, give_back, settle_lease,
}

pub inflight-settle :
    (cfg : Config) (c : Readings) (o : Outcome) (s : EgressState)
    → (settle cfg c o s).0.inflight ≡ s.inflight - 1
unfolding settle
inflight-settle cfg c o s = ground arith

pub states-notify :
    (p : Pool) (name : String) (o : Outcome) (tokens : ℕ)
    → (notify p name o tokens).states ≡ p.states
unfolding notify
states-notify p name o tokens = ground arith

pub states-release_at :
    (p : Pool) (c : Readings) (o : Outcome) (l : Lease) (s : EgressState)
    → (release_at p c o l (some s)).states
      ≡ modify p.states l.bucket (λ _. (settle p.config c o s).0)
unfolding release_at update
states-release_at p c o l s = states-notify _ s.spec.name o l.tokens

pub settle_lease-same :
    (w : World) (n : ℕ) (l : Lease)
    → get_elem? w.leases n ≡ some l
    → settle_lease w n (w.pool, l) ≡ w
unfolding settle_lease
settle_lease-same w n l here = λ i. record w { leases = modify_self w.leases n l here i }

-- A second verdict on a lease changes nothing.
pub release-done :
    (p : Pool) (c : Readings) (o : Outcome) (l : Lease)
    → l.released ≡ true
    → release p c o l ≡ (p, l)
unfolding release
release-done p c o l done = ground arith

pub release-live :
    (p : Pool) (c : Readings) (o : Outcome) (l : Lease)
    → l.released ≡ false
    → release p c o l ≡ (release_at p c o l (get_elem? p.states l.bucket), mark_released l)
unfolding release
release-live p c o l live = ground arith

pub abandon-done : (p : Pool) (l : Lease) → l.released ≡ true → abandon p l ≡ (p, l)
unfolding abandon
abandon-done p l done = ground arith

pub abandon-live :
    (p : Pool) (l : Lease)
    → l.released ≡ false
    → abandon p l ≡ (record p { states = modify p.states l.bucket give_back }, mark_released l)
unfolding abandon
abandon-live p l live = ground arith

-- A lease is settled once: after `release` or `abandon`, neither changes the pool or the lease.
pub settled_once :
    (p : Pool) (c c' : Readings) (o o' : Outcome) (l : Lease)
    → let (q, k) = release p c o l in
      let (r, m) = abandon p l in
      (release q c' o' k ≡ (q, k))
      × (abandon q k ≡ (q, k))
      × (release r c' o' m ≡ (r, m))
      × (abandon r m ≡ (r, m))
settled_once p c c' o o' l =
    let k = (release p c o l).1 in
    let m = (abandon p l).1 in
    let done : k.released ≡ true = unfold release mark_released in ground arith in
    let done' : m.released ≡ true = unfold abandon mark_released in ground arith in
    (
      release-done _ c' o' k done,
      abandon-done _ k done,
      release-done _ c' o' m done',
      abandon-done _ m done',
    )
