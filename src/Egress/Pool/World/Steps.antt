-- ===== src/Egress/Pool/World/Steps.antt =====
-- The books of the pool over its actions.
use mathlib.Core.Path.{◌∙◌, subst}
use mathlib.Core.Option.{some-injective}
use proxy_opencode.Prelude.{
  ℕ, zero, suc, ◌≡◌, inl, inr, refl, sym, ap, String, Bool, not, Option, none, some, List, [], ◌∷◌,
  get_elem?, All-erase_idx, All-modify, All-get_elem?, Bool-cases, arith, if◌then◌else◌, map,
}
use proxy_opencode.Egress.Models.{EgressSpec, EgressState, Lease, fresh}
use proxy_opencode.Egress.Pool.{Config, Pool, new}
use proxy_opencode.Egress.Pool.Verdict.{Outcome, Readings, settle}
use proxy_opencode.Egress.Pool.Health.{Probe, probe_one, set_rotating, rotation_success}
use proxy_opencode.Egress.Pool.Health.Laws.{probe_one-frame}
use proxy_opencode.Egress.Pool.Affinity.{find_from}
use proxy_opencode.Egress.Pool.Select.{inflight_at}
use proxy_opencode.Egress.Pool.Select.Acquire.{find_from-found}
use proxy_opencode.Egress.Pool.World.{
  World, Action, acquire, wake_up, cancel, set_tokens, finish_request, drop_request, probe,
  rotating, rotated, step, run, start, release, release_at, abandon, mark_released, give_back,
  probe_with, flag_at, rotated_at, with_lease, settle_lease,
}
use proxy_opencode.Egress.Pool.World.Counts.{held, held-modify_same}
use proxy_opencode.Egress.Pool.World.Accounts.{
  Accounts, Accounts-change, Accounts-release, Accounts-acquire, Accounts-wake_at,
}
use proxy_opencode.Egress.Pool.World.Settled.{
  inflight-settle, states-release_at, settle_lease-same, release-done, release-live, abandon-done,
  abandon-live,
}

Accounts-settled :
    (w : World) (books : Accounts w) (n : ℕ) (c : Readings) (o : Outcome) (l : Lease)
    → get_elem? w.leases n ≡ some l
    → Accounts (settle_lease w n (release w.pool c o l))
Accounts-settled w books n c o l here = elim (Bool-cases l.released) [
  | inl done ↦
      subst (λ r. Accounts (settle_lease w n r)) (sym (release-done w.pool c o l done))
        (subst Accounts (sym (settle_lease-same w n l here)) books)
  | inr live ↦
      let (s, found) = All-get_elem? _ w.leases n {x = l} books.leases here in
      subst (λ r. Accounts (settle_lease w n r))
        (sym (
          release-live w.pool c o l live
          ∙ ap (λ t. (release_at w.pool c o l t, mark_released l)) found))
        (Accounts-release w books l.bucket s (λ _. (settle w.pool.config c o s).0) found _ n l
          (mark_released l) (states-release_at w.pool c o l s) (inflight-settle w.pool.config c o s)
          here live (unfold mark_released in refl) refl (unfold mark_released in refl))
]

Accounts-abandoned :
    (w : World) (books : Accounts w) (n : ℕ) (l : Lease)
    → get_elem? w.leases n ≡ some l
    → Accounts (settle_lease w n (abandon w.pool l))
Accounts-abandoned w books n l here = elim (Bool-cases l.released) [
  | inl done ↦
      subst (λ r. Accounts (settle_lease w n r)) (sym (abandon-done w.pool l done))
        (subst Accounts (sym (settle_lease-same w n l here)) books)
  | inr live ↦
      let (s, found) = All-get_elem? _ w.leases n {x = l} books.leases here in
      subst (λ r. Accounts (settle_lease w n r)) (sym (abandon-live w.pool l live))
        (Accounts-release w books l.bucket s give_back found _ n l (mark_released l) refl
          (unfold give_back in refl) here live (unfold mark_released in refl) refl
          (unfold mark_released in refl))
]

Accounts-finish_request :
    (w : World) (books : Accounts w) (n : ℕ) (c : Readings) (o : Outcome) (ol : Option Lease)
    → get_elem? w.leases n ≡ ol
    → Accounts (with_lease w n (release w.pool c o) ol)
unfolding with_lease
Accounts-finish_request w books n c o none here = books
Accounts-finish_request w books n c o (some l) here = Accounts-settled w books n c o l here

Accounts-drop_request :
    (w : World) (books : Accounts w) (n : ℕ) (ol : Option Lease)
    → get_elem? w.leases n ≡ ol
    → Accounts (with_lease w n (abandon w.pool) ol)
unfolding with_lease
Accounts-drop_request w books n none here = books
Accounts-drop_request w books n (some l) here = Accounts-abandoned w books n l here

Accounts-probe :
    (w : World) (books : Accounts w) (matches_prefix : EgressSpec → String → Bool) (i now : ℕ)
    (e : Probe) (o : Option EgressState)
    → get_elem? w.pool.states i ≡ o
    → Accounts (record w { pool = probe_with matches_prefix w.pool i now e o })
unfolding probe_with
Accounts-probe w books matches_prefix i now e none found = books
Accounts-probe w books matches_prefix i now e (some s) found =
    Accounts-change w books i s (λ _. (probe_one w.pool.config matches_prefix now e s).0) found _
      refl (probe_one-frame w.pool.config matches_prefix now e s).0

-- A bucket that was found by its name stands at its position.
found_at :
    (name : String) (states : List EgressState) {i : ℕ} {s : EgressState}
    → find_from name 0 states ≡ some (i, s)
    → get_elem? states i ≡ some s
found_at name states {i} {s} e =
    let (j, p, q) = find_from-found name 0 states {i = i} {s = s} e in
    subst (λ m. get_elem? states m ≡ some s) (omega (arith, p)) q

-- What a look-up by name found is a bucket of the pool.
abbrev pub IsFound : List EgressState → Option (ℕ × EgressState) → Type 0
IsFound states none = Unit
IsFound states (some (i, s)) = get_elem? states i ≡ some s

pub find_from-IsFound :
    (name : String) (states : List EgressState) (o : Option (ℕ × EgressState))
    → find_from name 0 states ≡ o
    → IsFound states o
find_from-IsFound name states none e = tt
find_from-IsFound name states (some (i, s)) e = found_at name states {i = i} {s = s} e

Accounts-rotating :
    (w : World) (books : Accounts w) (flag : Bool) (o : Option (ℕ × EgressState))
    → IsFound w.pool.states o
    → Accounts (record w { pool = (flag_at w.pool flag o).0 })
unfolding flag_at
Accounts-rotating w books flag none found = books
Accounts-rotating w books flag (some (i, s)) found =
    elim (Bool-cases (if s.rotating then flag else not flag)) [
      | inl same ↦ rw same books
      | inr other ↦ rw other (Accounts-change w books i s (set_rotating flag) found _ refl refl)
    ]

Accounts-rotated :
    (w : World) (books : Accounts w) (now : ℕ) (ip ip_at : String) (ip_from : Option String)
    (o : Option (ℕ × EgressState))
    → IsFound w.pool.states o
    → Accounts (record w { pool = (rotated_at w.pool now ip ip_at ip_from o).0 })
unfolding rotated_at
Accounts-rotated w books now ip ip_at ip_from none found = books
Accounts-rotated w books now ip ip_at ip_from (some (i, s)) found =
    Accounts-change w books i s (λ _. (rotation_success now ip ip_at ip_from s).0) found _ refl refl

module _ (matches_prefix : EgressSpec → String → Bool) where
  -- Every action keeps the books.
  Accounts-step : (w : World) (a : Action) → Accounts w → Accounts (step matches_prefix w a)
  unfolding step
  Accounts-step w (acquire key exclude now started checked bound_at) books =
      Accounts-acquire w books key exclude now started checked bound_at
  Accounts-step w (wake_up n checked bound_at) books =
      Accounts-wake_at w books n checked bound_at _ refl
  Accounts-step w (cancel n) books = record {
    exact = books.exact;
    leases = books.leases;
    sleepers = All-erase_idx _ n w.sleepers books.sleepers;
  }
  Accounts-step w (set_tokens n tokens) books = record {
    exact = λ i. books.exact i ∙ sym (held-modify_same i w.leases n _ (λ _. refl));
    leases = All-modify _ _ w.leases n (λ _ h. h) books.leases;
    sleepers = books.sleepers;
  }
  Accounts-step w (finish_request n c o) books = Accounts-finish_request w books n c o _ refl
  Accounts-step w (drop_request n) books = Accounts-drop_request w books n _ refl
  Accounts-step w (probe i now e) books = Accounts-probe w books matches_prefix i now e _ refl
  Accounts-step w (rotating name flag) books =
      Accounts-rotating w books flag _ (find_from-IsFound name w.pool.states _ refl)
  Accounts-step w (rotated now name ip ip_at ip_from) books =
      Accounts-rotated w books now ip ip_at ip_from _ (find_from-IsFound name w.pool.states _ refl)

  Accounts-run :
      (w : World) (actions : List Action) → Accounts w → Accounts (run matches_prefix w actions)
  unfolding run
  Accounts-run w [] books = books
  Accounts-run w (a ∷ actions) books =
      Accounts-run (step matches_prefix w a) actions (Accounts-step w a books)

-- A new pool has no request in flight.
fresh-idle : (specs : List EgressSpec) (i : ℕ) → inflight_at (map fresh specs) i ≡ 0
unfolding inflight_at fresh
fresh-idle [] i = refl
fresh-idle (spec ∷ specs) zero = refl
fresh-idle (spec ∷ specs) (suc i) = fresh-idle specs i

pub states-new :
    (specs : List EgressSpec) (config : Config) (observed : Bool) {p : Pool}
    → new specs config observed ≡ some p
    → p.states ≡ map fresh specs
unfolding new
states-new [] config observed h = cc
states-new (spec ∷ specs) config observed h =
    sym (ap (λ (p : Pool). p.states) (some-injective _ _ h))

pub Accounts-start :
    (specs : List EgressSpec) (config : Config) (observed : Bool) {p : Pool}
    → new specs config observed ≡ some p
    → Accounts (start p)
Accounts-start specs config observed {p} h = record {
  exact = λ i.
      ap (λ ss. inflight_at ss i) (states-new specs config observed {p = p} h)
      ∙ fresh-idle specs i
      ∙ (unfold held in refl);
  leases = tt;
  sleepers = tt;
}

-- From a new pool, whatever the interleaving of the requests, the probes and the rotations, a
-- bucket has as many requests in flight as there are leases on it that were neither released nor
-- abandoned.
pub inflight_exact :
    (matches_prefix : EgressSpec → String → Bool) (specs : List EgressSpec) (config : Config)
    (observed : Bool) {p : Pool} (actions : List Action) (i : ℕ)
    → new specs config observed ≡ some p
    → let w = run matches_prefix (start p) actions in inflight_at w.pool.states i ≡ held i w.leases
inflight_exact matches_prefix specs config observed {p} actions i h =
    (Accounts-run matches_prefix (start p) actions
        (Accounts-start specs config observed {p = p} h)).exact
      i
