-- ===== src/Zen/Walk.antt =====
-- The walk of a chat completion over the buckets.
use mathlib.Core.Path.{subst}
use proxy_opencode.Prelude.{
  ℕ, zero, suc, ◌-◌, ◌≤◌, ◌≡◌, refl, sym, ap, String, Bool, true, false, Option, none, some, List,
  [], ◌∷◌, All, arith, length, str_eq, min, any,
}
use proxy_opencode.Egress.Pool.Select.{among}
use proxy_opencode.Zen.{
  Exchange, Answer, Judgement, final, failed, judge, answer_of, has_failed, Ended, after_bucket,
  walk, chat, failover_max_attempts, all_egress_cordoned,
}

-- The name is none of those in the trail.
abbrev pub IsApart : String → List (String × Exchange) → Type 0
IsApart name trail = All (λ v. str_eq name v.0 ≡ false) trail

-- The buckets of the trail are pairwise different.
abbrev pub Distinct : List (String × Exchange) → Type 0
Distinct [] = Unit
Distinct ((name, e) ∷ trail) = IsApart name trail × Distinct trail

-- None of the names is in the list.
abbrev Avoids : List String → List (String × Exchange) → Type 0
Avoids tried trail = All (λ v. among tried v.0 ≡ false) trail

-- Every bucket of the trail but the last failed, and the answer is what the last yielded.
abbrev pub Explains : Bool → Answer → List (String × Exchange) → Type 0
Explains auth_free a [] = ⊥
Explains auth_free a ((name, e) ∷ []) = answer_of (judge auth_free e) ≡ a
Explains auth_free a ((name, e) ∷ v ∷ trail) =
    (has_failed (judge auth_free e) ≡ true) × Explains auth_free a (v ∷ trail)

-- The same, where an empty trail stands for a pool without a usable bucket.
abbrev pub Reports : Bool → Answer → List (String × Exchange) → Type 0
Reports auth_free a [] = a ≡ all_egress_cordoned
Reports auth_free a (v ∷ trail) = Explains auth_free a (v ∷ trail)

Explains-Reports :
    (auth_free : Bool) (a : Answer) (trail : List (String × Exchange))
    → Explains auth_free a trail
    → Reports auth_free a trail
Explains-Reports auth_free a [] h = absurd h
Explains-Reports auth_free a (v ∷ trail) h = h

among-nil : (name : String) → among [] name ≡ false
unfolding among any
among-nil name = refl

Avoids-IsApart :
    (name : String) (tried : List String) (trail : List (String × Exchange))
    → Avoids (name ∷ tried) trail
    → IsApart name trail × Avoids tried trail
unfolding among any
Avoids-IsApart name tried [] h = (tt, tt)
Avoids-IsApart name tried ((other, e) ∷ trail) h =
    let (apart, rest) = Avoids-IsApart name tried trail h.1 in
    let first = h.0 in ((ground arith, apart), (ground arith, rest))

Explains-cons :
    (auth_free : Bool) (a : Answer) (name : String) (e : Exchange)
    (trail : List (String × Exchange))
    → has_failed (judge auth_free e) ≡ true
    → Explains auth_free a trail
    → Explains auth_free a ((name, e) ∷ trail)
Explains-cons auth_free a name e [] bad h = absurd h
Explains-cons auth_free a name e (v ∷ trail) bad h = (bad, h)

module _ {W : Type 0} (auth_free : Bool) (acquire : W → String → List String → Option (String × W))
    (exchange : W → String → Exchange × W) where
  -- Without a session's key, a bucket that is to be left out is not acquired.
  abbrev pub LeavesOut : Type 0
  LeavesOut =
      (w : W) (exclude : List String) (name : String) (w' : W)
      → acquire w "" exclude ≡ some (name, w')
      → among exclude name ≡ false

  abbrev IsSound : ℕ → List String → Ended W → Type 0
  IsSound attempts tried r =
      Distinct r.trail
      × Avoids tried r.trail
      × (length r.trail ≤ attempts)
      × Explains auth_free r.answer r.trail

  after_bucket-IsSound :
      (attempts : ℕ) (tried : List String) (name : String) (e : Exchange) (r : Ended W)
      → among tried name ≡ false
      → has_failed (judge auth_free e) ≡ true
      → IsSound attempts (name ∷ tried) r
      → IsSound (suc attempts) tried (after_bucket (name, e) r)
  after_bucket-IsSound attempts tried name e r new bad (distinct, avoids, short, explains) =
      let (apart, rest) = Avoids-IsApart name tried r.trail avoids in
      (
        (apart, distinct),
        (new, rest),
        omega (arith, short),
        Explains-cons auth_free r.answer name e r.trail bad explains,
      )

  stop-IsSound :
      (attempts : ℕ) (tried : List String) (w : W) (name : String) (e : Exchange) (a : Answer)
      → among tried name ≡ false
      → answer_of (judge auth_free e) ≡ a
      → IsSound (suc attempts) tried (record { answer = a; trail = (name, e) ∷ []; state = w })
  stop-IsSound attempts tried w name e a new same = ((tt, tt), (new, tt), omega arith, same)

  among-cons :
      (name other : String) (tried : List String)
      → among (name ∷ tried) other ≡ false
      → among tried other ≡ false
  unfolding among any
  among-cons name other tried h = ground arith

  -- The bucket did not answer; another one may be acquired.
  next-IsSound :
      (n : ℕ) (tried : List String) (w : W) (name : String) (e : Exchange) (a : Answer)
      (o : Option (String × W))
      → among tried name ≡ false
      → judge auth_free e ≡ failed a
      → ((next : String) (w' : W)
          → o ≡ some (next, w')
          → IsSound
              (suc n)
              (name ∷ tried)
              (walk auth_free acquire exchange (suc n) (name ∷ tried) w' next))
      → IsSound (suc (suc n)) tried (elim o [
        | none ↦ record { answer = a; trail = (name, e) ∷ []; state = w }
        | some (next, w') ↦
            after_bucket (name, e) (walk auth_free acquire exchange (suc n) (name ∷ tried) w' next)
      ])
  next-IsSound n tried w name e a none new bad later =
      stop-IsSound (suc n) tried w name e a new (ap answer_of bad)
  next-IsSound n tried w name e a (some (next, w')) new bad later =
      after_bucket-IsSound (suc n) tried name e
        (walk auth_free acquire exchange (suc n) (name ∷ tried) w' next) new (ap has_failed bad)
        (later next w' refl)

  judged-IsSound :
      (n : ℕ) (tried : List String) (w : W) (name : String) (e : Exchange) (j : Judgement)
      (go_on : Answer → Ended W)
      → among tried name ≡ false
      → judge auth_free e ≡ j
      → ((a : Answer) → judge auth_free e ≡ failed a → IsSound (suc n) tried (go_on a))
      → IsSound (suc n) tried (elim j [
        | final a ↦ record { answer = a; trail = (name, e) ∷ []; state = w }
        | failed a ↦ go_on a
      ])
  judged-IsSound n tried w name e (final a) go_on new same h =
      stop-IsSound n tried w name e a new (ap answer_of same)
  judged-IsSound n tried w name e (failed a) go_on new same h = h a same

  walk-IsSound :
      (left : ℕ) (tried : List String) (w : W) (name : String)
      → LeavesOut
      → among tried name ≡ false
      → IsSound (suc left) tried (walk auth_free acquire exchange (suc left) tried w name)
  unfolding walk
  walk-IsSound zero tried w name fresh new =
      let (e, w') = exchange w name in
      judged-IsSound 0 tried w' name e (judge auth_free e) _ new refl
        (λ a bad. stop-IsSound 0 tried w' name e a new (ap answer_of bad))
  walk-IsSound (suc n) tried w name fresh new =
      let (e, w') = exchange w name in
      judged-IsSound (suc n) tried w' name e (judge auth_free e) _ new refl (λ a bad.
        next-IsSound n tried w' name e a (acquire w' "" (name ∷ tried)) new bad (λ next w'' got.
          walk-IsSound n (name ∷ tried) w'' next fresh (fresh w' (name ∷ tried) next w'' got)))

  first-IsSound :
      (size : ℕ) (w : W) (name : String)
      → LeavesOut
      → 1 ≤ size
      → IsSound (min size 4) [] (walk auth_free acquire exchange (min size 4) [] w name)
  first-IsSound size w name fresh some_bucket =
      let n : (k : ℕ) × (min size 4 ≡ suc k) = (min size 4 - 1, omega arith) in
      subst (λ m. IsSound m [] (walk auth_free acquire exchange m [] w name)) (sym n.1)
        (walk-IsSound n.0 [] w name fresh (among-nil name))

  -- A chat completion tries no bucket twice and at most as many as the pool has, and at most four.
  -- Its answer is what the last bucket yielded, and every bucket before that one failed; with no
  -- bucket tried, all were cordoned. The condition on `acquire` is that it keeps to `exclude`.
  pub chat_walks_once :
      (size : ℕ) (session_key : String) (w : W)
      → LeavesOut
      → 1 ≤ size
      → let r = chat auth_free acquire exchange size session_key w in
        Distinct r.trail × (length r.trail ≤ min size 4) × Reports auth_free r.answer r.trail
  unfolding chat failover_max_attempts
  chat_walks_once size key w fresh some_bucket = of (acquire w key [])
    where
      of :
          (o : Option (String × W))
          → let r : Ended W = elim o [
            | none ↦ record { answer = all_egress_cordoned; trail = []; state = w }
            | some (name, w') ↦ walk auth_free acquire exchange (min size 4) [] w' name
          ] in
            Distinct r.trail × (length r.trail ≤ min size 4) × Reports auth_free r.answer r.trail
      of none = (tt, omega arith, refl)
      of (some (name, w')) =
          let (distinct, _, short, explains) = first-IsSound size w' name fresh some_bucket in
          (distinct, short, Explains-Reports auth_free _ _ explains)
