-- ===== src/Egress/Pool/Select/Tiers.antt =====
-- The tiers of `acquire` against a rank of each bucket, computed from its state alone.
use mathlib.Core.Path.{fun_ext, subst, ◌∙◌}
use native.Mathlib.Nat.{zero-add}
use proxy_opencode.Prelude.{
  ℕ, zero, suc, ◌+◌, ◌≤◌, ◌<◌, ◌≡◌, inl, inr, refl, sym, String, Bool, true, false, not, ◌&&◌, some,
  List, [], ◌∷◌, map, ◌==◌, get_elem?, All, All-imp, Bool-cases, arith, if◌then◌else◌,
}
use proxy_opencode.Egress.Models.{EgressState, cordoned, cooling_down}
use proxy_opencode.Egress.Pool.{Config}
use proxy_opencode.Egress.Pool.Select.{
  positions, among, last_resort, tier_tests, first_tier, usable,
}

-- 0 to 4 for the tiers in the order of their preference, 5 for a bucket that is in none: one that
-- is cordoned, or healthy and in a rotation.
unfoldable pub rank : Config → ℕ → EgressState → ℕ
rank cfg now s =
    if cordoned s now
    then 5
    else if not s.healthy
    then 4
    else if s.rotating
    then 5
    else (if last_resort cfg s then 2 else 0) + (if cooling_down s now then 1 else 0)

abbrev has_rank : Config → ℕ → ℕ → EgressState → Bool
has_rank cfg now k s = rank cfg now s == k

five_eq :
    (f g h k l f' g' h' k' l' : EgressState → Bool)
    → f ≡ f'
    → g ≡ g'
    → h ≡ h'
    → k ≡ k'
    → l ≡ l'
    → ◌≡◌ {A = List (EgressState → Bool)} (f ∷ g ∷ h ∷ k ∷ l ∷ []) (f' ∷ g' ∷ h' ∷ k' ∷ l' ∷ [])
five_eq f g h k l f' g' h' k' l' a b c d e = cc

-- The tests of the tiers are the five ranks.
tier_tests-eq-rank :
    (cfg : Config) (now : ℕ) → tier_tests cfg now ≡ map (has_rank cfg now) (0 ∷ 1 ∷ 2 ∷ 3 ∷ 4 ∷ [])
unfolding tier_tests rank cordoned cooling_down
tier_tests-eq-rank cfg now =
    five_eq _ _ _ _ _ _ _ _ _ _ (fun_ext λ s. ground arith) (fun_ext λ s. ground arith)
      (fun_ext λ s. ground arith) (fun_ext λ s. ground arith) (fun_ext λ s. ground arith)

-- The positions name the states that pass the test, and no position means that none passes.
module _ (p : EgressState → Bool) where
  abbrev Passes : ℕ → List EgressState → ℕ → Type 0
  Passes b states i =
      (j : ℕ) × (s : EgressState) × (i ≡ b + j) × (get_elem? states j ≡ some s) × (p s ≡ true)

  positions-Passes :
      (b : ℕ) (states : List EgressState) → All (Passes b states) (positions p b states)
  unfolding positions
  positions-Passes b [] = tt
  positions-Passes b (s ∷ states) =
      let later =
        All-imp (Passes (suc b) states) (Passes b (s ∷ states)) (positions p (suc b) states)
          (λ i h. (suc h.0, h.1, omega (arith, h.2), h.3, h.4)) (positions-Passes (suc b) states) in
      elim (Bool-cases (p s)) [
        | inl e ↦ rw e ((0, s, omega arith, refl, e), later)
        | inr e ↦ rw e later
      ]

  positions-nil :
      (b : ℕ) (states : List EgressState)
      → positions p b states ≡ []
      → All (λ s. p s ≡ false) states
  unfolding positions
  positions-nil b [] h = tt
  positions-nil b (s ∷ states) h = ground (arith, positions-nil (suc b) states)

module _ (cfg : Config) (exclude : List String) (now : ℕ) (states : List EgressState) where
  -- Whether the retry walk may take the bucket.
  abbrev pub open_to : EgressState → Bool
  open_to s = not (among exclude s.spec.name)

  -- The position names a bucket of the given rank that the walk may take.
  abbrev pub AtRank : ℕ → ℕ → Type 0
  AtRank r i =
      (s : EgressState) × (get_elem? states i ≡ some s)
      × (rank cfg now s ≡ r)
      × (among exclude s.spec.name ≡ false)

  -- Every bucket that the walk may take has at least the given rank.
  abbrev pub NoneBelow : ℕ → List EgressState → Type 0
  NoneBelow r = All (λ s. among exclude s.spec.name ≡ false → r ≤ rank cfg now s)

  abbrev pub Best : List ℕ → Type 0
  Best [] = NoneBelow 5 states
  Best (i ∷ is) = (r : ℕ) × (r < 5) × NoneBelow r states × All (AtRank r) (i ∷ is)

  abbrev ranks_from : ℕ → ℕ → List ℕ
  ranks_from k zero = []
  ranks_from k (suc n) = k ∷ ranks_from (suc k) n

  abbrev tier_test : ℕ → EgressState → Bool
  tier_test k s = has_rank cfg now k s && not (among exclude s.spec.name)

  AtRank-positions : (k : ℕ) → All (AtRank k) (positions (tier_test k) 0 states)
  AtRank-positions k =
      All-imp (Passes (tier_test k) 0 states) (AtRank k) (positions (tier_test k) 0 states)
        (λ i (j, s, at, found, passes). (
          s,
          subst (λ m. get_elem? states m ≡ some s) (sym (at ∙ zero-add j)) found,
          ground arith,
          ground arith,
        ))
        (positions-Passes (tier_test k) 0 states)

  NoneBelow-suc :
      (k : ℕ) (ss : List EgressState)
      → All (λ s. tier_test k s ≡ false) ss
      → NoneBelow k ss
      → NoneBelow (suc k) ss
  NoneBelow-suc k [] h low = tt
  NoneBelow-suc k (s ∷ ss) h low = (λ o. ground arith, NoneBelow-suc k ss h.1 low.1)

  pick_tier :
      (k : ℕ) (tier rest : List ℕ)
      → k < 5
      → NoneBelow k states
      → All (AtRank k) tier
      → (tier ≡ [] → Best rest)
      → Best (elim tier [ [] ↦ rest | i ∷ is ↦ i ∷ is ])
  pick_tier k [] rest lt low h f = f refl
  pick_tier k (i ∷ is) rest lt low h f = (k, lt, low, h)

  Best-first_tier :
      (k n : ℕ)
      → k + n ≡ 5
      → NoneBelow k states
      → Best (first_tier exclude states (map (has_rank cfg now) (ranks_from k n)))
  unfolding first_tier
  Best-first_tier k zero h low = subst (λ r. NoneBelow r states) (omega arith) low
  Best-first_tier k (suc n) h low =
      pick_tier k (positions (tier_test k) 0 states) _ (omega arith) low (AtRank-positions k) (λ e.
        Best-first_tier (suc k) n (omega arith)
          (NoneBelow-suc k states (positions-nil (tier_test k) 0 states e) low))

  NoneBelow-zero : (ss : List EgressState) → NoneBelow 0 ss
  NoneBelow-zero [] = tt
  NoneBelow-zero (s ∷ ss) = (λ _. omega arith, NoneBelow-zero ss)

  -- What `acquire` may take: with `r` the least rank of a bucket outside `exclude`, the list holds
  -- such buckets of rank `r` and no others; it is empty only if every bucket outside `exclude` is
  -- cordoned, or healthy and in a rotation.
  pub usable-Best : Best (usable cfg exclude now states)
  unfolding usable
  usable-Best =
      rw (tier_tests-eq-rank cfg now) (Best-first_tier 0 5 (omega arith) (NoneBelow-zero states))
