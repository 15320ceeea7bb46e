-- ===== src/Prelude/Lists.antt =====
-- Lists measured and indexed by native numbers, under the library's names, and the predicate that
-- holds of all elements of a list.
use Prim.Native.Nat.{ℕ, zero, suc, ◌+◌}
use mathlib.Core.Path.{◌≡◌, refl, sym, ap, subst}
use mathlib.Core.Logic.{inl, inr}
use mathlib.Core.Bool.{Bool, true, false}
use mathlib.Core.List.{List, [], ◌∷◌, ◌++◌}
use mathlib.Core.Option.{Option, none, some, some-injective}
use native.Mathlib.Omega.{arith}
use proxy_opencode.Prelude.Tests.{if◌then◌else◌, Bool-cases}

module _ {ℓ} {A : Type ℓ} where
  abbrev pub length : List A → ℕ
  length [] = 0
  length (x ∷ xs) = suc (length xs)

  abbrev pub get_elem? : List A → ℕ → Option A
  get_elem? [] i = none
  get_elem? (x ∷ xs) zero = some x
  get_elem? (x ∷ xs) (suc i) = get_elem? xs i

  -- A change out of bounds changes nothing.
  abbrev pub modify : List A → ℕ → (A → A) → List A
  modify [] i f = []
  modify (x ∷ xs) zero f = f x ∷ xs
  modify (x ∷ xs) (suc i) f = x ∷ modify xs i f

  abbrev pub take : ℕ → List A → List A
  take zero xs = []
  take (suc n) [] = []
  take (suc n) (x ∷ xs) = x ∷ take n xs

  abbrev pub drop : ℕ → List A → List A
  drop zero xs = xs
  drop (suc n) [] = []
  drop (suc n) (x ∷ xs) = drop n xs

  abbrev pub erase_idx : ℕ → List A → List A
  erase_idx n [] = []
  erase_idx zero (x ∷ xs) = xs
  erase_idx (suc n) (x ∷ xs) = x ∷ erase_idx n xs

  -- The elements that pass a Boolean test.
  unfoldable pub keep : (A → Bool) → List A → List A
  keep p [] = []
  keep p (x ∷ xs) = let rest = keep p xs in if p x then x ∷ rest else rest

  -- Is there an element that passes?
  unfoldable pub any : (A → Bool) → List A → Bool
  any p [] = false
  any p (x ∷ xs) = let rest = any p xs in if p x then true else rest

  -- The first element that passes.
  unfoldable pub find? : (A → Bool) → List A → Option A
  find? p [] = none
  find? p (x ∷ xs) = let rest = find? p xs in if p x then some x else rest

  pub length-modify : (xs : List A) (i : ℕ) (f : A → A) → length (modify xs i f) ≡ length xs
  length-modify [] i f = refl
  length-modify (x ∷ xs) zero f = refl
  length-modify (x ∷ xs) (suc i) f = ap suc (length-modify xs i f)

  pub length-append : (xs ys : List A) → length (xs ++ ys) ≡ length xs + length ys
  length-append [] ys = omega arith
  length-append (x ∷ xs) ys = omega (arith, length-append xs ys)

abbrev pub All {ℓ} : {A : Type ℓ} → (A → Type 0) → List A → Type 0
All P [] = Unit
All P (x ∷ xs) = P x × All P xs

module _ {ℓ} {A : Type ℓ} (P : A → Type 0) where
  pub All-append : (xs ys : List A) → All P xs → All P ys → All P (xs ++ ys)
  All-append [] ys h k = k
  All-append (x ∷ xs) ys h k = (h.0, All-append xs ys h.1 k)

  pub All-take : (n : ℕ) (xs : List A) → All P xs → All P (take n xs)
  All-take zero xs h = tt
  All-take (suc n) [] h = tt
  All-take (suc n) (x ∷ xs) h = (h.0, All-take n xs h.1)

  pub All-drop : (n : ℕ) (xs : List A) → All P xs → All P (drop n xs)
  All-drop zero xs h = h
  All-drop (suc n) [] h = tt
  All-drop (suc n) (x ∷ xs) h = All-drop n xs h.1

  -- What holds of both parts of a split list holds of the whole.
  pub All-take-drop : (n : ℕ) (xs : List A) → All P (take n xs) → All P (drop n xs) → All P xs
  All-take-drop zero xs h k = k
  All-take-drop (suc n) [] h k = tt
  All-take-drop (suc n) (x ∷ xs) h k = (h.0, All-take-drop n xs h.1 k)

  pub All-split : (xs ys : List A) → All P (xs ++ ys) → All P xs × All P ys
  All-split [] ys h = (tt, h)
  All-split (x ∷ xs) ys h = let (a, b) = All-split xs ys h.1 in ((h.0, a), b)

  pub All-erase_idx : (n : ℕ) (xs : List A) → All P xs → All P (erase_idx n xs)
  All-erase_idx n [] h = tt
  All-erase_idx zero (x ∷ xs) h = h.1
  All-erase_idx (suc n) (x ∷ xs) h = (h.0, All-erase_idx n xs h.1)

  -- One element is changed.
  pub All-modify :
      (f : A → A) (xs : List A) (n : ℕ)
      → ((x : A) → P x → P (f x))
      → All P xs
      → All P (modify xs n f)
  All-modify f [] n hf h = tt
  All-modify f (x ∷ xs) zero hf h = (hf x h.0, h.1)
  All-modify f (x ∷ xs) (suc n) hf h = (h.0, All-modify f xs n hf h.1)

  pub All-keep : (p : A → Bool) (xs : List A) → All P xs → All P (keep p xs)
  unfolding keep
  All-keep p [] h = tt
  All-keep p (x ∷ xs) h = elim (Bool-cases (p x)) [
    | inl e ↦ rw e (h.0, All-keep p xs h.1)
    | inr e ↦ rw e (All-keep p xs h.1)
  ]

pub All-imp {ℓ} :
    {A : Type ℓ} (P Q : A → Type 0) (xs : List A) → ((x : A) → P x → Q x) → All P xs → All Q xs
All-imp P Q [] f h = tt
All-imp P Q (x ∷ xs) f h = (f x h.0, All-imp P Q xs f h.1)

module _ {ℓ} {A : Type ℓ} (p : A → Bool) where
  -- What `keep` kept has passed the test.
  pub keep-All : (xs : List A) → All (λ x. p x ≡ true) (keep p xs)
  unfolding keep
  keep-All [] = tt
  keep-All (x ∷ xs) = elim (Bool-cases (p x)) [
    | inl e ↦ rw e (e, keep-All xs)
    | inr e ↦ rw e (keep-All xs)
  ]

  -- What `find?` found has passed the test.
  pub find?-passes : (xs : List A) {x : A} → find? p xs ≡ some x → p x ≡ true
  unfolding find?
  find?-passes [] h = cc
  find?-passes (y ∷ xs) {x} h = ground (arith, find?-passes xs {x = x})

  -- No element passes, up to the last one.
  pub find?-append :
      (xs : List A) (x : A)
      → All (λ y. p y ≡ false) xs
      → find? p (xs ++ (x ∷ [])) ≡ (if p x then some x else none)
  unfolding find?
  find?-append [] x h = refl
  find?-append (y ∷ xs) x h = rw h.0 (find?-append xs x h.1)

  pub find?-none : (xs : List A) → All (λ y. p y ≡ false) xs → find? p xs ≡ none
  unfolding find?
  find?-none [] h = refl
  find?-none (y ∷ xs) h = rw h.0 (find?-none xs h.1)

-- What holds of all elements holds of the one at a position.
pub All-get_elem? {ℓ} :
    {A : Type ℓ} (P : A → Type 0) (xs : List A) (i : ℕ) {x : A}
    → All P xs
    → get_elem? xs i ≡ some x
    → P x
All-get_elem? P [] i h e = cc
All-get_elem? P (y ∷ xs) zero h e = subst P (some-injective _ _ e) h.0
All-get_elem? P (y ∷ xs) (suc i) h e = All-get_elem? P xs i h.1 e

pub All-⊥ {ℓ} : {A : Type ℓ} (xs : List A) → All (λ _. ⊥) xs → xs ≡ []
All-⊥ [] h = refl
All-⊥ (x ∷ xs) h = absurd h.0

pub modify_self {ℓ} :
    {A : Type ℓ} (xs : List A) (n : ℕ) (x : A) → get_elem? xs n ≡ some x → modify xs n (λ _. x) ≡ xs
modify_self [] n x e = refl
modify_self (y ∷ xs) zero x e = ap (λ z. z ∷ xs) (sym (some-injective _ _ e))
modify_self (y ∷ xs) (suc n) x e = ap (λ zs. y ∷ zs) (modify_self xs n x e)
