-- ===== src/Egress/Pool/World/Flags.antt =====
-- What `mark_rotating` and `apply_rotation_success` do to the rotation marks.
use mathlib.Core.Path.{subst}
use mathlib.Core.Option.{some-injective}
use proxy_opencode.Prelude.{
  ℕ, zero, suc, ◌+◌, ◌≡◌, ◌∙◌, refl, sym, ap, String, Bool, true, false, not, Option, none, some,
  List, [], ◌∷◌, get_elem?, modify, arith, str_eq, if◌then◌else◌, Bool-cases, inl, inr, eq_iff,
}
use proxy_opencode.Prelude.Dict.{Dict, get}
use proxy_opencode.Egress.Models.{EgressState}
use proxy_opencode.Egress.Pool.{Pool}
use proxy_opencode.Egress.Pool.Affinity.{find_from}
use proxy_opencode.Egress.Pool.Health.{set_rotating, rotation_success}
use proxy_opencode.Egress.Pool.World.{flag_at, rotated_at, mark_rotating, apply_rotation_success}
use proxy_opencode.Egress.Pool.World.Marks.{mark, marks, marks-replace}

-- The first row with the name gets the mark.
unfoldable pub set_present : String → Bool → Dict Bool → Dict Bool
set_present name b [] = []
set_present name b ((other, v) ∷ d) =
    let rest = set_present name b d in
    if str_eq other name then (other, b) ∷ d else (other, v) ∷ rest

pub get-set_present :
    (name other : String) (b : Bool) (d : Dict Bool)
    → get other (set_present name b d) ≡ (
        if str_eq name other
        then elim (get other d) [ none ↦ none | some _ ↦ some b ]
        else get other d)
unfolding get set_present
get-set_present name other b [] = ground arith
get-set_present name other b ((x, v) ∷ d) =
    ground (arith, eq_iff name other, eq_iff x name, eq_iff x other, get-set_present name other b d)

-- A look-up by name and the change of the state that it finds.
abbrev Found : String → Bool → ℕ → List EgressState → Option (ℕ × EgressState) → Type 0
Found name b k states none = set_present name b (marks states) ≡ marks states
Found name b k states (some (j, s)) =
    (i : ℕ) × (j ≡ i + k)
    × (get_elem? states i ≡ some s)
    × (marks (modify states i (set_rotating b)) ≡ set_present name b (marks states))

Found-skip :
    (name : String) (b : Bool) (k : ℕ) (s : EgressState) (states : List EgressState)
    (o : Option (ℕ × EgressState))
    → str_eq s.spec.name name ≡ false
    → Found name b (suc k) states o
    → Found name b k (s ∷ states) o
unfolding set_present
Found-skip name b k s states none ne h = rw ne (ap (λ ms. mark s ∷ ms) h)
Found-skip name b k s states (some (j, t)) ne (i, at, here, e) =
    (suc i, omega arith, here, rw ne (ap (λ ms. mark s ∷ ms) e))

find_from-Found :
    (name : String) (b : Bool) (k : ℕ) (states : List EgressState)
    → Found name b k states (find_from name k states)
unfolding find_from set_present set_rotating
find_from-Found name b k [] = refl
find_from-Found name b k (s ∷ states) = elim (Bool-cases (str_eq s.spec.name name)) [
  | inl e ↦ rw e (zero, omega arith, refl, rw e refl)
  | inr e ↦ rw e (Found-skip name b k s states _ e (find_from-Found name b (suc k) states))
]

agree : (a b : Bool) → (if a then b else not b) ≡ true → b ≡ a
agree true b e = e
agree false true e = sym e
agree false false e = refl

-- The state has the mark already.
same-mark :
    (b : Bool) (s : EgressState)
    → (if s.rotating then b else not b) ≡ true
    → mark (set_rotating b s) ≡ mark s
unfolding set_rotating
same-mark b s e = ap (λ r. (s.spec.name, r)) (agree s.rotating b e)

marks-at :
    (b : Bool) (s : EgressState) (states : List EgressState) (i : ℕ)
    → get_elem? states i ≡ some s
    → mark (set_rotating b s) ≡ mark s
    → marks (modify states i (set_rotating b)) ≡ marks states
marks-at b s [] i e h = refl
marks-at b s (x ∷ states) zero e h =
    ap (λ m. m ∷ marks states)
      (subst (λ y. mark (set_rotating b y) ≡ mark y) (sym (some-injective _ _ e)) h)
marks-at b s (x ∷ states) (suc i) e h = ap (λ ms. mark x ∷ ms) (marks-at b s states i e h)

marks-flag_at :
    (p : Pool) (name : String) (b : Bool) (o : Option (ℕ × EgressState))
    → Found name b 0 p.states o
    → marks (flag_at p b o).0.states ≡ set_present name b (marks p.states)
unfolding flag_at
marks-flag_at p name b none h = sym h
marks-flag_at p name b (some (j, s)) (i, at, here, e) =
    elim (Bool-cases (if s.rotating then b else not b)) [
      | inl same ↦ rw same (sym (marks-at b s p.states i here (same-mark b s same)) ∙ e)
      | inr other ↦
          let moved : j ≡ i = omega arith in
          rw other (ap (λ n. marks (modify p.states n (set_rotating b))) moved ∙ e)
    ]

pub marks-mark_rotating :
    (p : Pool) (name : String) (b : Bool)
    → marks (mark_rotating p name b).0.states ≡ set_present name b (marks p.states)
unfolding mark_rotating
marks-mark_rotating p name b =
    marks-flag_at p name b (find_from name 0 p.states) (find_from-Found name b 0 p.states)

marks-rotated_at :
    (p : Pool) (name : String) (now : ℕ) (ip ip_at : String) (ip_from : Option String)
    (o : Option (ℕ × EgressState))
    → Found name true 0 p.states o
    → marks (rotated_at p now ip ip_at ip_from o).0.states ≡ marks p.states
unfolding rotated_at
marks-rotated_at p name now ip ip_at ip_from none h = refl
marks-rotated_at p name now ip ip_at ip_from (some (j, s)) (i, at, here, e) =
    let moved : i ≡ j = omega arith in
    let there = subst (λ n. get_elem? p.states n ≡ some s) moved here in
    unfold rotation_success in marks-replace s _ p.states j there refl

pub marks-apply_rotation_success :
    (p : Pool) (now : ℕ) (name ip ip_at : String) (ip_from : Option String)
    → marks (apply_rotation_success p now name ip ip_at ip_from).0.states ≡ marks p.states
unfolding apply_rotation_success
marks-apply_rotation_success p now name ip ip_at ip_from =
    marks-rotated_at p name now ip ip_at ip_from (find_from name 0 p.states)
      (find_from-Found name true 0 p.states)

-- A name that no state has has no mark.
pub find_from-mark :
    (name : String) (k : ℕ) (states : List EgressState)
    → find_from name k states ≡ none
    → get name (marks states) ≡ none
unfolding find_from get
find_from-mark name k [] e = refl
find_from-mark name k (s ∷ states) e = ground (arith, find_from-mark name (suc k) states)
