-- ===== src/Zen/Fresh.antt =====
-- The pool leaves out the buckets that a request names.
use mathlib.Core.Path.{subst}
use mathlib.Core.Option.{some-injective}
use proxy_opencode.Prelude.{
  ℕ, zero, suc, ◌≡◌, ◌≤◌, min, length, ◌∙◌, refl, sym, ap, String, Bool, false, Option, none, some,
  List, [], ◌∷◌, All, All-imp, arith, get_elem?, inl, inr, Bool-cases, str_eq,
}
use proxy_opencode.Prelude.Dict.{Dict}
use proxy_opencode.Egress.Models.{EgressSpec, EgressState, Lease}
use proxy_opencode.Egress.Pool.{Pool}
use proxy_opencode.Egress.Pool.Select.{
  Progress, exhausted, choose, sleep, begin, wake, finish, among,
}
use proxy_opencode.Egress.Pool.Select.Acquire.{offered, offered-wake}
use proxy_opencode.Egress.Pool.Select.Choice.{finish-least}
use proxy_opencode.Egress.Pool.Select.Tiers.{AtRank}
use proxy_opencode.Egress.Pool.Select.Ranks.{begin-AtRank}
use proxy_opencode.Egress.Pool.World.{
  proceed, World, Action, acquire, wake_up, cancel, set_tokens, finish_request, drop_request, probe,
  rotating, rotated, step, run, add_lease,
}
use proxy_opencode.Egress.Pool.World.Accounts.{states-begin}
use proxy_opencode.Egress.Pool.World.Marks.{marks, marks-step, marks-proceed}
use proxy_opencode.Egress.Pool.World.Flags.{
  set_present, marks-mark_rotating, marks-apply_rotation_success,
}
use proxy_opencode.Zen.{Exchange, chat}
use proxy_opencode.Zen.Leasing.{Turn, name_at, leased, grant, with_turns, drive, pool_acquire}
use proxy_opencode.Zen.Walk.{Distinct, Reports, chat_walks_once}

-- The names of the buckets, which no action changes.
abbrev names : Dict Bool → List String
names [] = []
names ((name, b) ∷ d) = name ∷ names d

names-set_present :
    (name : String) (b : Bool) (d : Dict Bool) → names (set_present name b d) ≡ names d
unfolding set_present
names-set_present name b [] = refl
names-set_present name b ((other, v) ∷ d) = elim (Bool-cases (str_eq other name)) [
  | inl e ↦ rw e refl
  | inr e ↦ rw e (ap (λ ns. other ∷ ns) (names-set_present name b d))
]

abbrev names_of : World → List String
names_of w = names (marks w.pool.states)

names-step :
    (matches_prefix : EgressSpec → String → Bool) (w : World) (a : Action)
    → names_of (step matches_prefix w a) ≡ names_of w
unfolding step
names-step mp w (acquire key exclude now started checked bound_at) =
    ap names (marks-step mp w (acquire key exclude now started checked bound_at) tt)
names-step mp w (wake_up n checked bound_at) =
    ap names (marks-step mp w (wake_up n checked bound_at) tt)
names-step mp w (cancel n) = refl
names-step mp w (set_tokens n tokens) = refl
names-step mp w (finish_request n c o) = ap names (marks-step mp w (finish_request n c o) tt)
names-step mp w (drop_request n) = ap names (marks-step mp w (drop_request n) tt)
names-step mp w (probe i now e) = ap names (marks-step mp w (probe i now e) tt)
names-step mp w (rotating name flag) =
    ap names (marks-mark_rotating w.pool name flag)
    ∙ names-set_present name flag (marks w.pool.states)
names-step mp w (rotated now name ip ip_at ip_from) =
    ap names (marks-apply_rotation_success w.pool now name ip ip_at ip_from)

names-run :
    (matches_prefix : EgressSpec → String → Bool) (w : World) (actions : List Action)
    → names_of (run matches_prefix w actions) ≡ names_of w
unfolding run
names-run mp w [] = refl
names-run mp w (a ∷ actions) = names-run mp (step mp w a) actions ∙ names-step mp w a

name_at-names :
    (states : List EgressState) (i : ℕ) → name_at states i ≡ get_elem? (names (marks states)) i
unfolding name_at
name_at-names [] i = refl
name_at-names (s ∷ states) zero = refl
name_at-names (s ∷ states) (suc i) = name_at-names states i

marks-finish :
    (w : World) (key : String) (now bound_at : ℕ) (is : List ℕ) (l : Lease) (p : Pool)
    → finish w.pool key now bound_at is ≡ some (l, p)
    → marks p.states ≡ marks w.pool.states
unfolding add_lease proceed
marks-finish w key now bound_at is l p e =
    ap (λ o. marks (add_lease w o).pool.states) (sym e)
    ∙ marks-proceed w key now bound_at (choose is)

-- The position has a name outside the list.
abbrev Outside : List String → List String → ℕ → Type 0
Outside ns exclude i = (name : String) × (get_elem? ns i ≡ some name) × (among exclude name ≡ false)

module _ (ns exclude : List String) where
  leased-Outside :
      (w : World) (l : Lease) (p : Pool) (name : String) (w' : World)
      → names (marks p.states) ≡ ns
      → Outside ns exclude l.bucket
      → leased w (some (l, p)) ≡ some (name, w')
      → among exclude name ≡ false
  unfolding leased
  leased-Outside w l p name w' same (other, at, free) got =
      let here = name_at-names p.states l.bucket ∙ ap (λ xs. get_elem? xs l.bucket) same ∙ at in
      ground (arith, here, at)

  grant-Outside :
      (w : World) (key : String) (now bound_at : ℕ) (progress : Progress) (name : String)
      (w' : World)
      → names_of w ≡ ns
      → All (Outside ns exclude) (offered progress)
      → grant w key now bound_at progress ≡ some (name, w')
      → among exclude name ≡ false
  unfolding grant
  grant-Outside w key now bound_at exhausted name w' same h got = absurd (ground arith)
  grant-Outside w key now bound_at (sleep s) name w' same h got = absurd (ground arith)
  grant-Outside w key now bound_at (choose is) name w' same h got =
      of (finish w.pool key now bound_at is) refl got
    where
      of :
          (o : Option (Lease × Pool))
          → finish w.pool key now bound_at is ≡ o
          → leased w o ≡ some (name, w')
          → among exclude name ≡ false
      of none e got = absurd (unfold leased in ground arith)
      of (some (l, p)) e got =
          let least =
            finish-least (Outside ns exclude) w.pool key now bound_at is {l = l} {q = p} e h in
          leased-Outside w l p name w' (ap names (marks-finish w key now bound_at is l p e) ∙ same)
            least.0 got

  module _ (matches_prefix : EgressSpec → String → Bool) where
    drive-Outside :
        (w : World) (key : String) (now bound_at : ℕ) (progress : Progress)
        (sleeps : List (List Action × ℕ)) (name : String) (w' : World)
        → names_of w ≡ ns
        → All (Outside ns exclude) (offered progress)
        → drive matches_prefix w key now bound_at progress sleeps ≡ some (name, w')
        → among exclude name ≡ false
    unfolding drive
    drive-Outside w key now bound_at exhausted sleeps name w' same h got = absurd (ground arith)
    drive-Outside w key now bound_at (choose is) sleeps name w' same h got =
        grant-Outside w key now bound_at (choose is) name w' same h got
    drive-Outside w key now bound_at (sleep s) [] name w' same h got =
        grant-Outside w key now bound_at (wake w.pool s s.deadline) name w' same
          (offered-wake (Outside ns exclude) w.pool s s.deadline h) got
    drive-Outside w key now bound_at (sleep s) ((others, checked) ∷ sleeps) name w' same h got =
        let v = run matches_prefix w others in
        drive-Outside v key now bound_at (wake v.pool s checked) sleeps name w'
          (names-run matches_prefix w others ∙ same)
          (offered-wake (Outside ns exclude) v.pool s checked h) got

AtRank-Outside :
    (p : Pool) (exclude : List String) (now r i : ℕ)
    → AtRank p.config exclude now p.states r i
    → Outside (names (marks p.states)) exclude i
unfolding name_at
AtRank-Outside p exclude now r i (s, at, _, free) = (
  s.spec.name,
  sym (name_at-names p.states i) ∙ ap (λ o. elim o [ none ↦ none | some t ↦ some t.spec.name ]) at,
  free,
)

-- Without a session's key the pool gives no bucket of `exclude`, whatever the other tasks do while
-- the call sleeps.
pub pool_acquire-excludes :
    (matches_prefix : EgressSpec → String → Bool) (w : World) (turns : List Turn)
    (exclude : List String) (name : String) (w' : World × List Turn)
    → pool_acquire matches_prefix (w, turns) "" exclude ≡ some (name, w')
    → among exclude name ≡ false
unfolding pool_acquire
pool_acquire-excludes mp w [] exclude name w' got = absurd (ground arith)
pool_acquire-excludes mp w (t ∷ turns) exclude name w' got =
    of (drive mp begun "" t.now t.bound_at progress t.sleeps) refl got
  where
    progress : Progress
    progress = (begin w.pool "" exclude t.now t.started t.checked).0

    begun : World
    begun = record w { pool = (begin w.pool "" exclude t.now t.started t.checked).1 }

    start : All (Outside (names_of w) exclude) (offered progress)
    start =
        let (r, _, h) = begin-AtRank w.pool "" exclude t.now t.started t.checked (inl refl) in
        All-imp (AtRank w.pool.config exclude t.now w.pool.states r) (Outside (names_of w) exclude)
          (offered progress) (AtRank-Outside w.pool exclude t.now r) h

    kept : names_of begun ≡ names_of w
    kept =
        ap (λ states. names (marks states))
          (states-begin w.pool "" exclude t.now t.started t.checked)

    of :
        (o : Option (String × World))
        → drive mp begun "" t.now t.bound_at progress t.sleeps ≡ o
        → with_turns turns o ≡ some (name, w')
        → among exclude name ≡ false
    of none e same = absurd (ground arith)
    of (some (next, v)) e same =
        let named : next ≡ name = ap (λ r. r.0) (some-injective _ _ same) in
        subst (λ n. among exclude n ≡ false) named
          (drive-Outside (names_of w) exclude mp begun "" t.now t.bound_at progress t.sleeps next v
            kept start e)

-- A chat completion on the pool tries no bucket twice and at most as many as the pool has, and at
-- most four, whatever the other tasks do meanwhile. Its answer is what the last bucket yielded, and
-- every bucket before that one failed; if no bucket was tried, none could be acquired.
pub chat_over_pool :
    (matches_prefix : EgressSpec → String → Bool) (auth_free : Bool)
    (exchange : World × List Turn → String → Exchange × (World × List Turn)) (size : ℕ)
    (session_key : String) (w : World × List Turn)
    → 1 ≤ size
    → let r = chat auth_free (pool_acquire matches_prefix) exchange size session_key w in
      Distinct r.trail × (length r.trail ≤ min size 4) × Reports auth_free r.answer r.trail
chat_over_pool mp auth_free exchange size key w some_bucket =
    chat_walks_once auth_free (pool_acquire mp) exchange size key w
      (λ (v, turns) exclude name v' got. pool_acquire-excludes mp v turns exclude name v' got)
      some_bucket
