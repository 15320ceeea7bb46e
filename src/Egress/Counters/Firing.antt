-- ===== src/Egress/Counters/Firing.antt =====
-- When the counters ask for a rotation within one window.
use proxy_opencode.Prelude.{
  ℕ, ◌+◌, ◌≤◌, ◌≡◌, ◌∙◌, refl, sym, ap, String, true, false, some, List, [], ◌∷◌, length, All,
  arith, eq_refl, if◌then◌else◌, Bool-cases, inl, inr,
}
use proxy_opencode.Prelude.Dict.{get}
use proxy_opencode.Egress.Counts.{
  BucketCounts, CounterConfig, Counters, window_start, store, is_failed, rotation_available,
}
use proxy_opencode.Egress.Counters.Rows.{record_for-row, get-store, save-config}
use proxy_opencode.Egress.Counters.{record_completed, fold_in, reached}

-- A completed request: its tokens and the moment of its release.
abbrev pub Completed : Type 0
Completed = ℕ × ℕ

abbrev pub token_sum : List Completed → ℕ
token_sum [] = 0
token_sum ((tokens, ts) ∷ rs) = tokens + token_sum rs

-- How many of the requests ask for a rotation.
unfoldable pub firings : Counters → String → List Completed → ℕ
firings c name [] = 0
firings c name ((tokens, ts) ∷ rs) =
    let (fires, c') = record_completed c name tokens ts in
    (if fires then 1 else 0) + firings c' name rs

-- The same on the row alone.
row_firings : CounterConfig → String → BucketCounts → List Completed → ℕ
row_firings cfg name rec [] = 0
row_firings cfg name rec ((tokens, ts) ∷ rs) =
    let (fires, rec') = fold_in cfg name tokens ts rec in
    (if fires then 1 else 0) + row_firings cfg name rec' rs

fold_in-window :
    (cfg : CounterConfig) (name : String) (tokens ts : ℕ) (rec : BucketCounts)
    → (fold_in cfg name tokens ts rec).1.window_start ≡ rec.window_start
unfolding fold_in
fold_in-window cfg name tokens ts rec = ground arith

-- The counters' step is the row's, as long as the window lasts.
record_completed-row :
    (c : Counters) (name : String) (tokens ts : ℕ) {rec : BucketCounts}
    → get name c.records ≡ some rec
    → window_start ts ≡ rec.window_start
    → let (fires, rec') = fold_in c.config name tokens ts rec in
      let (fires', c') = record_completed c name tokens ts in
      (fires' ≡ fires)
      × (get name c'.records ≡ some rec')
      × (rec'.window_start ≡ rec.window_start)
      × (c'.config ≡ c.config)
unfolding record_completed
record_completed-row c name tokens ts {rec} e w =
    let same = record_for-row c name ts e w in
    let rec' = (fold_in c.config name tokens ts rec).1 in
    rw (record_for-row c name ts e w) (
      refl,
      get-store c name name rec' ∙ rw (eq_refl name),
      fold_in-window c.config name tokens ts rec,
      save-config (store c name rec'),
    )

row_firings-latched :
    (cfg : CounterConfig) (name : String) (rec : BucketCounts) (rs : List Completed)
    → rec.triggered ≡ true
    → is_failed rec.last_rotation_ok ≡ false
    → row_firings cfg name rec rs ≡ 0
unfolding row_firings fold_in rotation_available
row_firings-latched cfg name rec [] on ok = refl
row_firings-latched cfg name rec ((tokens, ts) ∷ rs) on ok =
    let (fires, rec') = fold_in cfg name tokens ts rec in
    ground (arith, row_firings-latched cfg name rec' rs)

-- No limit is reached by nothing.
reached-idle : (cfg : CounterConfig) (name : String) → reached cfg name 0 0 ≡ false
unfolding reached
reached-idle cfg name = ground arith

reached_mono :
    (cfg : CounterConfig) (name : String) (n t m u : ℕ)
    → n ≤ m
    → t ≤ u
    → reached cfg name n t ≡ true
    → reached cfg name m u ≡ true
unfolding reached
reached_mono cfg name n t m u le le' h = ground arith

row_firings-once :
    (cfg : CounterConfig) (name : String) (rec : BucketCounts) (rs : List Completed)
    → rec.triggered ≡ false
    → is_failed rec.last_rotation_ok ≡ false
    → reached cfg name rec.count rec.tokens ≡ false
    → row_firings cfg name rec rs
      ≡ (if reached cfg name (rec.count + length rs) (rec.tokens + token_sum rs) then 1 else 0)
unfolding row_firings fold_in rotation_available
row_firings-once cfg name rec [] off ok none_yet = ground arith
row_firings-once cfg name rec ((tokens, ts) ∷ rs) off ok none_yet =
    elim (Bool-cases (reached cfg name (rec.count + 1) (rec.tokens + tokens))) [
      | inl e ↦
          let n = rec.count + 1 in
          let t = rec.tokens + tokens in
          let hit = record rec { count = n; tokens = t; triggered = true } in
          ground (
            arith,
            row_firings-latched cfg name hit rs,
            reached_mono cfg name n t (n + length rs) (t + token_sum rs),
          )
      | inr e ↦
          let miss = record rec { count = rec.count + 1; tokens = rec.tokens + tokens } in
          ground (arith, row_firings-once cfg name miss rs)
    ]

firings-row :
    (c : Counters) (name : String) (w : ℕ) (rs : List Completed) {rec : BucketCounts}
    → get name c.records ≡ some rec
    → rec.window_start ≡ w
    → All (λ r. window_start r.1 ≡ w) rs
    → firings c name rs ≡ row_firings c.config name rec rs
unfolding firings row_firings
firings-row c name w [] {rec} e at here = refl
firings-row c name w ((tokens, ts) ∷ rs) {rec} e at here =
    let step = record_completed-row c name tokens ts {rec = rec} e (here.0 ∙ sym at) in
    let c' = (record_completed c name tokens ts).1 in
    let rec' = (fold_in c.config name tokens ts rec).1 in
    let later = firings-row c' name w rs {rec = rec'} step.1 (step.2 ∙ at) here.1 in
    let fires = (fold_in c.config name tokens ts rec).0 in
    ap (λ b. (if b then 1 else 0) + firings c' name rs) step.0
    ∙ ap (λ n. (if fires then 1 else 0) + n)
        (later ∙ ap (λ cfg. row_firings cfg name rec' rs) step.3)

-- Within one window, from a row whose counts have just started and whose last rotation has not
-- failed: the counters ask for a rotation exactly once if the requests reach the threshold or their
-- tokens the budget, and never if they reach neither.
pub fires_exactly_once :
    (c : Counters) (name : String) (w : ℕ) (rs : List Completed) {rec : BucketCounts}
    → get name c.records ≡ some rec
    → rec.window_start ≡ w
    → (rec.count ≡ 0) × (rec.tokens ≡ 0) × (rec.triggered ≡ false)
    → is_failed rec.last_rotation_ok ≡ false
    → All (λ r. window_start r.1 ≡ w) rs
    → firings c name rs ≡ (if reached c.config name (length rs) (token_sum rs) then 1 else 0)
fires_exactly_once c name w rs {rec} e at started ok here =
    let idle = reached-idle c.config name in
    ground (arith, firings-row c name w rs e at here, row_firings-once c.config name rec rs, idle)
