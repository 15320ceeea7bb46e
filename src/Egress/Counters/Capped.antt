-- ===== src/Egress/Counters/Capped.antt =====
-- A bound on the rotations of each row, over the operations of the counters.
use proxy_opencode.Prelude.{
  ℕ, ◌≤◌, ◌<◌, ◌≡◌, refl, sym, String, Bool, Option, none, some, [], ◌∷◌, All, arith, str_eq,
  Bool-cases, inl, inr, ◌==◌, eq_refl,
}
use mathlib.Core.Path.{subst, ◌∙◌}
use proxy_opencode.Prelude.Dict.{Dict, get, put, get-put}
use proxy_opencode.Egress.Counts.{
  BucketCounts, Counters, fresh_counts, rolled, window_start, record_for, store, current,
}
use proxy_opencode.Egress.Counters.Rows.{save-records}
use proxy_opencode.Egress.Counters.{
  save, record_completed, fold_in, note_rotation_started, note_rotation_result, reset,
}

-- Each row has at most `most` rotations.
abbrev pub IsCapped : ℕ → Counters → Type 0
IsCapped most c = All (λ b. b.1.rotations ≤ most) c.records

put-capped :
    (most : ℕ) (name : String) (rec : BucketCounts) (d : Dict BucketCounts)
    → rec.rotations ≤ most
    → All (λ b. b.1.rotations ≤ most) d
    → All (λ b. b.1.rotations ≤ most) (put name rec d)
unfolding put
put-capped most name rec [] le h = (le, tt)
put-capped most name rec ((other, r) ∷ d) le h = elim (Bool-cases (str_eq other name)) [
  | inl e ↦ rw e (le, h.1)
  | inr e ↦ rw e (h.0, put-capped most name rec d le h.1)
]

get-capped :
    (most : ℕ) (name : String) (d : Dict BucketCounts) {rec : BucketCounts}
    → All (λ b. b.1.rotations ≤ most) d
    → get name d ≡ some rec
    → rec.rotations ≤ most
unfolding get
get-capped most name [] h e = absurd (ground arith)
get-capped most name ((other, r) ∷ d) {rec} h e =
    ground (arith, get-capped most name d {rec = rec} h.1)

store-IsCapped :
    (most : ℕ) (c : Counters) (name : String) (rec : BucketCounts)
    → rec.rotations ≤ most
    → IsCapped most c
    → IsCapped most (store c name rec)
unfolding store
store-IsCapped most c name rec le h = put-capped most name rec c.records le h

-- What an operation writes at the end.
write-IsCapped :
    (most : ℕ) (c : Counters) (name : String) (rec : BucketCounts)
    → rec.rotations ≤ most
    → IsCapped most c
    → IsCapped most (save (store c name rec))
write-IsCapped most c name rec le h =
    subst (All (λ b. b.1.rotations ≤ most)) (sym (save-records (store c name rec)))
      (store-IsCapped most c name rec le h)

current-IsCapped :
    (most : ℕ) (c : Counters) (name : String) (win : ℕ) (o : Option BucketCounts)
    → get name c.records ≡ o
    → IsCapped most c
    → let (rec, c') = current c name win o in (rec.rotations ≤ most) × IsCapped most c'
unfolding current
current-IsCapped most c name win none e h =
    (omega arith, store-IsCapped most c name (fresh_counts win) (omega arith) h)
current-IsCapped most c name win (some rec) e h =
    let le = get-capped most name c.records {rec = rec} h e in
    elim (Bool-cases (rec.window_start == win)) [
      | inl same ↦ rw same (le, h)
      | inr other ↦
          rw other (omega arith, store-IsCapped most c name (rolled win rec) (omega arith) h)
    ]

pub record_for-IsCapped :
    (most : ℕ) (c : Counters) (name : String) (ts : ℕ)
    → IsCapped most c
    → let (rec, c') = record_for c name ts in (rec.rotations ≤ most) × IsCapped most c'
unfolding record_for
record_for-IsCapped most c name ts h =
    current-IsCapped most c name (window_start ts) (get name c.records) refl h

pub record_completed-IsCapped :
    (most : ℕ) (c : Counters) (name : String) (tokens ts : ℕ)
    → IsCapped most c
    → IsCapped most (record_completed c name tokens ts).1
unfolding record_completed
record_completed-IsCapped most c name tokens ts h =
    let (rec, c') = record_for c name ts in
    let (le, h') = record_for-IsCapped most c name ts h in
    write-IsCapped most c' name (fold_in c.config name tokens ts rec).1 (ground arith) h'

pub reset-IsCapped :
    (most : ℕ) (c : Counters) (name : String) (ts : ℕ)
    → IsCapped most c
    → IsCapped most (reset c name ts)
unfolding reset
reset-IsCapped most c name ts h =
    let (le, h') = record_for-IsCapped most c name ts h in write-IsCapped most _ name _ le h'

pub note_rotation_result-IsCapped :
    (most : ℕ) (c : Counters) (name : String) (ok : Bool) (detail : String) (ts : ℕ)
    → IsCapped most c
    → IsCapped most (note_rotation_result c name ok detail ts)
unfolding note_rotation_result
note_rotation_result-IsCapped most c name ok detail ts h =
    let (le, h') = record_for-IsCapped most c name ts h in write-IsCapped most _ name _ le h'

-- The row after a look at it.
get-current :
    (c : Counters) (name : String) (win : ℕ) (o : Option BucketCounts)
    → get name c.records ≡ o
    → let (rec, c') = current c name win o in get name c'.records ≡ some rec
unfolding current store
get-current c name win none e = get-put name name (fresh_counts win) c.records ∙ rw (eq_refl name)
get-current c name win (some rec) e = elim (Bool-cases (rec.window_start == win)) [
  | inl same ↦ rw same e
  | inr other ↦ rw other (get-put name name (rolled win rec) c.records ∙ rw (eq_refl name))
]

current-below :
    (c : Counters) (name : String) (win n : ℕ) (rec : BucketCounts)
    → rec.rotations ≤ n
    → (current c name win (some rec)).0.rotations ≤ n
unfolding current
current-below c name win n rec le = ground arith

record_for-again :
    (c : Counters) (name : String) (looked ts : ℕ)
    → (record_for (record_for c name looked).1 name ts).0.rotations
      ≤ (record_for c name looked).0.rotations
unfolding record_for
record_for-again c name looked ts =
    let (rec, c') = current c name (window_start looked) (get name c.records) in
    subst (λ o. (current c' name (window_start ts) o).0.rotations ≤ rec.rotations)
      (sym (get-current c name (window_start looked) (get name c.records) refl))
      (current-below c' name (window_start ts) rec.rotations rec (omega arith))

-- A start that follows a look at the row, at which the row had fewer rotations than the bound.
pub started-IsCapped :
    (most : ℕ) (c : Counters) (name : String) (looked ts : ℕ)
    → IsCapped most c
    → (record_for c name looked).0.rotations < most
    → IsCapped most (note_rotation_started (record_for c name looked).1 name ts)
unfolding note_rotation_started
started-IsCapped most c name looked ts h lt =
    let (rec, c') = record_for c name looked in
    let (le', h') = record_for-IsCapped most c name looked h in
    let (le'', h'') = record_for-IsCapped most c' name ts h' in
    write-IsCapped most _ name _ (omega (arith, record_for-again c name looked ts)) h''
