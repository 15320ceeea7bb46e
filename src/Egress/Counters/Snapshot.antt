-- ===== src/Egress/Counters/Snapshot.antt =====
-- The counters over a restart.
use mathlib.Core.List.{append-nil, append_assoc}
use proxy_opencode.Prelude.{
  ℕ, ◌<◌, ◌&&◌, ◌≡◌, ◌⊎◌, ◌∙◌, inl, inr, refl, sym, ap, String, Bool, true, false, Option, none,
  some, [], ◌∷◌, ◌++◌, ltb, All, arith, str_eq, eq_iff, Bool-cases, if◌then◌else◌,
}
use proxy_opencode.Prelude.Dict.{Dict, get, put}
use proxy_opencode.Egress.CountRows.{
  ok_field, as_row, as_rows, Reading, read_row, field, is_true, to_number, to_ok, to_moment,
  to_text,
}
use proxy_opencode.Egress.Counts.{
  BucketCounts, fresh_counts, CounterConfig, Counters, buckets, Row, window_start, is_failed,
}
use proxy_opencode.Egress.Counters.{
  save, load, open_counters, positive, read_rows, drop_stale, drop_retired, is_metered, with_epoch,
}

-- The moment of a failed rotation is noted.
abbrev pub IsNoted : String × BucketCounts → Type 0
IsNoted (name, rec) = (is_failed rec.last_rotation_ok ≡ false) ⊎ (0 < rec.last_rotation_epoch)

abbrev pub IsNew : Dict BucketCounts → String × BucketCounts → Type 0
IsNew d (name, rec) = All (λ b. str_eq b.0 name ≡ false) d

-- Each row of the second list has a name that no row before it has.
abbrev pub Extends : Dict BucketCounts → Dict BucketCounts → Type 0
Extends before [] = Unit
Extends before (b ∷ d) = IsNew before b × Extends (before ++ (b ∷ [])) d

put-new :
    (name : String) (rec : BucketCounts) (d : Dict BucketCounts)
    → IsNew d (name, rec)
    → put name rec d ≡ d ++ ((name, rec) ∷ [])
unfolding put
put-new name rec [] new = refl
put-new name rec ((other, r) ∷ d) new = ground (arith, put-new name rec d)

with_epoch-same : (name : String) (rec : BucketCounts) → IsNoted (name, rec) → with_epoch rec ≡ rec
unfolding with_epoch
with_epoch-same name rec h = ground arith

to_ok-ok_field : (ok : Option Bool) → to_ok (ok_field ok) ≡ ok
unfolding to_ok is_true
to_ok-ok_field none = refl
to_ok-ok_field (some ok) = refl

-- A row that was written reads as it was.
read_row-as_row : (reads : Reading) (rec : BucketCounts) → read_row reads (as_row rec) ≡ some rec
unfolding read_row as_row field get is_true to_number to_moment to_text
read_row-as_row reads rec =
    ap (λ ok. some (record rec { last_rotation_ok = ok })) (to_ok-ok_field rec.last_rotation_ok)

read_rows-as_rows :
    (reads : Reading) (before d : Dict BucketCounts)
    → All IsNoted d
    → Extends before d
    → read_rows reads (as_rows d) before ≡ before ++ d
unfolding read_rows as_rows
read_rows-as_rows reads before [] h new = sym (append-nil before)
read_rows-as_rows reads before ((name, rec) ∷ d) h new =
    let next : Option BucketCounts → Dict BucketCounts = λ o. elim o [
      | none ↦ read_rows reads (as_rows d) before
      | some r ↦ read_rows reads (as_rows d) (put name (with_epoch r) before)
    ] in
    ap next (read_row-as_row reads rec)
    ∙ ap (λ r. read_rows reads (as_rows d) (put name r before)) (with_epoch-same name rec h.0)
    ∙ ap (read_rows reads (as_rows d)) (put-new name rec before new.0)
    ∙ read_rows-as_rows reads (before ++ ((name, rec) ∷ [])) d h.1 new.1
    ∙ append_assoc before ((name, rec) ∷ []) d

-- What becomes of a row: one of a window that is over starts again.
abbrev pub renewed : ℕ → Option BucketCounts → Option BucketCounts
renewed win none = none
renewed win (some rec) =
    some (if ltb 0 rec.window_start && ltb rec.window_start win then fresh_counts win else rec)

get-drop_stale :
    (win : ℕ) (name : String) (d : Dict BucketCounts)
    → get name (drop_stale win d) ≡ renewed win (get name d)
unfolding get drop_stale
get-drop_stale win name [] = refl
get-drop_stale win name ((other, rec) ∷ d) = elim (Bool-cases (str_eq other name)) [
  | inl e ↦ rw e refl
  | inr e ↦ rw e (get-drop_stale win name d)
]

get-drop_retired :
    (cfg : CounterConfig) (name : String) (d : Dict BucketCounts)
    → get name (drop_retired cfg d) ≡ (if is_metered cfg name then get name d else none)
unfolding get drop_retired
get-drop_retired cfg name [] = elim (Bool-cases (is_metered cfg name)) [
  | inl e ↦ rw e refl
  | inr e ↦ rw e refl
]
get-drop_retired cfg name ((other, rec) ∷ d) =
    let ih = get-drop_retired cfg name d in
    elim (Bool-cases (str_eq other name)) [
      | inl e ↦ of_same ((eq_iff other name).0 e) e ih
      | inr e ↦ elim (Bool-cases (is_metered cfg other)) [
        | inl kept ↦ rw (kept, e) ih
        | inr gone ↦ rw (gone, e) ih
      ]
    ]
  where
    of_same :
        other ≡ name
        → str_eq other name ≡ true
        → get name (drop_retired cfg d) ≡ (if is_metered cfg name then get name d else none)
        → get name
            (if is_metered cfg other then (other, rec) ∷ drop_retired cfg d else drop_retired cfg d)
          ≡ (if is_metered cfg name
              then if str_eq other name then some rec else get name d
              else none)
    of_same same e ih = elim (Bool-cases (is_metered cfg name)) [
      | inl kept ↦ rw (ap (is_metered cfg) same, kept, e) refl
      | inr gone ↦ rw (ap (is_metered cfg) same, gone) (ih ∙ rw gone refl)
    ]

save-file :
    (c : Counters) → c.config.persistent ≡ true → (save c).file ≡ buckets (as_rows c.records)
unfolding save
save-file c on = ground arith

load-buckets :
    (reads : Reading) (c : Counters) (now : ℕ) (rows : Dict Row)
    → c.config.persistent ≡ true
    → c.file ≡ buckets rows
    → (load reads c now).records
      ≡ drop_retired c.config (drop_stale (window_start now) (read_rows reads rows c.records))
unfolding load
load-buckets reads c now rows on e = ground arith

-- After a restart of persistent counters, with their configuration and from their snapshot: a bucket
-- that is configured has the row that it had, field for field, if the row has no start or its window
-- is not over, and a new one for the current window if it is; a bucket that is not configured has
-- none. The rows must have different names, and the moment of each failed rotation must be noted.
pub restart_restores :
    (reads : Reading) (cfg : CounterConfig) (c : Counters) (now : ℕ) (name : String)
    → c.config ≡ record cfg { token_budgets = positive cfg.token_budgets }
    → cfg.persistent ≡ true
    → All IsNoted c.records
    → Extends [] c.records
    → get name (open_counters reads cfg (save c).file now).records
      ≡ (if is_metered c.config name then renewed (window_start now) (get name c.records) else none)
unfolding open_counters
restart_restores reads cfg c now name same on noted names =
    let opened : Counters = record {
      config = record cfg { token_budgets = positive cfg.token_budgets };
      records = [];
      file = (save c).file;
      rollovers = [];
    } in
    let win = window_start now in
    ap (get name) (
      load-buckets reads opened now (as_rows c.records) on
        (save-file c (ap (λ k. k.persistent) same ∙ on)))
    ∙ ap (λ d. get name (drop_retired opened.config (drop_stale win d)))
        (read_rows-as_rows reads [] c.records noted names)
    ∙ get-drop_retired opened.config name (drop_stale win c.records)
    ∙ ap (λ o. if is_metered opened.config name then o else none)
        (get-drop_stale win name c.records)
    ∙ ap (λ k. if is_metered k name then renewed win (get name c.records) else none) (sym same)
