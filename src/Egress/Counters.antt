-- ===== src/Egress/Counters.antt =====
-- The counters of proxy_opencode/egress/counters.py: the triggers of a rotation, what a rotation
-- does to them, and their snapshot.
pub mod Snapshot
pub mod Rows
pub mod Firing
pub mod Capped
mod Tests
use Prim.Native.String.{[] as []ₛ, ◌∷◌ as ◌∷ₛ◌}
use proxy_opencode.Prelude.{
  ℕ, zero, suc, ◌+◌, ◌*◌, ◌/◌, String, Bool, true, false, not, ◌&&◌, ◌||◌, Option, none, some, List,
  [], ◌∷◌, ltb, leb, ◌==◌, is_some, if◌then◌else◌,
}
use proxy_opencode.Prelude.Dict.{Dict, get, put}
use proxy_opencode.Egress.CountRows.{as_rows, Reading, read_row}
use proxy_opencode.Egress.Counts.{
  Stamp, blank, at, garbled, BucketCounts, fresh_counts, CounterConfig, Row, no_object, object,
  SavedCounts, no_file, unreadable_file, foreign_file, buckets, Counters, get_or_zero, window_start,
  hard_quota, is_failed, rotation_available, too_soon, store, record_for,
}

-- `_save`, for a write that succeeds.
unfoldable pub save : Counters → Counters
unfolding as_rows
save c = if c.config.persistent then record c { file = buckets (as_rows c.records) } else c

-- What `should_rotate_on_429` and `should_rotate_on_free_tier` say of a row.
unfoldable pub may_rotate : CounterConfig → BucketCounts → ℕ → Bool
unfolding rotation_available too_soon
may_rotate cfg rec ts = rotation_available cfg rec ts && not (too_soon cfg rec ts)

unfoldable pub should_rotate_on_429 : Counters → String → Option ℕ → ℕ → Bool × Counters
unfolding record_for hard_quota may_rotate
should_rotate_on_429 c name retry_after ts =
    let (rec, c') = record_for c name ts in
    (hard_quota c.config retry_after && may_rotate c.config rec ts, c')

unfoldable pub should_rotate_on_free_tier : Counters → String → ℕ → Bool × Counters
unfolding record_for may_rotate
should_rotate_on_free_tier c name ts =
    let (rec, c') = record_for c name ts in (may_rotate c.config rec ts, c')

-- Whether a bucket's counts reach one of its limits; a limit of 0 is none.
unfoldable pub reached : CounterConfig → String → ℕ → ℕ → Bool
unfolding get_or_zero
reached cfg name count tokens =
    let count_threshold = get_or_zero name cfg.thresholds in
    let token_budget = get_or_zero name cfg.token_budgets in
    (ltb 0 count_threshold && leb count_threshold count)
    || (ltb 0 token_budget && leb token_budget tokens)

-- `record` on the row of the bucket.
unfoldable pub fold_in : CounterConfig → String → ℕ → ℕ → BucketCounts → Bool × BucketCounts
unfolding rotation_available reached
fold_in cfg name tokens ts rec =
    let rec' = record rec { count = rec.count + 1; tokens = rec.tokens + tokens } in
    let fires = rotation_available cfg rec' ts && reached cfg name rec'.count rec'.tokens in
    (fires, if fires then record rec' { triggered = true } else rec')

-- `record`
unfoldable pub record_completed : Counters → String → ℕ → ℕ → Bool × Counters
unfolding record_for fold_in store save
record_completed c name tokens ts =
    let (rec, c') = record_for c name ts in
    let (fires, rec') = fold_in c.config name tokens ts rec in (fires, save (store c' name rec'))

unfoldable pub note_rotation_started : Counters → String → ℕ → Counters
unfolding record_for store save
note_rotation_started c name ts =
    let (rec, c') = record_for c name ts in
    save (store c' name (record rec { rotations = rec.rotations + 1; triggered = true }))

unfoldable pub reset : Counters → String → ℕ → Counters
unfolding record_for store save
reset c name ts =
    let (rec, c') = record_for c name ts in
    save (store c' name (record rec { count = 0; tokens = 0; triggered = false }))

-- The first `n` characters.
unfoldable pub clip : ℕ → String → String
clip zero s = ""
clip (suc n) []ₛ = ""
clip (suc n) (c ∷ₛ s) = c ∷ₛ clip n s

-- The text of a moment is cut to its second.
unfoldable pub stamp : ℕ → Stamp
stamp ts = at (ts / 1000 * 1000)

unfoldable pub note_rotation_result : Counters → String → Bool → String → ℕ → Counters
unfolding record_for store save clip stamp
note_rotation_result c name ok detail ts =
    let (rec, c') = record_for c name ts in
    save (
      store c' name (record rec {
        last_rotation_ok = some ok;
        last_rotation_epoch = ts;
        last_rotation_at = stamp ts;
        last_rotation_detail = clip 240 detail;
      }))

-- A row of an old snapshot: the moment of a failed rotation is read back from its text.
unfoldable pub with_epoch : BucketCounts → BucketCounts
with_epoch rec =
    if is_failed rec.last_rotation_ok && (rec.last_rotation_epoch == 0)
    then elim rec.last_rotation_at [
      | blank ↦ rec
      | at t ↦ record rec { last_rotation_epoch = t }
      | garbled text ↦ rec
    ]
    else rec

-- The first loop of `load`: a row that is no object or does not read as counts is skipped.
unfoldable pub read_rows : Reading → Dict Row → Dict BucketCounts → Dict BucketCounts
unfolding put with_epoch read_row
read_rows reads [] d = d
read_rows reads ((name, no_object) ∷ rows) d = read_rows reads rows d
read_rows reads ((name, object fields) ∷ rows) d = elim (read_row reads fields) [
  | none ↦ read_rows reads rows d
  | some rec ↦ read_rows reads rows (put name (with_epoch rec) d)
]

-- A row of a window that is over starts again.
unfoldable pub drop_stale : ℕ → Dict BucketCounts → Dict BucketCounts
unfolding fresh_counts
drop_stale win [] = []
drop_stale win ((name, rec) ∷ d) =
    let stale = ltb 0 rec.window_start && ltb rec.window_start win in
    (name, if stale then fresh_counts win else rec) ∷ drop_stale win d

-- `names`, as a test.
unfoldable pub is_metered : CounterConfig → String → Bool
unfolding get
is_metered cfg name = is_some (get name cfg.thresholds) || is_some (get name cfg.token_budgets)

unfoldable pub drop_retired : CounterConfig → Dict BucketCounts → Dict BucketCounts
unfolding is_metered
drop_retired cfg [] = []
drop_retired cfg ((name, rec) ∷ d) =
    let rest = drop_retired cfg d in if is_metered cfg name then (name, rec) ∷ rest else rest

-- The budgets of 0 are dropped.
unfoldable pub positive : Dict ℕ → Dict ℕ
positive [] = []
positive ((name, v) ∷ d) = let rest = positive d in if ltb 0 v then (name, v) ∷ rest else rest

-- `load`, into the rows that are there. With no path, and for a file that is not there, does not
-- parse or has no object of buckets, it returns at once.
unfoldable pub load : Reading → Counters → ℕ → Counters
unfolding read_rows drop_stale drop_retired
load reads c now = if not c.config.persistent then c else elim c.file [
  | no_file ↦ c
  | unreadable_file ↦ c
  | foreign_file ↦ c
  | buckets rows ↦ record c {
    records =
        drop_retired c.config (drop_stale (window_start now) (read_rows reads rows c.records));
  }
]

-- `__init__`
unfoldable pub open_counters : Reading → CounterConfig → SavedCounts → ℕ → Counters
unfolding load positive
open_counters reads cfg file now =
    load reads
      (record {
        config = record cfg { token_budgets = positive cfg.token_budgets };
        records = [];
        file = file;
        rollovers = [];
      })
      now
