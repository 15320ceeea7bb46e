-- ===== src/Egress/Counts.antt =====
-- The rows of completed requests per bucket and quota window of proxy_opencode/egress/counters.py,
-- and their start and end with the window. A moment is a number of milliseconds since the epoch, given as
-- an argument; the formatted time of the last rotation stands for its moment in whole seconds.
use proxy_opencode.Prelude.{
  ℕ, ◌+◌, ◌-◌, String, Bool, true, false, not, ◌&&◌, Option, none, some, List, [], ◌∷◌, ◌++◌, ltb,
  leb, ◌==◌, if◌then◌else◌,
}
use proxy_opencode.Prelude.Dict.{Dict, get, put}
use proxy_opencode.Egress.Models.Window.{day, next_window_reset}

-- `last_rotation_at`: the empty text, the text of a moment, or a text that is no moment.
pub data Stamp : Type 0 where
  blank : Stamp
  at : ℕ → Stamp
  garbled : String → Stamp

pub record BucketCounts : Type 0 where
  pub window_start : ℕ
  pub count : ℕ
  pub tokens : ℕ
  pub triggered : Bool
  pub rotations : ℕ
  pub last_rotation_ok : Option Bool
  pub last_rotation_at : Stamp
  pub last_rotation_detail : String
  pub last_rotation_epoch : ℕ

-- `BucketCounts(window_start=win)`
unfoldable pub fresh_counts : ℕ → BucketCounts
fresh_counts win = record {
  window_start = win;
  count = 0;
  tokens = 0;
  triggered = false;
  rotations = 0;
  last_rotation_ok = none;
  last_rotation_at = blank;
  last_rotation_detail = "";
  last_rotation_epoch = 0;
}

pub record CounterConfig : Type 0 where
  pub thresholds : Dict ℕ
  pub token_budgets : Dict ℕ
  pub hard_retry_after : ℕ
  pub retry_cooldown : ℕ
  pub hard_min_interval : ℕ
  pub persistent : Bool

-- A JSON value of a row: `null`, a boolean, a number that is not negative, a text, the text of a
-- `last_rotation_at`, or a list or object, which may be empty.
pub data Field : Type 0 where
  null : Field
  boolean : Bool → Field
  number : ℕ → Field
  words : String → Field
  moment : Stamp → Field
  compound : Bool → Field

-- A row of a snapshot, which should be an object.
pub data Row : Type 0 where
  no_object : Row
  object : Dict Field → Row

-- The file of the snapshot.
pub data SavedCounts : Type 0 where
  no_file unreadable_file foreign_file : SavedCounts
  buckets : Dict Row → SavedCounts

-- The event `window_rollover`.
pub record Rollover : Type 0 where
  pub name : String
  pub ended_window : ℕ
  pub final_count : ℕ
  pub final_tokens : ℕ
  pub rotations : ℕ

pub record Counters : Type 0 where
  pub config : CounterConfig
  pub records : Dict BucketCounts
  pub file : SavedCounts
  pub rollovers : List Rollover

-- `dict.get(name, 0)`
unfoldable pub get_or_zero : String → Dict ℕ → ℕ
unfolding get
get_or_zero name d = elim (get name d) [ none ↦ 0 | some v ↦ v ]

-- `window_start`
unfoldable pub window_start : ℕ → ℕ
window_start ts = next_window_reset ts - day

-- `hard_quota`
unfoldable pub hard_quota : CounterConfig → Option ℕ → Bool
hard_quota cfg none = true
hard_quota cfg (some after) = ltb cfg.hard_retry_after after

abbrev pub is_failed : Option Bool → Bool
is_failed (some false) = true
is_failed _ = false

abbrev pub is_succeeded : Option Bool → Bool
is_succeeded (some true) = true
is_succeeded _ = false

-- `_rotation_available`; `a - b >= c` is written `b + c <= a`, since differences stop at 0.
unfoldable pub rotation_available : CounterConfig → BucketCounts → ℕ → Bool
rotation_available cfg rec ts =
    if not rec.triggered
    then true
    else is_failed rec.last_rotation_ok
      && (ltb 0 rec.last_rotation_epoch && leb (rec.last_rotation_epoch + cfg.retry_cooldown) ts)

-- The floor between two rotations after one that succeeded.
unfoldable pub too_soon : CounterConfig → BucketCounts → ℕ → Bool
too_soon cfg rec ts =
    is_succeeded rec.last_rotation_ok
    && (ltb 0 rec.last_rotation_epoch && ltb ts (rec.last_rotation_epoch + cfg.hard_min_interval))

-- The row of an ended window: the counts restart, the last rotation is kept.
unfoldable pub rolled : ℕ → BucketCounts → BucketCounts
rolled win rec = record rec {
  window_start = win;
  count = 0;
  tokens = 0;
  triggered = false;
  rotations = 0;
}

unfoldable pub store : Counters → String → BucketCounts → Counters
unfolding put
store c name rec = record c { records = put name rec c.records }

unfoldable pub current : Counters → String → ℕ → Option BucketCounts → BucketCounts × Counters
unfolding fresh_counts rolled store
current c name win none = (fresh_counts win, store c name (fresh_counts win))
current c name win (some rec) = if rec.window_start == win then (rec, c) else (
  rolled win rec,
  record (store c name (rolled win rec)) {
    rollovers =
        c.rollovers
        ++ (record {
          name = name;
          ended_window = rec.window_start;
          final_count = rec.count;
          final_tokens = rec.tokens;
          rotations = rec.rotations;
        }
            ∷ []);
  },
)

-- `_record_for`
unfoldable pub record_for : Counters → String → ℕ → BucketCounts × Counters
unfolding current get
record_for c name ts = current c name (window_start ts) (get name c.records)
