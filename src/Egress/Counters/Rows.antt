-- ===== src/Egress/Counters/Rows.antt =====
-- What the row of a bucket is after an operation of the counters.
use proxy_opencode.Prelude.{
  ℕ, ◌≡◌, ◌∙◌, refl, ap, String, false, Option, none, some, arith, str_eq, if◌then◌else◌,
  Bool-cases, inl, inr, ◌==◌,
}
use proxy_opencode.Prelude.Dict.{get, get-put}
use proxy_opencode.Egress.Counts.{
  BucketCounts, fresh_counts, rolled, Counters, window_start, record_for, store, current,
}
use proxy_opencode.Egress.Counters.{save}

pub record_for-row :
    (c : Counters) (name : String) (ts : ℕ) {rec : BucketCounts}
    → get name c.records ≡ some rec
    → window_start ts ≡ rec.window_start
    → record_for c name ts ≡ (rec, c)
unfolding record_for
record_for-row c name ts {rec} e w = rw e (ground arith)

pub save-records : (c : Counters) → (save c).records ≡ c.records
unfolding save
save-records c = ground arith

pub save-config : (c : Counters) → (save c).config ≡ c.config
unfolding save
save-config c = ground arith

pub current-config :
    (c : Counters) (name : String) (win : ℕ) (o : Option BucketCounts)
    → (current c name win o).1.config ≡ c.config
unfolding current
current-config c name win none = refl
current-config c name win (some rec) = ground arith

pub record_for-config :
    (c : Counters) (name : String) (ts : ℕ) → (record_for c name ts).1.config ≡ c.config
unfolding record_for
record_for-config c name ts = current-config c name (window_start ts) (get name c.records)

-- The row that an operation writes, at its bucket and at any other.
pub get-store :
    (c : Counters) (name other : String) (rec : BucketCounts)
    → get other (save (store c name rec)).records
      ≡ (if str_eq name other then some rec else get other c.records)
unfolding store
get-store c name other rec =
    ap (get other) (save-records (store c name rec)) ∙ get-put name other rec c.records

-- The row that `_record_for` gives is this window's.
pub record_for-window :
    (c : Counters) (name : String) (ts : ℕ)
    → (record_for c name ts).0.window_start ≡ window_start ts
unfolding record_for
record_for-window c name ts = of (get name c.records)
  where
    of :
        (o : Option BucketCounts)
        → (current c name (window_start ts) o).0.window_start ≡ window_start ts
    of none = refl
    of (some rec) = ground arith

-- Other buckets keep their rows.
pub get-record_for :
    (c : Counters) (name other : String) (ts : ℕ)
    → str_eq name other ≡ false
    → get other (record_for c name ts).1.records ≡ get other c.records
unfolding record_for
get-record_for c name other ts ne = of (get name c.records)
  where
    of :
        (o : Option BucketCounts)
        → get other (current c name (window_start ts) o).1.records ≡ get other c.records
    of none = get-put name other (fresh_counts (window_start ts)) c.records ∙ rw ne
    of (some rec) = elim (Bool-cases (rec.window_start == window_start ts)) [
      | inl e ↦ rw e
      | inr e ↦ rw e (get-put name other (rolled (window_start ts) rec) c.records ∙ rw ne)
    ]
