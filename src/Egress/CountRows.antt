-- ===== src/Egress/CountRows.antt =====
-- The rows of the counters' snapshot, of `as_json` and `load` in proxy_opencode/egress/counters.py:
-- each is an object with a field for each part of the counts.
use proxy_opencode.Prelude.{
  ℕ, String, Bool, true, false, not, Option, none, some, [], ◌∷◌, ◌==◌, str_eq, if◌then◌else◌,
}
use proxy_opencode.Prelude.Dict.{Dict, get}
use proxy_opencode.Egress.Counts.{
  Stamp, blank, at, garbled, BucketCounts, Field, null, boolean, number, words, moment, compound,
  Row, object,
}

-- `null` for no result, else whether it was one.
abbrev pub ok_field : Option Bool → Field
ok_field none = null
ok_field (some ok) = boolean ok

unfoldable pub as_row : BucketCounts → Dict Field
as_row rec =
    ("window_start", number rec.window_start)
    ∷ ("count", number rec.count)
    ∷ ("tokens", number rec.tokens)
    ∷ ("triggered", boolean rec.triggered)
    ∷ ("rotations", number rec.rotations)
    ∷ ("last_rotation_ok", ok_field rec.last_rotation_ok)
    ∷ ("last_rotation_at", moment rec.last_rotation_at)
    ∷ ("last_rotation_detail", words rec.last_rotation_detail)
    ∷ ("last_rotation_epoch", number rec.last_rotation_epoch)
    ∷ []

-- `as_json`
unfoldable pub as_rows : Dict BucketCounts → Dict Row
unfolding as_row
as_rows [] = []
as_rows ((name, rec) ∷ d) = (name, object (as_row rec)) ∷ as_rows d

-- What Python's conversions make of a value: the number that a text reads as, where `int` or `float`
-- does not raise; the `str` of a value that is no text; the moment that a text is.
pub record Reading : Type 0 where
  pub number_in : String → Option ℕ
  pub shown : Field → String
  pub moment_in : String → Stamp

-- `bool(value)`, with a missing value as `null`.
unfoldable pub is_true : Field → Bool
is_true null = false
is_true (boolean b) = b
is_true (number n) = not (n == 0)
is_true (words s) = not (str_eq s "")
is_true (moment blank) = false
is_true (moment (at t)) = true
is_true (moment (garbled s)) = not (str_eq s "")
is_true (compound some_part) = some_part

-- `raw.get(key)`
unfoldable pub field : String → Dict Field → Field
unfolding get
field key fields = elim (get key fields) [ none ↦ null | some value ↦ value ]

-- `int(value or 0)` and `float(value or 0.0)`, with `none` for their exception.
unfoldable pub to_number : Reading → Field → Option ℕ
to_number reads null = some 0
to_number reads (boolean b) = some (if b then 1 else 0)
to_number reads (number n) = some n
to_number reads (words s) = if str_eq s "" then some 0 else reads.number_in s
to_number reads (moment blank) = some 0
to_number reads (moment (at t)) = none
to_number reads (moment (garbled s)) = if str_eq s "" then some 0 else reads.number_in s
to_number reads (compound some_part) = if some_part then none else some 0

-- `None` where there is no value, else its `bool`.
unfoldable pub to_ok : Field → Option Bool
unfolding is_true
to_ok null = none
to_ok value = some (is_true value)

-- `str(value or "")`, as the time of a rotation and as a text.
unfoldable pub to_moment : Reading → Field → Stamp
unfolding is_true
to_moment reads (moment t) = t
to_moment reads (words s) = if str_eq s "" then blank else reads.moment_in s
to_moment reads value = if is_true value then reads.moment_in (reads.shown value) else blank

unfoldable pub to_text : Reading → Field → String
unfolding is_true
to_text reads (words s) = s
to_text reads value = if is_true value then reads.shown value else ""

-- The `BucketCounts` of a row's fields, with `none` for an exception of their conversions.
unfoldable pub read_row : Reading → Dict Field → Option BucketCounts
unfolding field is_true to_number to_ok to_moment to_text
read_row reads raw = elim (to_number reads (field "window_start" raw)) [
  | none ↦ none
  | some win ↦ elim (to_number reads (field "count" raw)) [
    | none ↦ none
    | some count ↦ elim (to_number reads (field "tokens" raw)) [
      | none ↦ none
      | some tokens ↦ elim (to_number reads (field "rotations" raw)) [
        | none ↦ none
        | some rotations ↦ elim (to_number reads (field "last_rotation_epoch" raw)) [
          | none ↦ none
          | some epoch ↦ some (record {
            window_start = win;
            count = count;
            tokens = tokens;
            triggered = is_true (field "triggered" raw);
            rotations = rotations;
            last_rotation_ok = to_ok (field "last_rotation_ok" raw);
            last_rotation_at = to_moment reads (field "last_rotation_at" raw);
            last_rotation_detail = to_text reads (field "last_rotation_detail" raw);
            last_rotation_epoch = epoch;
          })
        ]
      ]
    ]
  ]
]
