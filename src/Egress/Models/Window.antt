-- ===== src/Egress/Models/Window.antt =====
-- The quota window of proxy_opencode/egress/models.py. A moment is a number of milliseconds since
-- the epoch; the window's zone is UTC+8, so 08:00 there is midnight UTC.
use proxy_opencode.Prelude.{ℕ, ◌+◌, ◌-◌, ◌*◌, ◌%◌, ◌≤◌, ◌<◌, ◌≡◌, leb, arith, if◌then◌else◌}

abbrev pub day : ℕ
day = 86400 * 1000

-- 8 hours: the offset of the zone, and the hour at which the window resets.
abbrev eight_hours : ℕ
eight_hours = 28800 * 1000

-- The clock of the zone reads `now + 8 h`. Its date is kept and its time of day becomes 08:00; as a
-- moment since the epoch that is 8 h less.
unfoldable pub next_window_reset : ℕ → ℕ
next_window_reset now =
    let local = now + eight_hours in
    let reset = local - local % day + eight_hours - eight_hours in
    if leb reset now then reset + day else reset

-- `max(0.0, next_window_reset() - time.time())`, with the two readings of the wall clock.
unfoldable pub seconds_to_window_reset : ℕ → ℕ → ℕ
unfolding next_window_reset
seconds_to_window_reset now later = next_window_reset now - later

-- The next reset is the first midnight UTC after the given moment: it is a whole number of days
-- since the epoch, later than the moment, and at most one day later.
pub next_window_reset_lem :
    (now : ℕ)
    → (next_window_reset now % day ≡ 0)
      × (now < next_window_reset now)
      × (next_window_reset now ≤ now + day)
unfolding next_window_reset
next_window_reset_lem now = ground arith

-- With a wall clock that does not run backwards between the two readings, the wait for the reset is
-- at most a day, and the reset is not before its end.
pub seconds_to_window_reset-le :
    (now later : ℕ)
    → now ≤ later
    → (seconds_to_window_reset now later ≤ day)
      × (next_window_reset now ≤ later + seconds_to_window_reset now later)
unfolding seconds_to_window_reset
seconds_to_window_reset-le now later h =
    let (_, after, within) = next_window_reset_lem now in (omega arith, omega arith)
