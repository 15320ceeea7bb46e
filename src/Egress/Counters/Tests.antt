-- ===== src/Egress/Counters/Tests.antt =====
-- The counters of one bucket with a threshold of three requests, over a few moments of one window.
use proxy_opencode.Prelude.{◌≡◌, refl, true, none, List, [], ◌∷◌, inl, length, if◌then◌else◌}
use proxy_opencode.Prelude.Dict.{get}
use proxy_opencode.Egress.Models.Window.{next_window_reset}
use proxy_opencode.Egress.CountRows.{Reading}
use proxy_opencode.Egress.Counts.{
  garbled, fresh_counts, CounterConfig, Counters, no_file, window_start,
}
use proxy_opencode.Egress.Counters.{is_metered, save, open_counters, positive, reached}
use proxy_opencode.Egress.Counters.Firing.{Completed, token_sum, firings, fires_exactly_once}
use proxy_opencode.Egress.Counters.Snapshot.{renewed, restart_restores}

abbrev config : CounterConfig
config = record {
  thresholds = ("home", 3) ∷ [];
  token_budgets = ("home", 1000) ∷ [];
  hard_retry_after = 3600000;
  retry_cooldown = 900000;
  hard_min_interval = 1800000;
  persistent = true;
}

-- The row began with its window.
abbrev opened : Counters
opened = record {
  config = config;
  records = ("home", fresh_counts 0) ∷ [];
  file = no_file;
  rollovers = [];
}

-- Four requests, the second of which uses the budget up.
abbrev requests : List Completed
requests = (10, 5000) ∷ (2000, 6000) ∷ (10, 7000) ∷ (10, 8000) ∷ []

fires_exactly_once_example :
    firings opened "home" requests
    ≡ (if reached config "home" (length requests) (token_sum requests) then 1 else 0)
unfolding fresh_counts window_start next_window_reset get
fires_exactly_once_example =
    fires_exactly_once opened "home" 0 requests {rec = fresh_counts 0} refl refl (refl, refl, refl)
      refl (refl, (refl, (refl, (refl, tt))))

reached-requests : reached config "home" (length requests) (token_sum requests) ≡ true
unfolding reached
reached-requests = refl

-- The row of a window that is over, one of the current window, and one of a bucket that is retired.
abbrev used : Counters
used = record opened {
  config = record config { thresholds = ("home", 3) ∷ ("spare", 5) ∷ [] };
  records =
      ("home", record (fresh_counts 5) { count = 2; tokens = 70 })
      ∷ ("spare", record (fresh_counts 144000000) { count = 4; tokens = 9 })
      ∷ ("gone", fresh_counts 144000000)
      ∷ [];
}

abbrev literal : Reading
literal = record { number_in = λ s. none; shown = λ value. ""; moment_in = λ s. garbled s }

restart_restores_example :
    get "spare" (open_counters literal used.config (save used).file 150000000).records ≡ (
      if is_metered used.config "spare"
      then renewed (window_start 150000000) (get "spare" used.records)
      else none)
unfolding positive fresh_counts window_start is_metered next_window_reset
restart_restores_example =
    restart_restores literal used.config used 150000000 "spare" refl refl
      (inl refl, (inl refl, (inl refl, tt))) (tt, ((refl, tt), ((refl, (refl, tt)), tt)))
