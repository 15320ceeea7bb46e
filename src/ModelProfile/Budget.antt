-- ===== src/ModelProfile/Budget.antt =====
-- The room that the output budget leaves.
use proxy_opencode.Prelude.{ℕ, ◌+◌, ◌≤◌, ◌<◌, arith}
use proxy_opencode.ModelProfile.{Limits, output_budget}

-- A prompt that leaves room for the least output has room for the budget's.
pub output_budget-fits :
    (limits : Limits) (estimated : ℕ)
    → 0 < limits.context
    → estimated + 1024 ≤ limits.context
    → estimated + output_budget limits estimated ≤ limits.context
unfolding output_budget
output_budget-fits limits estimated known room = ground arith
