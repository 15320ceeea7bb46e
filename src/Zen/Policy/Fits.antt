-- ===== src/Zen/Policy/Fits.antt =====
-- The output budget that a request leaves with.
use proxy_opencode.Prelude.{ℕ, ◌+◌, ◌≤◌, ◌≡◌, ◌⊎◌, Option, none, some}
use proxy_opencode.Prelude.Dict.{Dict, get}
use proxy_opencode.ModelProfile.{ModelProfile}
use proxy_opencode.Zen.Policy.{
  Whole, nonneg, below, Value, null, integer, Body, budget_field, Policed, applied,
}

-- The value of the field that asks for output tokens.
abbrev pub budget_of : Body → Option Value
budget_of body = get (budget_field body.fields) body.fields

-- The reported tokens fit beside the prompt, and the field that asks for them says the same; where
-- none are reported none are asked for.
abbrev pub Within : ℕ → Body → ℕ → Option Whole → Type 0
Within context body estimated none = (budget_of body ≡ none) ⊎ (budget_of body ≡ some null)
Within context body estimated (some (below n)) = budget_of body ≡ some (integer (below n))
Within context body estimated (some (nonneg n)) =
    (estimated + n ≤ context) × (budget_of body ≡ some (integer (nonneg n)))

abbrev pub Fits : ℕ → Policed → Type 0
Fits context (applied body a) = Within context body a.estimated_input a.max_tokens
Fits context _ = Unit
