-- ===== src/Zen/Policy.antt =====
-- What a model accepts, of proxy_opencode/upstreams/zen/policy.py: the controls of the reasoning, the
-- guard of the context and the budget of the output. A body is the values of its fields, beside its
-- messages and tools. The parse of a text as a number and the normal form of an effort's name are
-- arguments.
pub mod Fits
use proxy_opencode.Prelude.{
  ℕ, ◌≤◌, String, Bool, true, false, not, ◌&&◌, ◌||◌, Option, none, some, List, [], ◌∷◌, ltb, leb,
  ◌==◌, str_eq, is_some, any, if◌then◌else◌,
}
use proxy_opencode.Prelude.Dict.{Dict, get, put, remove}
use proxy_opencode.Egress.Pool.Select.{among}
use proxy_opencode.ModelProfile.{
  Limits, ModelProfile, window, Message, Tool, estimate_request, compaction_ceiling, output_budget,
}

-- An `int`: `below n` is `-(n + 1)`.
pub data Whole : Type 0 where
  nonneg : ℕ → Whole
  below : ℕ → Whole

-- A JSON value as `_coerce_output_int` tells them apart; a float is given by the whole number that
-- it is, if it is one.
pub data Value : Type 0 where
  null : Value
  boolean : Bool → Value
  integer : Whole → Value
  float : Option Whole → Value
  text : String → Value
  other_value : Value

pub record Body : Type 0 where
  pub fields : Dict Value
  pub messages : List Message
  pub tools : List Tool

unfoldable pub control_fields : List String
control_fields =
    "reasoning_effort" ∷ "thinking" ∷ "reasoning" ∷ "include_reasoning" ∷ "budget_tokens" ∷ []

unfoldable pub reasoning_policies : List String
reasoning_policies = "max" ∷ "client" ∷ "off" ∷ []

unfoldable pub output_budget_modes : List String
output_budget_modes = "mirror" ∷ "clamp" ∷ "off" ∷ []

pub record Applied : Type 0 where
  pub estimated_input : ℕ
  pub dropped : List String
  pub max_tokens : Option Whole
  pub clamped : Bool
  pub context_ceiling : ℕ

abbrev is_nonempty : List String → Bool
is_nonempty [] = false
is_nonempty (x ∷ xs) = true

module _ (normal_form : String → String) where
  -- `isinstance(value, str) and value.strip().lower() in declared`
  unfoldable pub is_declared : List String → Value → Bool
  unfolding among
  is_declared declared (text effort) = among declared (normal_form effort)
  is_declared declared _ = false

  -- The loop of `_apply_reasoning_policy` over the fields.
  unfoldable pub drop_controls :
      List String → String → List String → Dict Value → List String × Dict Value
  unfolding is_declared get remove
  drop_controls declared policy [] fields = ([], fields)
  drop_controls declared policy (field ∷ rest) fields =
      let kept = drop_controls declared policy rest fields in
      let (names, left) = drop_controls declared policy rest (remove field fields) in
      elim (get field fields) [
        | none ↦ kept
        | some value ↦
            if str_eq policy "client"
            then kept
            else if str_eq policy "max"
                && (is_nonempty declared
                    && (str_eq field "reasoning_effort" && is_declared declared value))
            then kept
            else (field ∷ names, left)
      ]

abbrev declared_efforts : Option ModelProfile → List String
declared_efforts none = []
declared_efforts (some p) = p.efforts

-- `_coerce_output_int`
unfoldable pub coerce_output_int : (String → Option Whole) → Value → Option Whole
coerce_output_int read_int null = none
coerce_output_int read_int (boolean b) = none
coerce_output_int read_int (integer n) = some n
coerce_output_int read_int (float n) = n
coerce_output_int read_int (text digits) = read_int digits
coerce_output_int read_int other_value = none

abbrev pub budget_field : Dict Value → String
budget_field fields =
    if is_some (get "max_completion_tokens" fields) then "max_completion_tokens" else "max_tokens"

-- `current <= budget`
abbrev pub at_most : Whole → ℕ → Bool
at_most (nonneg n) budget = leb n budget
at_most (below n) budget = true

-- The budget that a request asks for, where the field is there and not null.
abbrev asked : Option Value → Option Value
asked none = none
asked (some null) = none
asked (some value) = some value

-- The end of `_apply_output_budget`: the tokens, whether they were clamped, and the field's value.
unfoldable pub fit : ℕ → Option Whole → Whole × Bool
fit budget none = (nonneg budget, true)
fit budget (some current) =
    if at_most current budget then (current, false) else (nonneg budget, true)

-- `_apply_output_budget`
unfoldable pub apply_output_budget :
    (String → Option Whole) → Dict Value → Limits → ℕ → String → (Option Whole × Bool) × Dict Value
unfolding output_budget get put coerce_output_int fit
apply_output_budget read_int fields limits estimated mode =
    let budget = output_budget limits estimated in
    let field = budget_field fields in
    if str_eq mode "off" then ((none, false), fields) else elim (asked (get field fields)) [
      | none ↦
          if str_eq mode "clamp"
          then ((none, false), fields)
          else ((some (nonneg budget), false), put field (integer (nonneg budget)) fields)
      | some value ↦
          let (tokens, clamped) = fit budget (coerce_output_int read_int value) in
          ((some tokens, clamped), put field (integer tokens) fields)
    ]

-- What `apply_request_policy` returns or raises; a `ContextOverflow` with its estimate, limit,
-- context and ceiling.
pub data Policed : Type 0 where
  unknown_policy : String → Policed
  unknown_mode : String → Policed
  context_overflow : ℕ → ℕ → ℕ → ℕ → Policed
  applied : Body → Applied → Policed

abbrev or_else : ℕ → ℕ → ℕ
or_else n m = if n == 0 then m else n

module _ (normal_form : String → String) (read_int : String → Option Whole) where
  -- The part of `apply_request_policy` for a known profile.
  unfoldable pub enforce : Body → ModelProfile → List String → Bool → ℕ → String → Policed
  unfolding estimate_request window compaction_ceiling apply_output_budget
  enforce body p dropped context_guard input_limit_override mode =
      let estimated = estimate_request body.messages body.tools in
      let limit = or_else input_limit_override (window p.limits) in
      let ceiling = compaction_ceiling p.limits in
      let ((max_tokens, clamped), fields) =
        apply_output_budget read_int body.fields p.limits estimated mode in
      if context_guard && (ltb 0 limit && ltb limit estimated)
      then context_overflow estimated limit (or_else p.limits.context limit) ceiling
      else applied (record body { fields = fields })
          (record {
            estimated_input = estimated;
            dropped = dropped;
            max_tokens = max_tokens;
            clamped = clamped;
            context_ceiling = ceiling;
          })

  -- `apply_request_policy`
  unfoldable pub apply_request_policy :
      Body → Option ModelProfile → String → Bool → ℕ → String → Policed
  unfolding reasoning_policies output_budget_modes among drop_controls control_fields enforce
  apply_request_policy body profile policy context_guard input_limit_override mode =
      let (dropped, fields) =
        drop_controls normal_form (declared_efforts profile) policy control_fields body.fields in
      let body' = record body { fields = fields } in
      if not (among reasoning_policies policy)
      then unknown_policy policy
      else if not (among output_budget_modes mode)
      then unknown_mode mode
      else elim profile [
        | none ↦ applied body' (record {
          estimated_input = 0;
          dropped = dropped;
          max_tokens = none;
          clamped = false;
          context_ceiling = 0;
        })
        | some p ↦ enforce body' p dropped context_guard input_limit_override mode
      ]
