-- ===== src/ModelProfile.antt =====
-- The parameters of the upstream's models of proxy_opencode/model_profile.py: the estimate of a
-- prompt's tokens, the ceiling of the context and the budget of the output. The factors 0.15 and
-- 1.15 are written as fractions of 100.
pub mod Budget
use Prim.Native.String.{[] as []ₛ, ◌∷◌ as ◌∷ₛ◌, ◌++◌ as ◌++ₛ◌}
use proxy_opencode.Prelude.{
  ℕ, zero, suc, ◌+◌, ◌-◌, ◌*◌, ◌/◌, ◌%◌, String, Bool, true, false, Option, none, some, List, [],
  ◌∷◌, min, max, ltb, leb, ◌==◌, if◌then◌else◌,
}

pub record Limits : Type 0 where
  pub context : ℕ
  pub input : ℕ
  pub output : ℕ

-- The model's id, limits and declared efforts; the other capabilities are metadata.
pub record ModelProfile : Type 0 where
  pub id : String
  pub limits : Limits
  pub efforts : List String

-- `Limits.window`
unfoldable pub window : Limits → ℕ
window limits = if limits.input == 0 then limits.context else limits.input

unfoldable pub reserve_min : ℕ
reserve_min = 16000

unfoldable pub output_token_max : ℕ
output_token_max = 256000

unfoldable pub output_token_min : ℕ
output_token_min = 1024

unfoldable pub output_token_fallback : ℕ
output_token_fallback = 32000

-- `len(text)`
unfoldable pub text_length : String → ℕ
text_length []ₛ = 0
text_length (c ∷ₛ s) = suc (text_length s)

-- `round(n / 4)`, which rounds a half to the even number.
unfoldable pub round_quarter : ℕ → ℕ
round_quarter n =
    let q = n / 4 in let r = n % 4 in if ltb r 2 then q else if r == 2 then q + q % 2 else q + 1

-- `estimate_text`; `none` is a value that is no text.
unfoldable pub estimate_text : Option String → ℕ
unfolding round_quarter text_length
estimate_text none = 0
estimate_text (some text) = round_quarter (text_length text)

-- A value in a part of a content: a false one, a text that is not empty, or another one.
pub data PartValue : Type 0 where
  false_value : PartValue
  text_value : String → PartValue
  other_value : PartValue

-- A part: a text, an object with its `text` and its `content`, or something else.
pub data Part : Type 0 where
  plain_part : String → Part
  object_part : PartValue → PartValue → Part
  other_part : Part

pub data Content : Type 0 where
  text_content : String → Content
  parts : List Part → Content
  other_content : Content

abbrev text_or_empty : PartValue → String
text_or_empty false_value = ""
text_or_empty (text_value text) = text
text_or_empty other_value = ""

unfoldable pub part_text : Part → String
part_text (plain_part text) = text
part_text (object_part false_value content) = text_or_empty content
part_text (object_part text content) = text_or_empty text
part_text other_part = ""

unfoldable pub joined : List Part → String
unfolding part_text
joined [] = ""
joined (p ∷ ps) = part_text p ++ₛ joined ps

-- `_text_of`
unfoldable pub text_of : Content → String
unfolding joined
text_of (text_content text) = text
text_of (parts ps) = joined ps
text_of other_content = ""

-- The `name` and the `arguments` of a tool call's function, where it has one.
pub data Call : Type 0 where
  function_call : Option String → Option String → Call
  other_call : Call

pub data Message : Type 0 where
  message : Content → List Call → Message
  other_message : Message

-- A tool's `name`, `description` and the compact JSON of its parameters, where it has them.
pub data Tool : Type 0 where
  tool : Option String → Option String → Option String → Tool
  other_tool : Tool

unfoldable pub estimate_calls : List Call → ℕ
unfolding estimate_text
estimate_calls [] = 0
estimate_calls (function_call name arguments ∷ calls) =
    estimate_text name + estimate_text arguments + estimate_calls calls
estimate_calls (other_call ∷ calls) = estimate_calls calls

-- `estimate_message`
unfoldable pub estimate_message : Content → List Call → ℕ
unfolding estimate_text text_of estimate_calls
estimate_message content calls = estimate_text (some (text_of content)) + estimate_calls calls

unfoldable pub estimate_messages : List Message → ℕ
unfolding estimate_message
estimate_messages [] = 0
estimate_messages (message content calls ∷ ms) =
    estimate_message content calls + estimate_messages ms
estimate_messages (other_message ∷ ms) = estimate_messages ms

unfoldable pub estimate_tools : List Tool → ℕ
unfolding estimate_text
estimate_tools [] = 0
estimate_tools (tool name description parameters ∷ tools) =
    estimate_text name + estimate_text description + estimate_text parameters + estimate_tools tools
estimate_tools (other_tool ∷ tools) = estimate_tools tools

-- `estimate_request`
unfoldable pub estimate_request : List Message → List Tool → ℕ
unfolding estimate_messages estimate_tools
estimate_request messages tools = estimate_messages messages + estimate_tools tools

-- `compaction_ceiling`
unfoldable pub compaction_ceiling : Limits → ℕ
unfolding window reserve_min
compaction_ceiling limits =
    let w = window limits in
    let floor_reserve = if leb (2 * reserve_min) w then reserve_min else 0 in
    w - max (w * 15 / 100) floor_reserve

-- `math.ceil(estimated_input * (1 + ESTIMATE_ERROR))`
unfoldable pub with_error : ℕ → ℕ
with_error estimated_input = (estimated_input * 115 + 99) / 100

-- `output_budget`. A room below 0 is below the least output, as is 0.
unfoldable pub output_budget : Limits → ℕ → ℕ
unfolding output_token_fallback output_token_max output_token_min with_error
output_budget limits estimated_input =
    let most = if ltb 0 limits.output then limits.output else output_token_fallback in
    let requested = min most output_token_max in
    let room = limits.context - estimated_input - with_error estimated_input in
    if limits.context == 0 then requested else min requested (max output_token_min room)
