-- ===== src/Zen/Aggregate.antt =====
-- The answer to a client that does not stream, of proxy_opencode/upstreams/zen/aggregate.py: the
-- chunks of the upstream's stream are put together. What json.loads makes of a line is an argument,
-- as are the random id and the time of an answer without its own.
pub mod Calls
pub mod Parts
use Prim.Native.String.{◌++◌ as ◌++ₛ◌}
use proxy_opencode.Prelude.{
  ℕ, String, Bool, true, false, not, ◌&&◌, ◌||◌, Option, none, some, List, [], ◌∷◌, ◌++◌, leb, ◌==◌,
  str_eq, if◌then◌else◌,
}

-- A delta of a tool call; an empty text is a missing or a false one.
pub record CallDelta : Type 0 where
  pub index : ℕ
  pub id : String
  pub type : String
  pub name : String
  pub arguments : String

-- A choice of a chunk, with the texts of its delta.
pub record Choice : Type 0 where
  pub finish_reason : Option String
  pub content : String
  pub reasoning_content : String
  pub tool_calls : List CallDelta

-- A chunk, with its fields that are not false; `created` is none where it does not read as a number.
pub record Chunk (U : Type 0) : Type 0 where
  pub id : Option String
  pub created : Option ℕ
  pub usage : Option U
  pub choices : List Choice

-- A line of the stream: one without data, or whose data is no object; the end; or a chunk. After the
-- last line the stream ends.
pub data Line (U : Type 0) : Type 0 where
  other_line : Line U
  end_line : Line U
  chunk_line : Chunk U → Line U

-- The entry of a tool call, by its index.
pub record Slot : Type 0 where
  pub index : ℕ
  pub id : String
  pub type : String
  pub name : String
  pub arguments : String

abbrev pub is_empty : String → Bool
is_empty text = str_eq text ""

abbrev pub or_text : String → String → String
or_text new old = if is_empty new then old else new

abbrev fresh_slot : ℕ → Slot
fresh_slot i = record { index = i; id = ""; type = "function"; name = ""; arguments = "" }

-- What a delta does to the slot of its index.
unfoldable pub merge_slot : CallDelta → Slot → Slot
merge_slot d s = record s {
  id = or_text d.id s.id;
  type = or_text d.type s.type;
  name = s.name ++ₛ d.name;
  arguments = s.arguments ++ₛ d.arguments;
}

-- One round of the loop of `merge_tool_call_delta`, with `setdefault`.
unfoldable pub merge_call : CallDelta → List Slot → List Slot
unfolding merge_slot
merge_call d [] = merge_slot d (fresh_slot d.index) ∷ []
merge_call d (s ∷ ss) =
    let rest = merge_call d ss in if s.index == d.index then merge_slot d s ∷ ss else s ∷ rest

-- `merge_tool_call_delta`
unfoldable pub merge_tool_call_delta : List CallDelta → List Slot → List Slot
unfolding merge_call
merge_tool_call_delta [] acc = acc
merge_tool_call_delta (d ∷ ds) acc = merge_tool_call_delta ds (merge_call d acc)

-- The variables of `aggregate_sse`.
pub record Gathered (U : Type 0) : Type 0 where
  pub content_parts : List String
  pub reasoning_parts : List String
  pub tool_calls : List Slot
  pub finish_reason : Option String
  pub usage : Option U
  pub completion_id : String
  pub created : ℕ

abbrev pub added : String → List String → List String
added text parts = if is_empty text then parts else parts ++ (text ∷ [])

abbrev pub latest : {A : Type 0} → Option A → Option A → Option A
latest none old = old
latest (some new) old = some new

abbrev latest_or : {A : Type 0} → Option A → A → A
latest_or none old = old
latest_or (some new) old = new

module _ {U : Type 0} where
  -- One choice of a chunk.
  unfoldable pub gather_choice : Choice → Gathered U → Gathered U
  unfolding merge_tool_call_delta
  gather_choice c g = record g {
    finish_reason = latest c.finish_reason g.finish_reason;
    content_parts = added c.content g.content_parts;
    reasoning_parts = added c.reasoning_content g.reasoning_parts;
    tool_calls = merge_tool_call_delta c.tool_calls g.tool_calls;
  }

  unfoldable pub gather_choices : List Choice → Gathered U → Gathered U
  unfolding gather_choice
  gather_choices [] g = g
  gather_choices (c ∷ cs) g = gather_choices cs (gather_choice c g)

  unfoldable pub gather_chunk : Chunk U → Gathered U → Gathered U
  unfolding gather_choices
  gather_chunk c g = gather_choices c.choices (record g {
    completion_id = latest_or c.id g.completion_id;
    created = latest_or c.created g.created;
    usage = latest c.usage g.usage;
  })

  -- The loop over the lines, which the end of the stream leaves.
  unfoldable pub gather : List (Line U) → Gathered U → Gathered U
  unfolding gather_chunk
  gather [] g = g
  gather (other_line ∷ lines) g = gather lines g
  gather (end_line ∷ lines) g = g
  gather (chunk_line c ∷ lines) g = gather lines (gather_chunk c g)

unfoldable pub join : List String → String
join [] = ""
join (part ∷ parts) = part ++ₛ join parts

-- `sorted(tool_calls)`, by insertion.
unfoldable pub insert_slot : Slot → List Slot → List Slot
insert_slot s [] = s ∷ []
insert_slot s (t ∷ ts) = if leb s.index t.index then s ∷ t ∷ ts else t ∷ insert_slot s ts

unfoldable pub ordered : List Slot → List Slot
unfolding insert_slot
ordered [] = []
ordered (s ∷ ss) = insert_slot s (ordered ss)

abbrev pub is_nil : {A : Type 0} → List A → Bool
is_nil [] = true
is_nil (x ∷ xs) = false

-- The completion: `content` is the empty text for null, `reasoning_content` is none where the field
-- is missing.
pub record Completion (U : Type 0) : Type 0 where
  pub id : String
  pub created : ℕ
  pub content : String
  pub reasoning_content : Option String
  pub tool_calls : List Slot
  pub finish_reason : String
  pub usage : Option U
  pub upstream_stream_cut : Bool

unfoldable pub final_reason : Bool → Bool → Option String → String × Bool
final_reason has_calls has_text (some reason) = (reason, false)
final_reason true has_text none = ("tool_calls", false)
final_reason false true none = ("length", true)
final_reason false false none = ("stop", false)

module _ {U : Type 0} where
  -- The end of `aggregate_sse`.
  unfoldable pub complete : String → Gathered U → Completion U
  unfolding join ordered final_reason
  complete random_id g =
      let has_text = not (is_nil g.content_parts) || not (is_nil g.reasoning_parts) in
      let (reason, cut) = final_reason (not (is_nil g.tool_calls)) has_text g.finish_reason in
      record {
        id = or_text g.completion_id random_id;
        created = g.created;
        content = join g.content_parts;
        reasoning_content =
            if is_nil g.reasoning_parts then none else some (join g.reasoning_parts);
        tool_calls = ordered g.tool_calls;
        finish_reason = reason;
        usage = g.usage;
        upstream_stream_cut = cut;
      }

  abbrev pub nothing_yet : ℕ → Gathered U
  nothing_yet now = record {
    content_parts = [];
    reasoning_parts = [];
    tool_calls = [];
    finish_reason = none;
    usage = none;
    completion_id = "";
    created = now;
  }

  -- `aggregate_sse`, for a stream that does not stall.
  unfoldable pub aggregate_sse : String → ℕ → List (Line U) → Completion U
  unfolding gather complete
  aggregate_sse random_id now lines = complete random_id (gather lines (nothing_yet now))
