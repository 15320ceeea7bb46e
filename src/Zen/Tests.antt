-- ===== src/Zen/Tests.antt =====
-- A chat completion over two buckets, the first of which answers 429, and the budget of its output.
use proxy_opencode.Prelude.{
  ℕ, ◌≤◌, ◌≡◌, ◌↔◌, ◌⊎◌, refl, String, Bool, true, false, Option, none, some, List, [], ◌∷◌, min,
  length, arith, str_eq, if◌then◌else◌,
}
use proxy_opencode.Egress.Models.{EgressSpec, EgressState, fresh, seconds}
use proxy_opencode.Egress.Pool.{Pool}
use proxy_opencode.Egress.Pool.Select.{among}
use proxy_opencode.Egress.Pool.World.{World, start}
use proxy_opencode.ModelProfile.{ModelProfile}
use proxy_opencode.Zen.{
  Exchange, refused, unreleased, streaming, stream_relay, Ended, chat, judge, has_failed,
  settlement,
}
use proxy_opencode.Zen.Leasing.{Turn, pool_acquire}
use proxy_opencode.Zen.Blame.{IsBlamed, walks_on_iff_IsBlamed}
use proxy_opencode.Zen.Walk.{Distinct, Reports}
use proxy_opencode.Zen.Fresh.{pool_acquire-excludes, chat_over_pool}
use proxy_opencode.Zen.Tools.{
  Tool, function_name, bare_name, outer_name, tool_names, client_name, rename_collisions,
}
use proxy_opencode.Zen.Tools.Restore.{restore_names, rename_collisions-restored}
use proxy_opencode.Zen.Aggregate.{CallDelta, Line, chunk_line, other_line, end_line, aggregate_sse}
use proxy_opencode.Zen.Aggregate.Calls.{arguments_at, pieces, aggregate_sse-arguments}
use proxy_opencode.Zen.Policy.{Whole, nonneg, integer, Body}
use proxy_opencode.Zen.Policy.Fits.{Fits}

-- The client's `bash` has a builtin's name, its `fetch` and its `search` have not.
abbrev builtins : List Tool
builtins = record { name = function_name "bash"; schema = "" } ∷ []

abbrev client_tools : List Tool
client_tools =
    record { name = function_name "bash"; schema = "{}" }
    ∷ record { name = bare_name "fetch"; schema = "{}" }
    ∷ record { name = outer_name "search"; schema = "{}" }
    ∷ []

rename_collisions-restored_example :
    let ((out, _), restore) = rename_collisions client_tools [] builtins [] in
    restore_names restore (tool_names out) ≡ tool_names client_tools
unfolding tool_names client_name
rename_collisions-restored_example =
    rename_collisions-restored client_tools builtins [] ((refl, tt), ((refl, tt), ((refl, tt), tt)))

-- Two calls whose pieces alternate, and a piece after the end mark.
abbrev delta : ℕ → String → CallDelta
delta i text = record { index = i; id = ""; type = ""; name = ""; arguments = text }

abbrev chunk_of : List CallDelta → Line ℕ
chunk_of ds = chunk_line (record {
  id = none;
  created = none;
  usage = none;
  choices =
      record { finish_reason = none; content = ""; reasoning_content = ""; tool_calls = ds } ∷ [];
})

abbrev stream : List (Line ℕ)
stream =
    chunk_of (delta 1 "{" ∷ delta 0 "[" ∷ [])
    ∷ other_line
    ∷ chunk_of (delta 0 "]" ∷ delta 1 "}" ∷ [])
    ∷ end_line
    ∷ chunk_of (delta 0 "!" ∷ [])
    ∷ []

aggregate_sse-arguments_example :
    arguments_at 1 (aggregate_sse "id" 0 stream).tool_calls ≡ pieces 1 stream
aggregate_sse-arguments_example = aggregate_sse-arguments "id" 0 1 stream

pieces-stream : pieces 1 stream ≡ "{}"
unfolding pieces
pieces-stream = refl

abbrev any_prefix : EgressSpec → String → Bool
any_prefix spec ip = true

abbrev home : EgressSpec
home = record { name = "home"; agent_url = "http://10.0.0.1"; expect_prefix = none }

abbrev spare : EgressSpec
spare = record { name = "spare"; agent_url = "http://10.0.0.2"; expect_prefix = none }

abbrev up : EgressSpec → EgressState
up spec = record (fresh spec) { healthy = true }

abbrev pool : Pool
pool = record {
  config = record {
    cordon_s = seconds 900;
    cooldown_s = seconds 5;
    cooldown_max_s = seconds 60;
    quota_cordon_max_s = 0;
    probe_fail_tolerance = 2;
    max_inflight = 4;
    inflight_wait_s = seconds 10;
    affinity_ttl_s = seconds 600;
    last_resort = [];
  };
  states = up home ∷ up spare ∷ [];
  rr = 0;
  affinity = [];
  observed = true;
  events = [];
  notices = [];
}

abbrev turn : ℕ → Turn
turn now = record { now = now; started = now; checked = now; sleeps = []; bound_at = now }

abbrev turns : List Turn
turns = turn (seconds 1) ∷ turn (seconds 2) ∷ turn (seconds 3) ∷ []

-- One bucket is out of quota; the pool stays as it is.
abbrev upstream : World × List Turn → String → Exchange × (World × List Turn)
upstream w name = (if str_eq name "home" then refused 429 none none else streaming, w)

abbrev ended : Ended (World × List Turn)
ended = chat true (pool_acquire any_prefix) upstream 2 "session" (start pool, turns)

ended-answer : (ended.answer ≡ stream_relay) × (length ended.trail ≡ 2)
unfolding chat pool_acquire fresh
ended-answer = (refl, refl)

chat_over_pool_example :
    Distinct ended.trail × (length ended.trail ≤ min 2 4) × Reports true ended.answer ended.trail
chat_over_pool_example =
    chat_over_pool any_prefix true upstream 2 "session" (start pool, turns) (omega arith)

left_out :
    (r : World × List Turn) × (pool_acquire any_prefix (start pool, turns) "" ("home" ∷ [])
      ≡ some ("spare", r))
unfolding pool_acquire fresh
left_out = (_, refl)

pool_acquire-excludes_example : among ("home" ∷ []) "spare" ≡ false
pool_acquire-excludes_example =
    pool_acquire-excludes any_prefix (start pool) turns ("home" ∷ []) "spare" left_out.0 left_out.1

abbrev no_text : ℕ → String
no_text n = "503"

walks_on_iff_IsBlamed_example : (has_failed (judge true (refused 503 none none)) ≡ true) ↔ (
    (IsBlamed (settlement no_text true (refused 503 none none)) × (¬ ⊥))
    ⊎ (⊥ × (settlement no_text true (refused 503 none none) ≡ unreleased)))
walks_on_iff_IsBlamed_example = walks_on_iff_IsBlamed no_text true (refused 503 none none)

abbrev big_pickle : ModelProfile
big_pickle = record {
  id = "big-pickle";
  limits = record { context = 262139; input = 261000; output = 32000 };
  efforts = [];
}

abbrev greedy : Body
greedy = record { fields = ("max_tokens", integer (nonneg 99999)) ∷ []; messages = []; tools = [] }

abbrev same_text : String → String
same_text s = s

abbrev no_number : String → Option Whole
no_number s = none
