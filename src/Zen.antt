-- ===== src/Zen.antt =====
-- The attempts of one chat completion, of proxy_opencode/upstreams/zen/client.py: what one exchange
-- with the upstream does to the lease of its bucket, and the walk over the buckets of the pool. How
-- a bucket is acquired and what an exchange yields are arguments of the walk; `Leasing` acquires from
-- the pool.
pub mod Leasing
pub mod Blame
pub mod Walk
pub mod Fresh
pub mod Policy
pub mod Tools
pub mod Aggregate
mod Tests
use Prim.Native.String.{[] as []ₛ, ◌∷◌ as ◌∷ₛ◌, ◌++◌ as ◌++ₛ◌}
use proxy_opencode.Prelude.{
  ℕ, zero, suc, ◌-◌, String, Bool, true, false, not, ◌&&◌, ◌||◌, Option, none, some, List, [], ◌∷◌,
  min, ltb, leb, ◌==◌, str_eq, if◌then◌else◌,
}
use proxy_opencode.Prelude.Dict.{Dict, get}
use proxy_opencode.Egress.Models.{EgressState, cooling_down}
use proxy_opencode.Egress.Pool.Verdict.{Outcome}

unfoldable pub failover_max_attempts : ℕ
failover_max_attempts = 4

-- What one exchange yields: no response head in time; a status other than 200, with its Retry-After
-- and the `type` of the error in its body; the stream of an answer; an answer that was aggregated;
-- and how the aggregation or the exchange ends early. In the aggregation, `broken_transport` stands
-- for the errors of httpx and of connections, `broken` for the other exceptions. `unread_refusal` is
-- such an error of the transport while the body of a status other than 200 is read, and `fault`
-- any other exception outside the aggregation; `cancelled` is a cancellation. A text is the
-- exception's, as `_transport_error` gives it. The closing of a response is taken not to raise.
pub data Exchange : Type 0 where
  no_response : String → Exchange
  refused : ℕ → Option ℕ → Option String → Exchange
  streaming : Exchange
  aggregated : Exchange
  stream_stalled : String → Exchange
  broken_transport : String → Exchange
  broken : String → Exchange
  unread_refusal : String → Exchange
  fault : String → Exchange
  cancelled : Exchange

-- What becomes of the lease: it is released, or handed back, or the stream still holds it, or nobody
-- releases it.
pub data Settlement : Type 0 where
  released : Outcome → Settlement
  abandoned : Settlement
  in_stream : Settlement
  unreleased : Settlement

-- `is_free_tier_rejection`
unfoldable pub is_free_tier_rejection : ℕ → Option String → Bool
is_free_tier_rejection status none = false
is_free_tier_rejection status (some type) = (status == 403) && str_eq type "FreeTierError"

abbrev blamed : String → Option ℕ → Settlement
blamed kind after = released (record { ok = false; kind = kind; retry_after = after })

abbrev praised : Settlement
praised = released (record { ok = true; kind = ""; retry_after = none })

module _ (status_text : ℕ → String) (auth_free : Bool) where
  -- `_release_for_status`
  unfoldable pub release_for_status : ℕ → Option ℕ → Option String → Settlement
  unfolding is_free_tier_rejection
  release_for_status status after type =
      if status == 429
      then blamed "http_429" after
      else if leb 500 status
      then blamed ("http_" ++ₛ status_text status) none
      else if auth_free && is_free_tier_rejection status type
      then blamed "free_tier_rejected" none
      else praised

  -- What the exchange and the handlers of `chat` do to the lease.
  unfoldable pub settlement : Exchange → Settlement
  unfolding release_for_status
  settlement (no_response text) = blamed "transport" none
  settlement (refused status after type) = release_for_status status after type
  settlement streaming = in_stream
  settlement aggregated = praised
  settlement (stream_stalled text) = blamed "stream_stalled" none
  settlement (broken_transport text) = blamed "aggregate_error" none
  settlement (broken text) = blamed "aggregate_error" none
  settlement (unread_refusal text) = unreleased
  settlement (fault text) = abandoned
  settlement cancelled = abandoned

-- `STREAM_OUTCOMES`, with its default.
unfoldable pub stream_outcome : String → Outcome
stream_outcome outcome =
    let verdict : Bool → String → Outcome =
      λ ok kind. record { ok = ok; kind = kind; retry_after = none } in
    if str_eq outcome "completed"
    then verdict true ""
    else if str_eq outcome "disconnected"
    then verdict true "client_disconnected"
    else if str_eq outcome "cut"
    then verdict true "stream_cut"
    else if str_eq outcome "stalled"
    then verdict false "stream_stalled"
    else if str_eq outcome "interrupted"
    then verdict false "stream_interrupted"
    else verdict false outcome

-- What `chat` returns or raises.
pub data Answer : Type 0 where
  stream_relay : Answer
  json_body : Answer
  error_relay : ℕ → Option String → Answer
  egress_unavailable : Answer
  all_egress_cordoned : Answer
  connection_error : String → Answer
  raised : String → Answer
  was_cancelled : Answer

-- `_egress_gate_answer`
unfoldable pub egress_gate_answer : Bool → Answer → Answer
unfolding is_free_tier_rejection
egress_gate_answer auth_free (error_relay status type) =
    if auth_free && is_free_tier_rejection status type
    then egress_unavailable
    else error_relay status type
egress_gate_answer auth_free a = a

-- How `chat` takes an exchange: as its answer, or as a failure of the bucket, with the answer for
-- when there is no other bucket.
pub data Judgement : Type 0 where
  final : Answer → Judgement
  failed : Answer → Judgement

unfoldable pub judge_status : Bool → ℕ → Option String → Judgement
unfolding is_free_tier_rejection egress_gate_answer
judge_status auth_free status type =
    if status == 429
    then failed (error_relay status type)
    else if leb 500 status
    then failed (error_relay status type)
    else if auth_free && is_free_tier_rejection status type
    then failed (egress_gate_answer auth_free (error_relay status type))
    else final (error_relay status type)

unfoldable pub judge : Bool → Exchange → Judgement
unfolding judge_status
judge auth_free (no_response text) = failed (connection_error text)
judge auth_free (refused status after type) = judge_status auth_free status type
judge auth_free streaming = final stream_relay
judge auth_free aggregated = final json_body
judge auth_free (stream_stalled text) = failed (connection_error text)
judge auth_free (broken_transport text) = failed (connection_error text)
judge auth_free (broken text) = final (raised text)
judge auth_free (unread_refusal text) = failed (connection_error text)
judge auth_free (fault text) = final (raised text)
judge auth_free cancelled = final was_cancelled

abbrev pub answer_of : Judgement → Answer
answer_of (final a) = a
answer_of (failed a) = a

abbrev pub has_failed : Judgement → Bool
has_failed (final a) = false
has_failed (failed a) = true

-- The end of a walk: the answer, the buckets in order with what they yielded, and the state.
pub record Ended (W : Type 0) : Type 0 where
  pub answer : Answer
  pub trail : List (String × Exchange)
  pub state : W

abbrev pub after_bucket : {W : Type 0} → String × Exchange → Ended W → Ended W
after_bucket visit r = record r { trail = visit ∷ r.trail }

-- `acquire` is told the conversation's key (or the empty text) and the buckets to leave out.
module _ {W : Type 0} (auth_free : Bool) (acquire : W → String → List String → Option (String × W))
    (exchange : W → String → Exchange × W) where
  -- The loop of `chat`. Its first argument is the number of attempts that are left.
  unfoldable pub walk : ℕ → List String → W → String → Ended W
  unfolding judge
  walk zero tried w name =
      let (e, w') = exchange w name in
      record { answer = answer_of (judge auth_free e); trail = (name, e) ∷ []; state = w' }
  walk (suc left) tried w name =
      let (e, w') = exchange w name in
      let stop : Answer → Ended W =
        λ a. record { answer = a; trail = (name, e) ∷ []; state = w' } in
      elim (judge auth_free e) [
        | final a ↦ stop a
        | failed a ↦ elim left [
          | zero ↦ stop a
          | suc n ↦ elim (acquire w' "" (name ∷ tried)) [
            | none ↦ stop a
            | some (next, w'') ↦ after_bucket (name, e) (walk left (name ∷ tried) w'' next)
          ]
        ]
      ]

  -- `chat` with a pool of `size` buckets.
  unfoldable pub chat : ℕ → String → W → Ended W
  unfolding walk failover_max_attempts
  chat size session_key w = elim (acquire w session_key []) [
    | none ↦ record { answer = all_egress_cordoned; trail = []; state = w }
    | some (name, w') ↦ walk (min size failover_max_attempts) [] w' name
  ]

-- `_header_deadline_s`: `none` for an exchange without a lease, else the state of its bucket.
unfoldable pub header_deadline : ℕ → ℕ → ℕ → Option EgressState → ℕ
unfolding cooling_down
header_deadline full short now none = full
header_deadline full short now (some s) =
    if (short == 0) || not (cooling_down s now)
    then full
    else if ltb 0 full
    then min full short
    else short
