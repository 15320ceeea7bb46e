-- ===== src/Egress/Rotation.antt =====
-- One rotation of a bucket, of proxy_opencode/egress/rotate.py: the call of the agent, the wait for
-- another address, and the outcome (`_agent_rotate`, `_probe_ip`, `_wait_for_ip_change` and
-- `_rotate_flow`). The answers of the agent are arguments.
use Prim.Native.String.{◌++◌ as ◌++ₛ◌}
use proxy_opencode.Prelude.{
  ℕ, ◌+◌, String, Bool, true, false, not, ◌&&◌, Option, none, some, List, [], ◌∷◌, ltb, ◌==◌,
  str_eq, if◌then◌else◌,
}

-- The answer to `POST /rotate`: none for a transport error, with its text; or a status, whether the
-- body is an object whose `ok` holds, and the text that the body gives (or that stands for it); or
-- what makes `_agent_rotate` raise, as a body does whose first result is no object.
pub data AgentReply : Type 0 where
  transport_error : String → AgentReply
  agent_answer : ℕ → Bool → String → AgentReply
  unreadable_answer : AgentReply

pub record AgentVerdict : Type 0 where
  pub ok : Bool
  pub detail : String
  pub unreachable : Bool

-- `_agent_rotate`, with `none` for the exception that it does not handle.
unfoldable pub agent_rotate : AgentReply → Option AgentVerdict
agent_rotate unreadable_answer = none
agent_rotate (transport_error text) =
    some (record { ok = false; detail = "agent unreachable: " ++ₛ text; unreachable = true })
agent_rotate (agent_answer status ok detail) =
    some (record { ok = (status == 200) && ok; detail = detail; unreachable = false })

-- The answer to `GET /healthz` during the wait: none that reads, or a status, whether the body is an
-- object whose `ready` holds, and the address, the empty text if there is none.
pub data HealthReply : Type 0 where
  no_health : HealthReply
  health : ℕ → Bool → String → HealthReply

-- `_probe_ip`
unfoldable pub probe_ip : HealthReply → Option String
probe_ip no_health = none
probe_ip (health status ready ip) =
    if (status == 200) && (ready && not (str_eq ip "")) then some ip else none

-- `ip == ip_from`
unfoldable pub is_old : Option String → String → Bool
is_old none ip = false
is_old (some from) ip = str_eq ip from

-- The loop of `_wait_for_ip_change`: each round is the reading of the clock before it and the answer
-- in it. After the last round the deadline has passed.
unfoldable pub wait_for_ip_change : ℕ → Option String → List (ℕ × HealthReply) → Option String
unfolding probe_ip is_old
wait_for_ip_change deadline ip_from [] = none
wait_for_ip_change deadline ip_from ((now, reply) ∷ rounds) =
    let rest = wait_for_ip_change deadline ip_from rounds in
    if not (ltb now deadline) then none else elim (probe_ip reply) [
      | none ↦ rest
      | some ip ↦ if is_old ip_from ip then rest else some ip
    ]

-- How an address is shown: `None` for none, and in the text of a change `?`.
unfoldable pub ip_text : String → Option String → String
ip_text absent none = absent
ip_text absent (some ip) = ip

unfoldable pub or_unknown : Option String → String
or_unknown none = "?"
or_unknown (some ip) = if str_eq ip "" then "?" else ip

unfoldable pub changed_text : Option String → String → String
unfolding or_unknown
changed_text ip_from ip = "egress ip " ++ₛ (or_unknown ip_from ++ₛ (" -> " ++ₛ ip))

unfoldable pub unchanged_text : Option String → String → String
unfolding ip_text
unchanged_text ip_from timeout_text =
    "egress ip unchanged (" ++ₛ (ip_text "None" ip_from ++ₛ (") after " ++ₛ (timeout_text ++ₛ "s")))

-- `RotationOutcome`, without the name and the trigger, which the caller knows.
pub record RotationOutcome : Type 0 where
  pub ok : Bool
  pub detail : String
  pub ip_from : Option String
  pub ip_to : Option String

unfoldable pub failed_with : String → Option String → RotationOutcome
failed_with detail ip_from = record { ok = false; detail = detail; ip_from = ip_from; ip_to = none }

-- `_rotate_flow` after the poll.
unfoldable pub judge_poll : AgentVerdict → Option String → String → Option String → RotationOutcome
unfolding changed_text unchanged_text failed_with
judge_poll agent ip_from timeout_text (some ip) =
    let detail = changed_text ip_from ip in
    record {
      ok = true;
      detail = if agent.ok then detail else "agent unreachable during call, but " ++ₛ detail;
      ip_from = ip_from;
      ip_to = some ip;
    }
judge_poll agent ip_from timeout_text none =
    let detail = unchanged_text ip_from timeout_text in
    if agent.ok
    then failed_with detail ip_from
    else failed_with ("agent rotate unreachable: " ++ₛ (agent.detail ++ₛ ("; " ++ₛ detail))) ip_from

-- `_rotate_flow`, with `none` for an exception; `now` is the reading that sets the deadline.
unfoldable pub rotate_flow :
    ℕ → String → Option String → AgentReply → ℕ → List (ℕ × HealthReply) → Option RotationOutcome
unfolding agent_rotate wait_for_ip_change judge_poll failed_with
rotate_flow timeout_s timeout_text ip_from reply now rounds = elim (agent_rotate reply) [
  | none ↦ none
  | some agent ↦ some (
      if not agent.ok && not agent.unreachable
      then failed_with ("agent rotate refused: " ++ₛ agent.detail) ip_from
      else judge_poll agent ip_from timeout_text
          (wait_for_ip_change (now + timeout_s) ip_from rounds))
]
