-- ===== src/Edge/Policy.antt =====
-- The decisions of the edge of proxy_opencode/edge/policy.py: the headers that it forwards, when the
-- backup answers in place of the gateway, and how its answer is made to look like the gateway's. The
-- headers are pairs with names in lower case; a body is given by what json.loads makes of it.
use proxy_opencode.Prelude.{
  ℕ, String, Bool, false, not, ◌&&◌, ◌||◌, Option, none, some, List, [], ◌∷◌, ◌++◌, keep, any, ltb,
  ◌==◌, str_eq, is_some, if◌then◌else◌,
}
use proxy_opencode.Prelude.Dict.{Dict, get, put}
use proxy_opencode.Egress.Pool.Select.{among}

unfoldable pub hop_by_hop : List String
hop_by_hop =
    "connection" ∷ "keep-alive" ∷ "proxy-authenticate" ∷ "proxy-authorization" ∷ "proxy-connection"
    ∷ "te" ∷ "trailer" ∷ "transfer-encoding" ∷ "upgrade" ∷ []

unfoldable pub drop_request : List String
unfolding hop_by_hop
drop_request = hop_by_hop ++ ("host" ∷ "content-length" ∷ "accept-encoding" ∷ "expect" ∷ [])

unfoldable pub drop_response : List String
unfolding hop_by_hop
drop_response = hop_by_hop ++ ("content-length" ∷ [])

-- `k not in names`, for a header.
unfoldable pub is_kept : List String → String × String → Bool
unfolding among
is_kept names (name, value) = not (among names name)

unfoldable pub filter_request_headers : List (String × String) → List (String × String)
unfolding keep is_kept drop_request
filter_request_headers headers =
    keep (is_kept drop_request) headers ++ (("accept-encoding", "identity") ∷ [])

unfoldable pub filter_response_headers : List (String × String) → List (String × String)
unfolding keep is_kept drop_response
filter_response_headers headers = keep (is_kept drop_response) headers

-- `HARD_QUOTA_RETRY_AFTER_S`, in milliseconds.
unfoldable pub hard_retry_after : ℕ
hard_retry_after = 3600000

unfoldable pub quota_codes : List String
quota_codes = "free_quota_exhausted" ∷ "insufficient_quota" ∷ []

unfoldable pub billing_markers : List String
billing_markers =
    "insufficient balance" ∷ "insufficient_quota" ∷ "free_quota_exhausted"
    ∷ "insufficient user quota" ∷ []

-- The error of a body that is an object with one: its code, its type and its message in lower case.
pub record ErrorBody : Type 0 where
  pub code : String
  pub type : String
  pub message : String

unfoldable pub has_quota_code : ErrorBody → Bool
unfolding among quota_codes
has_quota_code e = among quota_codes e.code || among quota_codes e.type

-- `quota_verdict`
unfoldable pub quota_verdict : ℕ → Option ℕ → Option ErrorBody → Bool
unfolding hard_retry_after has_quota_code
quota_verdict status after body =
    (status == 429)
    && (elim after [ none ↦ false | some t ↦ ltb hard_retry_after t ]
        || elim body [ none ↦ false | some e ↦ has_quota_code e ])

-- `fallback_out_of_quota`; `occurs marker text` is `marker in text`.
unfoldable pub fallback_out_of_quota : (String → String → Bool) → ℕ → Option ErrorBody → Bool
unfolding has_quota_code any billing_markers
fallback_out_of_quota occurs status none = false
fallback_out_of_quota occurs status (some e) =
    ((status == 429) || (status == 503))
    && (has_quota_code e || any (λ marker. occurs marker e.message) billing_markers)

pub data FailoverReason : Type 0 where
  primary_http : ℕ → FailoverReason
  primary_quota_exhausted : FailoverReason

-- `failover_reason`
unfoldable pub failover_reason :
    List ℕ → Bool → ℕ → Option ℕ → Option ErrorBody → Option FailoverReason
unfolding any quota_verdict
failover_reason failover_statuses failover_on_quota status after body =
    if any (λ other. other == status) failover_statuses
    then some (primary_http status)
    else if failover_on_quota && quota_verdict status after body
    then some primary_quota_exhausted
    else none

-- A field of a JSON object: a text, or another value.
pub data Json : Type 0 where
  text : String → Json
  other_json : String → Json

abbrev pub model_text : Option Json → String
model_text (some (text model)) = model
model_text _ = ""

-- `rewrite_for_fallback`, with `none` for a body that is no object.
unfoldable pub rewrite_for_fallback : String → Option (Dict Json) → Option (Dict Json × String)
unfolding get put
rewrite_for_fallback fallback_model none = none
rewrite_for_fallback fallback_model (some payload) =
    some (put "model" (text fallback_model) payload, model_text (get "model" payload))

-- `mask_model_in_json`, on a body that is an object.
unfoldable pub mask_model_in_json : Dict Json → String → Dict Json
unfolding get put
mask_model_in_json payload model =
    if str_eq model "" || not (is_some (get "model" payload))
    then payload
    else put "model" (text model) payload
