-- ===== src/Auth/Core.antt =====
-- The checks of keys of proxy_opencode/auth/core.py. A request is what its headers give: the bearer
-- token and the stripped x-api-key, each the empty text if there is none.
pub mod Laws
use proxy_opencode.Prelude.{
  ℕ, String, Bool, true, false, not, ◌&&◌, Option, none, some, List, str_eq, if◌then◌else◌, any,
  is_some,
}
use proxy_opencode.Auth.Keystore.{KeyStore, matches, validate, lookup_expired}

pub record AuthSettings : Type 0 where
  pub dev_open : Bool
  pub admin_api_keys : List String
  pub gateway_api_keys : List String

pub record Presented : Type 0 where
  pub bearer : String
  pub x_api_key : String

pub data KeyKind : Type 0 where
  admin static dynamic unknown : KeyKind

pub data Rejection : Type 0 where
  expired_key invalid_key admin_key_required : Rejection

-- What a dependency gives: the key, or the 401 with its logged reason.
pub data Access : Type 0 where
  accepted : String → Access
  rejected : Rejection → Access

-- `_key_in`
unfoldable pub key_in : String → List String → Bool
unfolding any matches
key_in token keys = any (λ candidate. matches token candidate) keys

-- Whether a key store is there and finds the key.
unfoldable pub is_dynamic : Option KeyStore → String → ℕ → Bool
is_dynamic none token now = false
is_dynamic (some store) token now = is_some (validate store token now)

unfoldable pub is_known : Option KeyStore → String → Bool
is_known none token = false
is_known (some store) token = is_some (lookup_expired store token)

unfoldable pub classify_key : String → AuthSettings → Option KeyStore → ℕ → KeyKind × Bool
unfolding key_in is_dynamic
classify_key token settings keystore now =
    if str_eq token ""
    then (unknown, false)
    else if key_in token settings.admin_api_keys
    then (admin, true)
    else if key_in token settings.gateway_api_keys
    then (static, true)
    else if is_dynamic keystore token now
    then (dynamic, true)
    else (unknown, false)

-- The token of a request: the bearer token, or else the x-api-key.
unfoldable pub token_of : Presented → String
token_of q = if str_eq q.bearer "" then q.x_api_key else q.bearer

-- The answer to a token that is classified.
unfoldable pub decide : Option KeyStore → String → KeyKind × Bool → Access
unfolding is_known
decide keystore token (kind, valid) =
    if valid
    then accepted token
    else if not (str_eq token "") && is_known keystore token
    then rejected expired_key
    else rejected invalid_key

-- `require_gateway_key`. A token that is not valid has the kind `unknown`.
unfoldable pub require_gateway_key : AuthSettings → Option KeyStore → Presented → ℕ → Access
unfolding classify_key token_of decide
require_gateway_key settings keystore q now =
    if settings.dev_open
    then accepted (if str_eq q.bearer "" then "dev-open" else q.bearer)
    else (let token = token_of q in
        decide keystore token (classify_key token settings keystore now))

unfoldable pub require_admin_key : AuthSettings → Presented → Access
unfolding key_in
require_admin_key settings q =
    if not (str_eq q.bearer "") && key_in q.bearer settings.admin_api_keys
    then accepted q.bearer
    else rejected admin_key_required
