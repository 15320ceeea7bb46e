-- ===== src/Auth/Core/Laws.antt =====
-- Who gets through the gateway's key check, and why a request is turned away.
use proxy_opencode.Prelude.{ℕ, ◌≡◌, ◌↔◌, ◌⊎◌, true, false, Option, arith, str_eq}
use proxy_opencode.Auth.Keystore.{KeyStore}
use proxy_opencode.Auth.Core.{
  AuthSettings, Presented, accepted, rejected, expired_key, key_in, is_dynamic, is_known,
  require_gateway_key, token_of, decide, classify_key,
}

-- Outside the development mode, the gateway accepts a request exactly if its token is not empty and
-- is an admin key, a static key or a key that the store validates at that moment.
pub require_gateway_key-accepted :
    (settings : AuthSettings) (keystore : Option KeyStore) (q : Presented) (now : ℕ)
    → settings.dev_open ≡ false
    → let token = token_of q in
      (require_gateway_key settings keystore q now ≡ accepted token) ↔ (
        (str_eq token "" ≡ false)
        × ((key_in token settings.admin_api_keys ≡ true)
            ⊎ ((key_in token settings.gateway_api_keys ≡ true)
                ⊎ (is_dynamic keystore token now ≡ true))))
unfolding require_gateway_key decide classify_key
require_gateway_key-accepted settings keystore q now closed = ground arith

-- Outside the development mode, a request is turned away with the reason `expired_key` exactly if
-- its token is in the store, but is neither valid there nor an admin key or a static key.
pub require_gateway_key-expired :
    (settings : AuthSettings) (keystore : Option KeyStore) (q : Presented) (now : ℕ)
    → settings.dev_open ≡ false
    → let token = token_of q in
      (require_gateway_key settings keystore q now ≡ rejected expired_key) ↔ (
        (str_eq token "" ≡ false)
        × (key_in token settings.admin_api_keys ≡ false)
        × (key_in token settings.gateway_api_keys ≡ false)
        × (is_dynamic keystore token now ≡ false)
        × (is_known keystore token ≡ true))
unfolding require_gateway_key decide classify_key
require_gateway_key-expired settings keystore q now closed = ground arith
