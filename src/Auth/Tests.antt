-- ===== src/Auth/Tests.antt =====
-- Runs of the key store and of the key checks on concrete inputs.
use proxy_opencode.Prelude.{
  ◌+◌, ◌<◌, ◌≡◌, ◌↔◌, ◌⊎◌, refl, true, false, none, some, List, [], ◌∷◌, str_eq,
}
use proxy_opencode.Auth.Keystore.{
  KeyRecord, until, missing, KeyStore, given, unset, not_finite, create, validate, lookup_expired,
  revoke, open_store, is_ascii, load,
}
use proxy_opencode.Auth.Keystore.Lifetime.{create_lifetime}
use proxy_opencode.Auth.Keystore.Revocation.{
  Op, creates, revokes, restarts, history, restart_keeps, revoked_forever,
}
use proxy_opencode.Auth.Core.{
  AuthSettings, Presented, accepted, rejected, expired_key, key_in, is_dynamic, is_known,
  require_gateway_key, token_of,
}
use proxy_opencode.Auth.Core.Laws.{require_gateway_key-accepted, require_gateway_key-expired}

abbrev empty : KeyStore
empty = record { default_ttl = 86400000; records = []; file = missing }

abbrev made : KeyRecord
made = record {
  id = "k-1";
  key = "gw-a";
  name = "ci";
  created_at = "2026-01-01";
  expires_at = until 1500;
  revoked = false;
}

abbrev one_key : KeyStore
one_key = (create empty 1000 "2026-01-01" "k-1" "gw-a" "ci" (given 500)).1

one_key-records : one_key.records ≡ made ∷ []
unfolding create
one_key-records = refl

one_key-file : load one_key.file ≡ one_key.records
unfolding create load
one_key-file = refl

ascii : is_ascii "gw-a" ≡ true
unfolding is_ascii
ascii = refl

-- A key with a limit that is no finite number ends after the default day.
create_lifetime_example :
    let (r, t) = create empty 1000 "2026-01-01" "k-1" "gw-a" "ci" not_finite in
    (0 < empty.default_ttl
      → (validate t "gw-a" 90000000 ≡ some r) ↔ (90000000 < 1000 + empty.default_ttl))
    × (empty.default_ttl ≡ 0 → validate t "gw-a" 90000000 ≡ some r)
create_lifetime_example =
    create_lifetime empty 1000 "2026-01-01" "k-1" "gw-a" "ci" not_finite 90000000 ascii tt

accepted_before : validate one_key "gw-a" 1400 ≡ some made
unfolding create validate
accepted_before = refl

abbrev later_ops : List Op
later_ops = creates 1100 "2026-01-01" "k-2" "gw-b" "" unset ∷ restarts ∷ revokes "k-1" ∷ []

restart_keeps_example :
    (open_store 86400000 (history (open_store 86400000 missing) later_ops).file).records
    ≡ (history (open_store 86400000 missing) later_ops).records
restart_keeps_example = restart_keeps 86400000 missing later_ops

revoked_forever_example : validate (history (revoke one_key "k-1").1 later_ops) "gw-a" 1200 ≡ none
revoked_forever_example =
    revoked_forever one_key made [] [] later_ops 1200 one_key-file one_key-records tt tt
      (refl, (tt, (tt, tt)))

abbrev settings : AuthSettings
settings = record {
  dev_open = false;
  admin_api_keys = "root" ∷ [];
  gateway_api_keys = "shared" ∷ [];
}

abbrev request : Presented
request = record { bearer = ""; x_api_key = "gw-a" }

require_gateway_key-accepted_example :
    let token = token_of request in
    (require_gateway_key settings (some one_key) request 1400 ≡ accepted token) ↔ (
      (str_eq token "" ≡ false)
      × ((key_in token ("root" ∷ []) ≡ true)
          ⊎ ((key_in token ("shared" ∷ []) ≡ true)
              ⊎ (is_dynamic (some one_key) token 1400 ≡ true))))
require_gateway_key-accepted_example =
    require_gateway_key-accepted settings (some one_key) request 1400 refl

require_gateway_key-expired_example :
    let token = token_of request in
    (require_gateway_key settings (some one_key) request 1500 ≡ rejected expired_key) ↔ (
      (str_eq token "" ≡ false)
      × (key_in token ("root" ∷ []) ≡ false)
      × (key_in token ("shared" ∷ []) ≡ false)
      × (is_dynamic (some one_key) token 1500 ≡ false)
      × (is_known (some one_key) token ≡ true))
require_gateway_key-expired_example =
    require_gateway_key-expired settings (some one_key) request 1500 refl

-- The dynamic key gets in before its expiry, and is turned away as an expired one afterwards.
in_time : require_gateway_key settings (some one_key) request 1400 ≡ accepted "gw-a"
unfolding require_gateway_key create validate lookup_expired
in_time = refl

too_late : require_gateway_key settings (some one_key) request 1500 ≡ rejected expired_key
unfolding require_gateway_key create validate lookup_expired
too_late = refl
