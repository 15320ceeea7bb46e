-- ===== src/Auth/Keystore/Lifetime.antt =====
-- How long a new key is accepted by the key store.
use proxy_opencode.Prelude.{
  ℕ, ◌+◌, ◌<◌, ◌≡◌, ◌↔◌, ◌∙◌, refl, ap, String, true, false, ◌&&◌, none, some, List, [], ◌∷◌, ◌++◌,
  All, All-imp, arith, str_eq, if◌then◌else◌, find?, find?-append, eq_refl,
}
use proxy_opencode.Auth.Keystore.{
  KeyRecord, KeyStore, Ttl, unset, not_finite, given, effective_ttl, create, validate, is_ascii,
  matches, is_valid,
}

matches-other :
    (stored presented : String) → str_eq stored presented ≡ false → matches stored presented ≡ false
unfolding matches
matches-other stored presented e = ground arith

matches_self : (key : String) → is_ascii key ≡ true → matches key key ≡ true
unfolding matches
matches_self key ascii = ground (arith, eq_refl key)

-- The look-up of a key that only the last record has.
validate-last :
    (s : KeyStore) (rs : List KeyRecord) (r : KeyRecord) (key : String) (now : ℕ)
    → s.records ≡ rs ++ (r ∷ [])
    → All (λ q. str_eq q.key key ≡ false) rs
    → validate s key now ≡ (if matches r.key key && is_valid r now then some r else none)
unfolding validate
validate-last s rs r key now e others =
    ap (find? (λ q. matches q.key key && is_valid q now)) e
    ∙ find?-append (λ q. matches q.key key && is_valid q now) rs r
        (All-imp _ _ rs (λ q h. rw (matches-other q.key key h) refl) others)

-- How long a key that is made with the given limit is to last, 0 for ever: the limit, if it is a
-- number, else the store's default.
abbrev pub allowed_time : KeyStore → Ttl → ℕ
allowed_time s (given ttl) = ttl
allowed_time s _ = s.default_ttl

effective_ttl-allowed_time : (s : KeyStore) (ttl : Ttl) → effective_ttl s ttl ≡ allowed_time s ttl
unfolding effective_ttl
effective_ttl-allowed_time s unset = refl
effective_ttl-allowed_time s not_finite = refl
effective_ttl-allowed_time s (given ttl) = refl

-- A new ASCII key that no other record has is accepted until the end of its time, and for ever if it
-- was made with a limit of 0. The store's default stands in for a limit that is not given, and also
-- for one that is not a finite number, so that such a key ends when any other one would.
pub create_lifetime :
    (s : KeyStore) (now : ℕ) (now_text id key name : String) (ttl : Ttl) (later : ℕ)
    → is_ascii key ≡ true
    → All (λ q. str_eq q.key key ≡ false) s.records
    → let (r, t) = create s now now_text id key name ttl in
      (0 < allowed_time s ttl
        → (validate t key later ≡ some r) ↔ (later < now + allowed_time s ttl))
      × (allowed_time s ttl ≡ 0 → validate t key later ≡ some r)
unfolding create is_valid
create_lifetime s now now_text id key name ttl later ascii others =
    let (r, t) = create s now now_text id key name ttl in
    let found = validate-last t s.records r key later refl others in
    let same = matches_self key ascii in
    let lasts = effective_ttl-allowed_time s ttl in
    (λ pos. ground (arith, found, same, lasts), λ zero_ttl. ground (arith, found, same, lasts))
