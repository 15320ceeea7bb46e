-- ===== src/Auth/Keystore/Revocation.antt =====
-- The key store over its history: what a restart reads back, and what a revocation means later.
use mathlib.Core.Path.{subst}
use proxy_opencode.Prelude.{
  ℕ, ◌≡◌, refl, sym, ap, String, true, false, not, ◌&&◌, none, List, [], ◌∷◌, ◌++◌, map, All,
  All-imp, All-append, arith, str_eq, find?-none, Bool-cases, inl, inr, eq_refl,
}
use proxy_opencode.Auth.Keystore.{
  KeyRecord, Document, KeyStore, Ttl, create, validate, revoke, mark_revoked, open_store, load,
  save, read_entries, write_entry, matches, is_valid,
}

-- What happens to a store: a key is made, an id is revoked, or the gateway starts again on the file.
pub data Op : Type 0 where
  creates : ℕ → String → String → String → String → Ttl → Op
  revokes : String → Op
  restarts : Op

pub apply : KeyStore → Op → KeyStore
apply s (creates now now_text id key name ttl) = (create s now now_text id key name ttl).1
apply s (revokes id) = (revoke s id).1
apply s restarts = open_store s.default_ttl s.file

pub history : KeyStore → List Op → KeyStore
history s [] = s
history s (op ∷ ops) = history (apply s op) ops

read_entries-write_entry : (rs : List KeyRecord) → read_entries (map write_entry rs) ≡ rs
unfolding read_entries write_entry
read_entries-write_entry [] = refl
read_entries-write_entry (r ∷ rs) = ap (λ qs. r ∷ qs) (read_entries-write_entry rs)

-- The file says what the memory says.
abbrev IsSynced : KeyStore → Type 0
IsSynced s = load s.file ≡ s.records

save-IsSynced : (s : KeyStore) → IsSynced (save s)
unfolding save load
save-IsSynced s = read_entries-write_entry s.records

revoke-IsSynced : (s : KeyStore) (id : String) → IsSynced s → IsSynced (revoke s id).1
unfolding revoke
revoke-IsSynced s id h = elim (Bool-cases (mark_revoked id s.records).0) [
  | inl e ↦ rw e (save-IsSynced (record s { records = (mark_revoked id s.records).1 }))
  | inr e ↦ rw e h
]

apply-IsSynced : (s : KeyStore) (op : Op) → IsSynced s → IsSynced (apply s op)
unfolding apply create revoke open_store
apply-IsSynced s (creates now now_text id key name ttl) h =
    save-IsSynced
      (record s { records = s.records ++ ((create s now now_text id key name ttl).0 ∷ []) })
apply-IsSynced s (revokes id) h = revoke-IsSynced s id h
apply-IsSynced s restarts h = refl

history-IsSynced : (s : KeyStore) (ops : List Op) → IsSynced s → IsSynced (history s ops)
unfolding history
history-IsSynced s [] h = h
history-IsSynced s (op ∷ ops) h = history-IsSynced (apply s op) ops (apply-IsSynced s op h)

-- Whatever was created and revoked since the store was opened on a file, and however often the
-- gateway was restarted: a further restart gives the same records.
pub restart_keeps :
    (default_ttl : ℕ) (file : Document) (ops : List Op)
    → let s = history (open_store default_ttl file) ops in
      (open_store default_ttl s.file).records ≡ s.records
unfolding open_store
restart_keeps default_ttl file ops = history-IsSynced (open_store default_ttl file) ops refl

-- Each record with the key is revoked.
abbrev IsDead : String → KeyRecord → Type 0
IsDead key r = str_eq r.key key ≡ true → r.revoked ≡ true

mark_revoked-All :
    (P : KeyRecord → Type 0) (id : String) (rs : List KeyRecord)
    → ((r : KeyRecord) → P r → P (record r { revoked = true }))
    → All P rs
    → All P (mark_revoked id rs).1
unfolding mark_revoked
mark_revoked-All P id [] f h = tt
mark_revoked-All P id (r ∷ rs) f h = elim (Bool-cases (str_eq r.id id && not r.revoked)) [
  | inl e ↦ rw e (f r h.0, h.1)
  | inr e ↦ rw e (h.0, mark_revoked-All P id rs f h.1)
]

others-IsDead :
    (key : String) (rs : List KeyRecord)
    → All (λ q. str_eq q.key key ≡ false) rs
    → All (IsDead key) rs
others-IsDead key rs h = All-imp _ (IsDead key) rs (λ q other same. ground arith) h

-- The record that is the only one with its key is revoked.
mark_revoked-IsDead :
    (r : KeyRecord) (before rest : List KeyRecord)
    → All (λ q. (str_eq q.id r.id ≡ false) × (str_eq q.key r.key ≡ false)) before
    → All (λ q. str_eq q.key r.key ≡ false) rest
    → All (IsDead r.key) (mark_revoked r.id (before ++ (r ∷ rest))).1
unfolding mark_revoked
mark_revoked-IsDead r [] rest h k =
    let dead = others-IsDead r.key rest k in
    elim (Bool-cases r.revoked) [
      | inl e ↦
          rw (eq_refl r.id, e)
            (λ _. refl, mark_revoked-All (IsDead r.key) r.id rest (λ q d same. refl) dead)
      | inr e ↦ rw (eq_refl r.id, e) (λ _. refl, dead)
    ]
mark_revoked-IsDead r (q ∷ before) rest h k =
    let (other_id, other_key) = h.0 in
    rw other_id (λ same. ground arith, mark_revoked-IsDead r before rest h.1 k)

-- A created key is not the given one.
abbrev pub IsOther : String → Op → Type 0
IsOther key (creates now now_text id new_key name ttl) = str_eq new_key key ≡ false
IsOther key _ = Unit

-- Where no record is marked, none is changed.
mark_revoked-none :
    (id : String) (rs : List KeyRecord)
    → (mark_revoked id rs).0 ≡ false
    → (mark_revoked id rs).1 ≡ rs
unfolding mark_revoked
mark_revoked-none id [] e = refl
mark_revoked-none id (r ∷ rs) e = ground (arith, mark_revoked-none id rs)

revoke-marked :
    (s : KeyStore) (key id : String)
    → All (IsDead key) (mark_revoked id s.records).1
    → All (IsDead key) (revoke s id).1.records
unfolding revoke save
revoke-marked s key id h = elim (Bool-cases (mark_revoked id s.records).0) [
  | inl e ↦ rw e h
  | inr e ↦ rw e (subst (All (IsDead key)) (mark_revoked-none id s.records e) h)
]

revoke-IsDead :
    (s : KeyStore) (key id : String)
    → All (IsDead key) s.records
    → All (IsDead key) (revoke s id).1.records
revoke-IsDead s key id h =
    revoke-marked s key id (mark_revoked-All (IsDead key) id s.records (λ q d same. refl) h)

history-IsDead :
    (key : String) (s : KeyStore) (ops : List Op)
    → IsSynced s
    → All (IsDead key) s.records
    → All (IsOther key) ops
    → All (IsDead key) (history s ops).records
unfolding history apply create save open_store
history-IsDead key s [] synced h others = h
history-IsDead key s (creates now now_text id new_key name ttl ∷ ops) synced h others =
    history-IsDead key (apply s (creates now now_text id new_key name ttl)) ops
      (apply-IsSynced s (creates now now_text id new_key name ttl) synced)
      (All-append (IsDead key) s.records _ h (λ same. ground (arith, others.0), tt)) others.1
history-IsDead key s (revokes id ∷ ops) synced h others =
    history-IsDead key (apply s (revokes id)) ops (apply-IsSynced s (revokes id) synced)
      (revoke-IsDead s key id h) others.1
history-IsDead key s (restarts ∷ ops) synced h others =
    history-IsDead key (apply s restarts) ops refl (subst (All (IsDead key)) (sym synced) h)
      others.1

IsDead-validate :
    (s : KeyStore) (key : String) (now : ℕ) → All (IsDead key) s.records → validate s key now ≡ none
unfolding validate matches is_valid
IsDead-validate s key now h =
    find?-none _ s.records (All-imp (IsDead key) _ s.records (λ q dead. ground (arith, dead)) h)

-- A key that only one record has, before which no record has its id: once that id was revoked, the
-- key is never accepted again, whatever is revoked, however often the gateway restarts, and whatever
-- other keys are made.
pub revoked_forever :
    (s : KeyStore) (r : KeyRecord) (before rest : List KeyRecord) (ops : List Op) (now : ℕ)
    → load s.file ≡ s.records
    → s.records ≡ before ++ (r ∷ rest)
    → All (λ q. (str_eq q.id r.id ≡ false) × (str_eq q.key r.key ≡ false)) before
    → All (λ q. str_eq q.key r.key ≡ false) rest
    → All (IsOther r.key) ops
    → validate (history (revoke s r.id).1 ops) r.key now ≡ none
revoked_forever s r before rest ops now synced e h k others =
    let marked =
      subst (λ rs. All (IsDead r.key) (mark_revoked r.id rs).1) (sym e)
        (mark_revoked-IsDead r before rest h k) in
    IsDead-validate (history (revoke s r.id).1 ops) r.key now (
      history-IsDead r.key (revoke s r.id).1 ops (revoke-IsSynced s r.id synced)
        (revoke-marked s r.key r.id marked) others)
