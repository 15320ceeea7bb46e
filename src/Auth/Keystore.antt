-- ===== src/Auth/Keystore.antt =====
-- The store of dynamic keys of proxy_opencode/auth/keystore.py. The clock's readings and the random
-- texts are arguments. A moment is a number of milliseconds; an expiry is the moment that its text
-- stands for. The field `meta`, which is only carried along, is left out.
pub mod Lifetime
pub mod Revocation
use Prim.Native.String.{[] as []ₛ, ◌∷◌ as ◌∷ₛ◌}
use Prim.Native.Char.{code}
use proxy_opencode.Prelude.{
  ℕ, ◌+◌, String, Bool, true, false, not, ◌&&◌, Option, none, some, List, [], ◌∷◌, ◌++◌, map, ltb,
  leb, str_eq, if◌then◌else◌, find?,
}

-- `hmac.compare_digest` raises for a text that is not ASCII.
unfoldable pub is_ascii : String → Bool
is_ascii []ₛ = true
is_ascii (c ∷ₛ s) = ltb (code c) 128 && is_ascii s

unfoldable pub matches : String → String → Bool
unfolding is_ascii
matches stored presented = is_ascii stored && is_ascii presented && str_eq stored presented

-- `expires_at`: `None`, the text of a moment, or a text that `_parse_iso` does not read.
pub data Expiry : Type 0 where
  permanent : Expiry
  until : ℕ → Expiry
  unreadable : String → Expiry

pub record KeyRecord : Type 0 where
  pub id : String
  pub key : String
  pub name : String
  pub created_at : String
  pub expires_at : Expiry
  pub revoked : Bool

-- `expiry`
unfoldable pub expiry : KeyRecord → Option ℕ
expiry r = elim r.expires_at [ permanent ↦ none | until t ↦ some t | unreadable text ↦ none ]

unfoldable pub is_valid : KeyRecord → ℕ → Bool
unfolding expiry
is_valid r now =
    if r.revoked then false else elim (expiry r) [ none ↦ true | some t ↦ not (leb t now) ]

-- The file: its entries, of which each has the fields that are there and are texts. An entry that
-- is no JSON object is `junk`.
pub data Entry : Type 0 where
  junk : Entry
  entry : Option String → Option String → Option String → Option String → Expiry → Bool → Entry

pub data Document : Type 0 where
  missing : Document
  unreadable_file : Document
  foreign : Document
  no_list : Document
  entries : List Entry → Document

pub record KeyStore : Type 0 where
  pub default_ttl : ℕ
  pub records : List KeyRecord
  pub file : Document

-- `str(item.get(name) or "")`
unfoldable pub text_or_empty : Option String → String
text_or_empty none = ""
text_or_empty (some text) = text

unfoldable pub read_entries : List Entry → List KeyRecord
unfolding text_or_empty
read_entries [] = []
read_entries (junk ∷ es) = read_entries es
read_entries (entry id key name created_at expires_at revoked ∷ es) =
    record {
      id = text_or_empty id;
      key = text_or_empty key;
      name = text_or_empty name;
      created_at = text_or_empty created_at;
      expires_at = expires_at;
      revoked = revoked;
    }
    ∷ read_entries es

-- `_load`: the records that a document gives.
unfoldable pub load : Document → List KeyRecord
unfolding read_entries
load (entries es) = read_entries es
load _ = []

unfoldable pub write_entry : KeyRecord → Entry
write_entry r =
    entry (some r.id) (some r.key) (some r.name) (some r.created_at) r.expires_at r.revoked

-- `_save`, whose replacement of the file is atomic.
unfoldable pub save : KeyStore → KeyStore
unfolding write_entry
save s = record s { file = entries (map write_entry s.records) }

-- `__init__` on the file that is there.
unfoldable pub open_store : ℕ → Document → KeyStore
unfolding load
open_store default_ttl file = record { default_ttl = default_ttl; records = load file; file = file }

-- `ttl_hours`: none, NaN or infinite, or a duration in milliseconds. A negative one acts as 0.
pub data Ttl : Type 0 where
  unset not_finite : Ttl
  given : ℕ → Ttl

unfoldable pub effective_ttl : KeyStore → Ttl → ℕ
effective_ttl s unset = s.default_ttl
effective_ttl s not_finite = s.default_ttl
effective_ttl s (given ttl) = ttl

-- The expiry of a key that is made at `now`.
unfoldable pub expires : ℕ → ℕ → Expiry
expires now ttl = if ltb 0 ttl then until (now + ttl) else permanent

-- `create`, with the random parts of the id and the key put after their prefixes, and the text of
-- the moment.
unfoldable pub create :
    KeyStore → ℕ → String → String → String → String → Ttl → KeyRecord × KeyStore
unfolding save effective_ttl expires
create s now now_text id key name ttl =
    let r : KeyRecord = record {
      id = id;
      key = key;
      name = name;
      created_at = now_text;
      expires_at = expires now (effective_ttl s ttl);
      revoked = false;
    } in
    (r, save (record s { records = s.records ++ (r ∷ []) }))

-- `validate`, with one reading of the clock for all records.
unfoldable pub validate : KeyStore → String → ℕ → Option KeyRecord
unfolding matches is_valid find?
validate s key now = find? (λ r. matches r.key key && is_valid r now) s.records

unfoldable pub lookup_expired : KeyStore → String → Option KeyRecord
unfolding matches find?
lookup_expired s key = find? (λ r. matches r.key key) s.records

-- The first record with the id that is not revoked, marked; with the verdict whether there is one.
unfoldable pub mark_revoked : String → List KeyRecord → Bool × List KeyRecord
mark_revoked id [] = (false, [])
mark_revoked id (r ∷ rs) =
    let (found, rest) = mark_revoked id rs in
    if str_eq r.id id && not r.revoked
    then (true, record r { revoked = true } ∷ rs)
    else (found, r ∷ rest)

unfoldable pub revoke : KeyStore → String → Bool × KeyStore
unfolding save mark_revoked
revoke s id =
    let (found, rs) = mark_revoked id s.records in
    if found then (true, save (record s { records = rs })) else (false, s)
