-- ===== src/Zen/Tools/Mapping.antt =====
-- The map from the client's names to the names that go upstream, and its reverse.
use mathlib.Core.Path.{subst}
use text.Mathlib.TextLemmas.{append_cancel_left}
use proxy_opencode.Prelude.{
  ◌≡◌, ◌∙◌, refl, sym, ap, String, true, false, some, List, [], ◌∷◌, All, arith, any, str_eq,
  eq_iff, is_some, if◌then◌else◌, Bool-cases, inl, inr,
}
use proxy_opencode.Prelude.Dict.{Dict, get, put, get-put}
use proxy_opencode.Egress.Pool.Select.{among}
use proxy_opencode.Zen.Tools.{client_name, reversed}

same_client : (a b : String) → str_eq (client_name a) (client_name b) ≡ str_eq a b
unfolding client_name
same_client a b = elim (Bool-cases (str_eq a b)) [
  | inl e ↦ (eq_iff (client_name a) (client_name b)).1 (ap client_name ((eq_iff a b).0 e)) ∙ sym e
  | inr e ↦ elim (Bool-cases (str_eq (client_name a) (client_name b))) [
    | inl f ↦
        let same =
          append_cancel_left "client_" a b ((eq_iff (client_name a) (client_name b)).0 f) in
        f ∙ sym ((eq_iff a b).1 same)
    | inr f ↦ f ∙ sym e
  ]
]

-- The names of the mapping are reserved, and each has its new name.
abbrev pub IsClientMap : List String → Dict String → Type 0
IsClientMap reserved m =
    All
      (λ (entry : String × String).
        (entry.1 ≡ client_name entry.0) × (among reserved entry.0 ≡ true))
      m

pub IsClientMap-put :
    (reserved : List String) (name : String) (m : Dict String)
    → among reserved name ≡ true
    → IsClientMap reserved m
    → IsClientMap reserved (put name (client_name name) m)
unfolding put
IsClientMap-put reserved name [] here h = ((refl, here), tt)
IsClientMap-put reserved name ((k, v) ∷ m) here h = elim (Bool-cases (str_eq k name)) [
  | inl e ↦ rw e ((ap client_name (sym ((eq_iff k name).0 e)), h.0.1), h.1)
  | inr e ↦ rw e (h.0, IsClientMap-put reserved name m here h.1)
]

pub get-reversed :
    (reserved : List String) (name : String) (m d : Dict String)
    → IsClientMap reserved m
    → get (client_name name) (reversed m d)
      ≡ (if is_some (get name m) then some name else get (client_name name) d)
unfolding reversed get
get-reversed reserved name [] d h = refl
get-reversed reserved name ((k, v) ∷ m) d h =
    let later = get-reversed reserved name m (put v k d) h.1 in
    let at_v =
      get-put v (client_name name) k d
      ∙ ap (λ u. if str_eq u (client_name name) then some k else get (client_name name) d) h.0.0
      ∙ ap (λ b. if b then some k else get (client_name name) d) (same_client k name) in
    ground (arith, later, at_v, eq_iff k name)

-- The name is no reserved one's new name.
abbrev pub IsPlain : List String → String → Type 0
IsPlain reserved name = All (λ r. str_eq (client_name r) name ≡ false) reserved

plain-among :
    (reserved : List String) (k name : String)
    → IsPlain reserved name
    → among reserved k ≡ true
    → str_eq (client_name k) name ≡ false
unfolding among any
plain-among [] k name h here = ground arith
plain-among (r ∷ reserved) k name h here = elim (Bool-cases (str_eq r k)) [
  | inl e ↦ subst (λ x. str_eq (client_name x) name ≡ false) ((eq_iff r k).0 e) h.0
  | inr e ↦ plain-among reserved k name h.1 (rw e at here)
]

pub get-reversed_plain :
    (reserved : List String) (name : String) (m d : Dict String)
    → IsPlain reserved name
    → IsClientMap reserved m
    → get name (reversed m d) ≡ get name d
unfolding reversed
get-reversed_plain reserved name [] d plain h = refl
get-reversed_plain reserved name ((k, v) ∷ m) d plain h =
    get-reversed_plain reserved name m (put v k d) plain h.1
    ∙ get-put v name k d
    ∙ ap (λ u. if str_eq u name then some k else get name d) h.0.0
    ∙ rw (plain-among reserved k name plain h.0.1) refl
