-- ===== src/Registry.antt =====
-- The public model names of proxy_opencode/registry.py: which upstream model a client's name stands
-- for, and which name a client is shown.
pub mod Laws
mod Tests
use Prim.Native.String.{[] as []ₛ, ◌∷◌ as ◌∷ₛ◌}
use Prim.Native.Char.{Char, code}
use proxy_opencode.Prelude.{
  ℕ, String, Bool, true, false, not, ◌&&◌, ◌||◌, Option, none, some, List, [], ◌∷◌, leb, ◌==◌,
  str_eq, if◌then◌else◌, find?,
}

pub record PublicModel : Type 0 where
  pub id : String
  pub upstream : String

pub record ModelRegistry : Type 0 where
  pub models : List PublicModel
  pub enabled : Bool

-- What `str.strip` takes for white space.
unfoldable pub is_space : ℕ → Bool
is_space c =
    (leb 9 c && leb c 13)
    || ((leb 28 c && leb c 32)
        || ((c == 133)
            || ((c == 160)
                || ((c == 5760)
                    || ((leb 8192 c && leb c 8202)
                        || ((c == 8232)
                            || ((c == 8233) || ((c == 8239) || ((c == 8287) || (c == 12288))))))))))

unfoldable pub lstrip : String → String
unfolding is_space
lstrip []ₛ = ""
lstrip (c ∷ₛ s) = let rest = lstrip s in if is_space (code c) then rest else c ∷ₛ s

unfoldable pub rstrip : String → String
unfolding is_space
rstrip []ₛ = ""
rstrip (c ∷ₛ s) =
    let rest = rstrip s in if is_space (code c) && str_eq rest "" then "" else c ∷ₛ rest

unfoldable pub strip : String → String
unfolding lstrip rstrip
strip s = rstrip (lstrip s)

-- `__init__`
unfoldable pub new_registry : List PublicModel → Bool → ModelRegistry
new_registry [] mask_models = record { models = []; enabled = false }
new_registry (e ∷ es) mask_models = record { models = e ∷ es; enabled = mask_models }

-- `resolve`, where `none` is `UnknownModelError`; a missing name is the empty text.
unfoldable pub upstream_of : Option PublicModel → Option String
upstream_of none = none
upstream_of (some e) = some e.upstream

unfoldable pub resolve : ModelRegistry → String → Option String
unfolding strip upstream_of find?
resolve r requested =
    if not r.enabled
    then some requested
    else (let raw = strip requested in upstream_of (find? (λ e. str_eq raw e.id) r.models))

-- The id of the first model, if there is one.
unfoldable pub default_public_id : List PublicModel → Option String
default_public_id [] = none
default_public_id (e ∷ es) = some e.id

unfoldable pub id_of : List PublicModel → Option PublicModel → Option String
unfolding default_public_id
id_of models none = default_public_id models
id_of models (some e) = some e.id

-- `public_id`, where `none` is the `IndexError` of an empty list.
unfoldable pub public_id : ModelRegistry → String → Option String
unfolding strip id_of find?
public_id r model =
    if not r.enabled
    then some model
    else (let raw = strip model in
        id_of r.models (find? (λ e. str_eq raw e.id || str_eq raw e.upstream) r.models))
