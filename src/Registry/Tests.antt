-- ===== src/Registry/Tests.antt =====
-- The registry of two public models.
use proxy_opencode.Prelude.{◌≡◌, ◌↔◌, refl, true, false, none, some, List, [], ◌∷◌, All, str_eq}
use proxy_opencode.Registry.{PublicModel, ModelRegistry, resolve, public_id, strip}
use proxy_opencode.Registry.Laws.{resolve-none}

abbrev models : List PublicModel
models =
    record { id = "oc1"; upstream = "big-pickle" } ∷ record { id = "oc2"; upstream = "small" } ∷ []

abbrev registry : ModelRegistry
registry = record { models = models; enabled = true }

resolve-none_example :
    (resolve registry " big-pickle" ≡ none)
    ↔ All (λ e. str_eq (strip " big-pickle") e.id ≡ false) models
resolve-none_example = resolve-none registry " big-pickle" refl

resolved : resolve registry " oc2 " ≡ some "small"
unfolding resolve
resolved = refl

masked : public_id registry "small" ≡ some "oc2"
unfolding public_id
masked = refl
