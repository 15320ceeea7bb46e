-- ===== src/Registry/Laws.antt =====
-- What a client can address, and what it is shown.
use proxy_opencode.Prelude.{
  ℕ, suc, ◌≡◌, ◌↔◌, refl, String, Bool, true, false, ◌||◌, Option, none, some, List, [], ◌∷◌, All,
  arith, str_eq, get_elem?, find?, find?-none, Bool-cases, inl, inr,
}
use proxy_opencode.Registry.{
  PublicModel, ModelRegistry, strip, new_registry, resolve, public_id, upstream_of, id_of,
}

-- Where a search finds nothing, no element passes.
find?-All :
    {A : Type 0} (p : A → Bool) (xs : List A) → find? p xs ≡ none → All (λ x. p x ≡ false) xs
unfolding find?
find?-All p [] e = tt
find?-All p (x ∷ xs) e = elim (Bool-cases (p x)) [
  | inl h ↦ absurd (ground arith)
  | inr h ↦ (h, find?-All p xs (ground arith))
]

-- What a search found stands at a position.
found_at :
    {A : Type 0} (p : A → Bool) (xs : List A) {x : A}
    → find? p xs ≡ some x
    → (i : ℕ) × (get_elem? xs i ≡ some x)
unfolding find?
found_at p [] e = absurd (ground arith)
found_at p (y ∷ xs) {x} e = elim (Bool-cases (p y)) [
  | inl h ↦ (0, ground arith)
  | inr h ↦ (let (i, at) = found_at p xs {x = x} (ground arith) in (suc i, at))
]

-- With masking on, a name is unknown exactly if, stripped, it is no public id: the name of an
-- upstream model that is no public id does not address it.
pub resolve-none :
    (r : ModelRegistry) (requested : String)
    → r.enabled ≡ true
    → (resolve r requested ≡ none) ↔ All (λ e. str_eq (strip requested) e.id ≡ false) r.models
unfolding resolve upstream_of
resolve-none r requested on = rw on (
  λ e. find?-All (λ e. str_eq (strip requested) e.id) r.models (unwrap _ e),
  λ h. rw (find?-none (λ e. str_eq (strip requested) e.id) r.models h) refl,
)
  where
    unwrap : (o : Option PublicModel) → upstream_of o ≡ none → o ≡ none
    unwrap none e = refl
    unwrap (some m) e = absurd (ground arith)

-- With masking on, whatever name an upstream gives, the client is shown the id of a public model.
pub public_id-IsPublic :
    (models : List PublicModel) (mask_models : Bool) (model : String)
    → let r = new_registry models mask_models in
      r.enabled ≡ true
      → (i : ℕ) × (e : PublicModel) × (get_elem? models i ≡ some e)
        × (public_id r model ≡ some e.id)
unfolding public_id new_registry id_of
public_id-IsPublic [] mask_models model on = absurd (ground arith)
public_id-IsPublic (m ∷ ms) mask_models model on = shown _ refl
  where
    shown :
        (o : Option PublicModel)
        → find? (λ e. str_eq (strip model) e.id || str_eq (strip model) e.upstream) (m ∷ ms) ≡ o
        → (i : ℕ) × (e : PublicModel) × (get_elem? (m ∷ ms) i ≡ some e)
          × (public_id (new_registry (m ∷ ms) mask_models) model ≡ some e.id)
    shown none e = (0, m, refl, rw (on, e) refl)
    shown (some x) e =
        let (i, at) =
          found_at (λ d. str_eq (strip model) d.id || str_eq (strip model) d.upstream) (m ∷ ms)
            {x = x} e in
        (i, x, at, rw (on, e) refl)
