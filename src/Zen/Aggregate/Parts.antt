-- ===== src/Zen/Aggregate/Parts.antt =====
-- The parts of a text that is put together.
use Prim.Native.String.{◌++◌ as ◌++ₛ◌}
use text.Mathlib.TextLemmas.{nil-append, append-nil, append_assoc}
use proxy_opencode.Prelude.{
  ◌≡◌, ◌∙◌, sym, ap, String, true, List, [], ◌∷◌, ◌++◌, Bool-cases, eq_iff, inl, inr,
}
use proxy_opencode.Zen.Aggregate.{is_empty, added, join}

-- An empty piece adds nothing.
pub no_piece : (told piece : String) → is_empty piece ≡ true → told ≡ told ++ₛ piece
no_piece told piece e = sym (ap (λ t. told ++ₛ t) ((eq_iff piece "").0 e) ∙ append-nil told)

join-append : (xs : List String) (x : String) → join (xs ++ (x ∷ [])) ≡ join xs ++ₛ x
unfolding join
join-append [] x = append-nil x ∙ sym (nil-append x)
join-append (y ∷ xs) x = ap (λ t. y ++ₛ t) (join-append xs x) ∙ sym (append_assoc y (join xs) x)

pub join-added : (xs : List String) (x : String) → join (added x xs) ≡ join xs ++ₛ x
unfolding join
join-added xs x = elim (Bool-cases (is_empty x)) [
  | inl e ↦ rw e (no_piece (join xs) x e)
  | inr e ↦ rw e (join-append xs x)
]
