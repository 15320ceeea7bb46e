-- ===== src/Zen/Blame.antt =====
-- From which buckets a chat completion walks on.
use proxy_opencode.Prelude.{
  ℕ, ◌≡◌, ◌↔◌, ◌⊎◌, refl, String, Bool, true, false, Option, arith, Bool-cases, inl, inr, leb, ◌==◌,
  ◌&&◌,
}
use proxy_opencode.Zen.{
  Exchange, no_response, refused, streaming, aggregated, stream_stalled, broken_transport, broken,
  unread_refusal, fault, cancelled, Settlement, unreleased, released, abandoned, in_stream,
  settlement, release_for_status, judge, judge_status, has_failed, is_free_tier_rejection,
}

-- The bucket is released as failed.
abbrev pub IsBlamed : Settlement → Type 0
IsBlamed (released o) = o.ok ≡ false
IsBlamed abandoned = ⊥
IsBlamed in_stream = ⊥
IsBlamed unreleased = ⊥

-- The aggregation ends in an exception that is no transport error.
abbrev pub IsBroken : Exchange → Type 0
IsBroken (broken text) = Unit
IsBroken _ = ⊥

-- A transport error comes while the body of a refusal is read.
abbrev pub IsUnread : Exchange → Type 0
IsUnread (unread_refusal text) = Unit
IsUnread _ = ⊥

refused_iff_IsBlamed :
    (status_text : ℕ → String) (auth_free : Bool) (status : ℕ) (after : Option ℕ)
    (type : Option String)
    → (has_failed (judge_status auth_free status type) ≡ true)
      ↔ IsBlamed (release_for_status status_text auth_free status after type)
unfolding judge_status release_for_status
refused_iff_IsBlamed status_text auth_free status after type =
    let gated = auth_free && is_free_tier_rejection status type in
    elim (Bool-cases (status == 429)) [
      | inl quota ↦ rw quota (λ _. refl, λ _. refl)
      | inr other ↦ elim (Bool-cases (leb 500 status)) [
        | inl server_fault ↦ rw (other, server_fault) (λ _. refl, λ _. refl)
        | inr low ↦ elim (Bool-cases gated) [
          | inl gate ↦ rw (other, low, gate) (λ _. refl, λ _. refl)
          | inr plain ↦
              rw (other, low, plain) (λ f. absurd (ground arith), λ b. absurd (ground arith))
        ]
      ]
    ]

-- `chat` walks on exactly from the buckets that were released as failed otherwise than for an
-- exception of the aggregation that is no transport error, and after a transport error in the body
-- of a refusal, for which no lease is released.
pub walks_on_iff_IsBlamed :
    (status_text : ℕ → String) (auth_free : Bool) (e : Exchange)
    → (has_failed (judge auth_free e) ≡ true) ↔ (
        (IsBlamed (settlement status_text auth_free e) × (¬ IsBroken e))
        ⊎ (IsUnread e × (settlement status_text auth_free e ≡ unreleased)))
unfolding judge judge_status settlement release_for_status
walks_on_iff_IsBlamed status_text auth_free (refused status after type) =
    let (there, back) = refused_iff_IsBlamed status_text auth_free status after type in
    (λ f. inl (there f, λ b. b), λ o. elim o [ inl h ↦ back h.0 | inr h ↦ absurd h.0 ])
walks_on_iff_IsBlamed status_text auth_free (no_response text) =
    (λ _. inl (refl, λ b. b), λ _. refl)
walks_on_iff_IsBlamed status_text auth_free streaming =
    (λ f. absurd (ground arith), λ o. elim o [ inl h ↦ absurd h.0 | inr h ↦ absurd h.0 ])
walks_on_iff_IsBlamed status_text auth_free aggregated = (
  λ f. absurd (ground arith),
  λ o. elim o [ inl h ↦ (let blamed = h.0 in absurd (cc)) | inr h ↦ absurd h.0 ],
)
walks_on_iff_IsBlamed status_text auth_free (stream_stalled text) =
    (λ _. inl (refl, λ b. b), λ _. refl)
walks_on_iff_IsBlamed status_text auth_free (broken_transport text) =
    (λ _. inl (refl, λ b. b), λ _. refl)
walks_on_iff_IsBlamed status_text auth_free (broken text) =
    (λ f. absurd (ground arith), λ o. elim o [ inl h ↦ absurd (h.1 tt) | inr h ↦ absurd h.0 ])
walks_on_iff_IsBlamed status_text auth_free (unread_refusal text) = (λ _. inr (tt, refl), λ _. refl)
walks_on_iff_IsBlamed status_text auth_free (fault text) =
    (λ f. absurd (ground arith), λ o. elim o [ inl h ↦ absurd h.0 | inr h ↦ absurd h.0 ])
walks_on_iff_IsBlamed status_text auth_free cancelled =
    (λ f. absurd (ground arith), λ o. elim o [ inl h ↦ absurd h.0 | inr h ↦ absurd h.0 ])
