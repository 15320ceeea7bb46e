-- ===== src/Failover/Laws.antt =====
-- What one request of the failover wrapper does, on each branch.
use mathlib.Core.Path.{subst, sym}
use mathlib.Core.Option.{some-injective}
use proxy_opencode.Prelude.{
  ℕ, ◌+◌, ◌≤◌, ◌<◌, ◌≡◌, ◌≢◌, ◌⊎◌, ◌∙◌, inl, inr, refl, true, false, String, Option, none, some,
  arith, str_eq, eq_iff, eq_refl, Bool-cases, if◌then◌else◌,
}
use proxy_opencode.Prelude.Dict.{get}
use proxy_opencode.Failover.{
  Settings, State, Reason, upstream_http, Content, backup_error, relay, answer, Raised,
  invalid_request, other, both_unreachable, Outcome, returned, raised, Payload, Marker, Next, done,
  ask_primary, ask_secondary, passthrough, map_model, or_else, begin, trip, fail_over,
  after_primary, after_secondary, budget_blocked, roll_day, emit,
}

-- A fault of the client's request: `InvalidRequest`, or an error relay whose status is 400, 401,
-- 404 or 422.
abbrev pub IsClientFault : {R : Type 0} → Outcome R → Type 0
IsClientFault (raised (invalid_request e)) = Unit
IsClientFault (returned (relay status content)) = passthrough status ≡ true
IsClientFault _ = ⊥

-- Any other failure: an exception, or an error relay with a status of at least 400.
abbrev pub IsOutage : {R : Type 0} → Outcome R → Type 0
IsOutage (raised (invalid_request e)) = ⊥
IsOutage (raised _) = Unit
IsOutage (returned (relay status content)) = (400 ≤ status) × (passthrough status ≡ false)
IsOutage (returned (answer r)) = ⊥

differs : (a : String) → str_eq a "" ≡ false → a ≢ ""
differs a e q = let same = (eq_iff a "").1 q in cc

module _ (cfg : Settings) where
  -- The model that the backup is asked for: the entry of the map, if it has one that is not empty,
  -- else the default, if there is one, else the client's own.
  abbrev pub IsMapped : String → String → Type 0
  IsMapped requested model =
      ((get requested cfg.model_map ≡ some model) × (model ≢ ""))
      ⊎ ((((m : String) → get requested cfg.model_map ≡ some m → m ≡ "")
            × (cfg.default_model ≡ model)
            × (model ≢ ""))
          ⊎ (((m : String) → get requested cfg.model_map ≡ some m → m ≡ "")
              × (cfg.default_model ≡ "")
              × (requested ≡ model)))

  default-IsMapped :
      (requested : String)
      → ((m : String) → get requested cfg.model_map ≡ some m → m ≡ "")
      → IsMapped requested (or_else cfg.default_model requested)
  unfolding or_else
  default-IsMapped requested no_entry = elim (Bool-cases (str_eq cfg.default_model "")) [
    | inl e ↦ rw e (inr (inr (no_entry, (eq_iff cfg.default_model "").0 e, refl)))
    | inr e ↦ rw e (inr (inl (no_entry, refl, differs cfg.default_model e)))
  ]

  map_model-IsMapped :
      (requested : String) → IsMapped requested (or_else (map_model cfg requested) requested)
  unfolding map_model or_else
  map_model-IsMapped requested = of (get requested cfg.model_map) refl
    where
      of :
          (o : Option String)
          → get requested cfg.model_map ≡ o
          → IsMapped requested (
              or_else
                (elim o [ none ↦ cfg.default_model | some m ↦ or_else m cfg.default_model ])
                requested)
      of none at = default-IsMapped requested (λ m e. cc)
      of (some m) at = elim (Bool-cases (str_eq m "")) [
        | inl e ↦ rw e (
            default-IsMapped requested
              (λ k same. some-injective _ _ (sym same ∙ at) ∙ (eq_iff m "").0 e))
        | inr e ↦ rw (e, e) (inl (at, differs m e))
      ]

  -- As many backup answers of the day are counted as a limit above 0 allows.
  abbrev pub IsSpent : String → State → Type 0
  IsSpent day s = (0 < cfg.daily_max) × (s.budget_day ≡ day) × (cfg.daily_max ≤ s.budget_used)

  budget_blocked-IsSpent :
      (day : String) (s : State)
      → ((budget_blocked cfg day s).0 ≡ true → IsSpent day s)
        × ((budget_blocked cfg day s).0 ≡ false → ¬ IsSpent day s)
        × ((budget_blocked cfg day s).1.fallback_until ≡ s.fallback_until)
  unfolding budget_blocked roll_day
  budget_blocked-IsSpent day s =
      let same = eq_iff day s.budget_day in
      let itself = eq_refl day in
      (λ b. ground (arith, same), λ b spent. ground (arith, same, itself), ground arith)

module _ {B R : Type 0} (cfg : Settings) where
  -- A fault of the client's request goes back to the client as it is: the backup is not asked, and
  -- breaker, budget and events are untouched.
  pub client_fault_passes :
      (opened now : ℕ) (day : String) (payload : Payload B) (o : Outcome R) (s : State)
      → IsClientFault o
      → after_primary cfg opened now day payload o s ≡ (done o, s)
  unfolding after_primary passthrough
  client_fault_passes opened now day payload (raised (invalid_request e)) s h = refl
  client_fault_passes opened now day payload (raised (other e)) s h = absurd h
  client_fault_passes opened now day payload (raised both_unreachable) s h = absurd h
  client_fault_passes opened now day payload (returned (relay status content)) s h = ground arith
  client_fault_passes opened now day payload (returned (answer r)) s h = absurd h

  -- Once the budget is spent the request ends with `o` and the breaker is as before. Else it goes to
  -- the backup with the mapped model, with the rest of the payload unchanged and with a marker that
  -- names the client's model; the breaker is held open, unless it is request-scoped.
  abbrev pub FailsOver : ℕ → String → Payload B → Outcome R → State → Next B R × State → Type 0
  FailsOver opened day payload o s (next, t) =
      (IsSpent cfg day s → (next ≡ done o) × (t.fallback_until ≡ s.fallback_until))
      × ((¬ IsSpent cfg day s)
          → (body : Payload B) × (m : Marker) × (next ≡ ask_secondary body m)
            × IsMapped cfg payload.model body.model
            × (body.rest ≡ payload.rest)
            × (m.model ≡ body.model)
            × (m.requested_model ≡ payload.model)
            × (t.fallback_until
                ≡ (if cfg.request_scoped then s.fallback_until else opened + cfg.hold_s)))

  FailsOver-trip :
      (opened now : ℕ) (payload : Payload B) (why : Reason) (s : State) (before : ℕ)
      → s.fallback_until ≡ before
      → let (next, t) = trip {B = B} {R = R} cfg opened now payload why s in
        (body : Payload B) × (m : Marker) × (next ≡ ask_secondary body m)
        × IsMapped cfg payload.model body.model
        × (body.rest ≡ payload.rest)
        × (m.model ≡ body.model)
        × (m.requested_model ≡ payload.model)
        × (t.fallback_until ≡ (if cfg.request_scoped then before else opened + cfg.hold_s))
  unfolding trip emit
  FailsOver-trip opened now payload why s before same =
      (_, _, refl, map_model-IsMapped cfg payload.model, refl, refl, refl, ground arith)

  fail_over-FailsOver :
      (opened now : ℕ) (day : String) (payload : Payload B) (why : Reason) (o : Outcome R)
      (s : State)
      → FailsOver opened day payload o s (fail_over cfg opened now day payload why o s)
  unfolding fail_over emit
  fail_over-FailsOver opened now day payload why o s =
      let (spent, left, kept) = budget_blocked-IsSpent cfg day s in
      elim (Bool-cases (budget_blocked cfg day s).0) [
        | inl b ↦ rw b (λ _. (refl, kept), λ more. absurd (more (spent b)))
        | inr b ↦ rw b (
          λ none_left. absurd (left b none_left),
          λ _.
              FailsOver-trip opened now payload why (budget_blocked cfg day s).1 s.fallback_until
                kept,
        )
      ]

  relay-fail_over :
      (opened now : ℕ) (day : String) (payload : Payload B) (status : ℕ) (content : Content)
      (s : State)
      → 400 ≤ status
      → passthrough status ≡ false
      → after_primary {R = R} cfg opened now day payload (returned (relay status content)) s
        ≡ fail_over cfg opened now day payload
            (upstream_http status)
            (returned (relay status content))
            s
  unfolding after_primary
  relay-fail_over opened now day payload status content s le fatal = ground arith

  -- A failure of the primary that is not a fault of the client's request, while fewer backup answers
  -- of the day are counted than the limit allows or the limit is 0, goes to the backup: with the
  -- entry of the model map, or the default model, or the client's model, the first of them that is
  -- not empty; with the rest of the payload unchanged and with a marker that names the client's model. The breaker is then open until
  -- the hold time after the failure, or as before where it is scoped to the request. Once the budget
  -- is spent the primary's own failure is passed on and the breaker is as before.
  pub outage-FailsOver :
      (opened now : ℕ) (day : String) (payload : Payload B) (o : Outcome R) (s : State)
      → IsOutage o
      → FailsOver opened day payload o s (after_primary cfg opened now day payload o s)
  outage-FailsOver opened now day payload (raised (invalid_request e)) s h = absurd h
  outage-FailsOver opened now day payload (raised (other e)) s h =
      unfold after_primary in fail_over-FailsOver opened now day payload _ _ s
  outage-FailsOver opened now day payload (raised both_unreachable) s h =
      unfold after_primary in fail_over-FailsOver opened now day payload _ _ s
  outage-FailsOver opened now day payload (returned (relay status content)) s h =
      subst
        (λ (r : Next B R × State).
          FailsOver opened day payload (returned (relay status content)) s r)
        (sym (relay-fail_over opened now day payload status content s h.0 h.1))
        (fail_over-FailsOver opened now day payload _ _ s)
  outage-FailsOver opened now day payload (returned (answer r)) s h = absurd h

-- Whatever the backup does, the client never gets an error that the backup wrote: the result is the
-- backup's answer, or a 503 of the gateway's own, or the gateway's own exception. An error of the
-- backup closes the breaker, so that the next request asks the primary.
pub backup_error_hidden :
    {B R : Type 0} (cfg : Settings) (day : String) (m : Marker) (o : Outcome R) (s : State)
    → let (result, t) = after_secondary cfg day m o s in
      ((r : R) → o ≡ returned (answer r) → result ≡ returned (answer r))
      × ((status : ℕ) (content : Content)
          → o ≡ returned (relay status content)
          → (result ≡ returned (relay 503 (backup_error status m.reason)))
            × (t.fallback_until ≡ 0)
            × ((now : ℕ) (next_day : String) (payload : Payload B)
                → begin {R = R} cfg now next_day payload t ≡ (ask_primary, t)))
      × ((e : Raised) → o ≡ raised e → result ≡ raised both_unreachable)
unfolding after_secondary begin
backup_error_hidden cfg day m o s = (
  λ r e. ground arith,
  λ status content e. (ground arith, ground arith, λ now next_day payload. ground arith),
  λ e h. ground arith,
)
