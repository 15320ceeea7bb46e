-- ===== src/Egress/Pool/World/Freed.antt =====
-- What the labels of the cordons mean for a request that succeeds.
use mathlib.Core.Path.{subst}
use proxy_opencode.Prelude.{
  ℕ, ◌≤◌, ◌≡◌, refl, sym, String, Bool, true, false, some, List, [], ◌∷◌, get_elem?, All-get_elem?,
  arith, map,
}
use proxy_opencode.Egress.Models.{EgressSpec, EgressState, cordoned, cooling_down, fresh}
use proxy_opencode.Egress.Pool.{Config, Pool, new}
use proxy_opencode.Egress.Pool.Verdict.{Outcome, Readings, settle}
use proxy_opencode.Egress.Pool.World.{
  World, Action, acquire, wake_up, cancel, set_tokens, finish_request, drop_request, probe,
  rotating, rotated, step, run, start,
}
use proxy_opencode.Egress.Pool.World.Accounts.{states-begin}
use proxy_opencode.Egress.Pool.World.Steps.{states-new}
use proxy_opencode.Egress.Pool.World.Labels.{
  IsLabelled, success_clears, Timely, after, AllTimely, clock, Labels, Labels-later, Labels-proceed,
  Labels-wake_at, Labels-release, Labels-abandon, Labels-with_lease, Labels-probe_with,
  Labels-flag_at, Labels-rotated_at,
}

module _ (matches_prefix : EgressSpec → String → Bool) where
  Labels-step :
      (t : ℕ) (w : World) (a : Action)
      → Timely t a
      → Labels t w.pool.states
      → Labels (after t a) (step matches_prefix w a).pool.states
  unfolding step
  Labels-step t w (acquire key exclude now started checked bound_at) le h =
      Labels-proceed bound_at _ key now bound_at _ (
        subst (Labels bound_at) (sym (states-begin w.pool key exclude now started checked))
          (Labels-later t bound_at w.pool.states le h))
  Labels-step t w (wake_up n checked bound_at) le h =
      Labels-wake_at bound_at w n checked bound_at _ (Labels-later t bound_at w.pool.states le h)
  Labels-step t w (cancel n) le h = h
  Labels-step t w (set_tokens n tokens) le h = h
  Labels-step t w (finish_request n c o) le h =
      let h' = Labels-later t c.now w.pool.states le.0 h in
      Labels-with_lease t c.now_mono w n _ _ (Labels-later c.now c.now_mono w.pool.states le.1 h')
        (λ l. Labels-release w.pool c o l le.1 h')
  Labels-step t w (drop_request n) le h =
      Labels-with_lease t t w n _ _ h (λ l. Labels-abandon t w.pool l h)
  Labels-step t w (probe i now e) le h =
      Labels-probe_with matches_prefix w.pool i now e _ refl (Labels-later t now w.pool.states le h)
  Labels-step t w (rotating name flag) le h = Labels-flag_at t w.pool flag _ h
  Labels-step t w (rotated now name ip ip_at ip_from) le h =
      Labels-rotated_at now w.pool now ip ip_at ip_from _ (Labels-later t now w.pool.states le h)

  Labels-run :
      (t : ℕ) (w : World) (actions : List Action)
      → AllTimely t actions
      → Labels t w.pool.states
      → Labels (clock t actions) (run matches_prefix w actions).pool.states
  unfolding run
  Labels-run t w [] le h = h
  Labels-run t w (a ∷ actions) le h =
      Labels-run (after t a) (step matches_prefix w a) actions le.1 (Labels-step t w a le.0 h)

fresh-Labels : (t : ℕ) (specs : List EgressSpec) → Labels t (map fresh specs)
unfolding fresh
fresh-Labels t [] = tt
fresh-Labels t (spec ∷ specs) = (λ live. absurd (omega arith), fresh-Labels t specs)

-- From a new pool, in every interleaving in which the clock does not run backwards: a request that
-- succeeds leaves its bucket with no cordon, no cooldown and no failure, whatever the bucket was
-- cordoned for.
pub success_frees :
    (matches_prefix : EgressSpec → String → Bool) (specs : List EgressSpec) (config : Config)
    (observed : Bool) {p : Pool} (actions : List Action) (i : ℕ) {s : EgressState} (c : Readings)
    (o : Outcome)
    → new specs config observed ≡ some p
    → AllTimely 0 actions
    → let w = run matches_prefix (start p) actions in
      get_elem? w.pool.states i ≡ some s
      → clock 0 actions ≤ c.now
      → o.ok ≡ true
      → let t = (settle w.pool.config c o s).0 in
        (cordoned t c.now ≡ false) × (cooling_down t c.now ≡ false) × (t.failures ≡ 0)
success_frees matches_prefix specs config observed {p} actions i {s} c o made timely at le ok =
    let w = run matches_prefix (start p) actions in
    let labels = Labels-run matches_prefix 0 (start p) actions timely (
      subst (Labels 0) (sym (states-new specs config observed {p = p} made))
        (fresh-Labels 0 specs)) in
    success_clears w.pool.config c o s ok (λ live.
      All-get_elem? (IsLabelled (clock 0 actions)) w.pool.states i {x = s} labels at (omega arith))
