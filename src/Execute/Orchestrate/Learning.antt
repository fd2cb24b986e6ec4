-- ===== src/Execute/Orchestrate/Learning.antt =====
-- What `sovereign_run` asks of the two tiers.
use the_soverign_imperia_cit.Base.{
  ℕ, ◌*◌, List, ◌≤◌, ◌<◌, String, ◌≡◌, ◌≢◌, refl, ap, if◌then◌else◌, Bool, false, inl, inr, Option,
  none, some, Option-cases, str_eq, eq_iff, arith,
}
use the_soverign_imperia_cit.Execute.Blueprint.{Blueprint, Executor, ExecutionResult, is_pass}
use the_soverign_imperia_cit.Execute.Policy.{
  Line, certain, init, LocalConfidence, Ratio, confidence, route,
}
use the_soverign_imperia_cit.Execute.Policy.Persistence.{Outcome, run}
use the_soverign_imperia_cit.Execute.Policy.History.{IsFresh, attempts, passes, confidence-run}
use the_soverign_imperia_cit.Execute.Policy.Routes.{route_iff}
use the_soverign_imperia_cit.Execute.Orchestrate.{
  local_confidence, learn, escalate_to_cloud, try_local, sovereign_run,
}

-- Without learning, or with a positive `min_attempts`, the confidence is a number.
abbrev pub IsReady : Option LocalConfidence → Type 0
IsReady none = Unit
IsReady (some c) = 1 ≤ c.min_attempts

pub local_confidence-total :
    (c : Option LocalConfidence) (intent : String) → IsReady c → local_confidence c intent ≢ none
unfolding local_confidence confidence
local_confidence-total none intent h = ground arith
local_confidence-total (some c) intent h = ground arith

not_local :
    (intent complexity : String) (high_risk : Bool) (r : Ratio)
    → 2 * r.num < r.den
    → str_eq (route intent complexity high_risk r).tier "local" ≡ false
not_local intent complexity high_risk r h = ground (
  arith,
  route_iff intent complexity high_risk r,
  eq_iff (route intent complexity high_risk r).tier "local",
)

low :
    (file : Option (List Line)) (min_attempts : ℕ) (os : List Outcome) (intent : String) (r : Ratio)
    → IsFresh file
    → min_attempts ≤ attempts intent os
    → 2 * passes intent os < attempts intent os
    → local_confidence (some (run (init file min_attempts) os)) intent ≡ some r
    → 2 * r.num < r.den
unfolding local_confidence
low file n os intent r h le lt e = ground (arith, confidence-run file n os intent certain h, e)

module _ {W : Type 0} where
  escalate_agree :
      (cloud cloud' : Executor W) (w : W) (c : Option LocalConfidence) (b : Blueprint)
      (intent : String)
      → ((w : W) (b : Blueprint) → b.assigned_tier ≢ "cheap" → cloud w b ≡ cloud' w b)
      → escalate_to_cloud cloud w c b intent ≡ escalate_to_cloud cloud' w c b intent
  unfolding escalate_to_cloud
  escalate_agree cloud cloud' w c b intent h =
      ap (λ (s : W × ExecutionResult). (s.0, learn c intent "cloud" s.1.status, s.1))
        (h w _ (ground (arith, eq_iff b.assigned_tier "cheap", eq_iff "standard" "cheap")))

  try_agree :
      (local cloud cloud' : Executor W) (w : W) (c : Option LocalConfidence) (b : Blueprint)
      (intent : String)
      → ((w : W) (b : Blueprint) → b.assigned_tier ≢ "cheap" → cloud w b ≡ cloud' w b)
      → try_local local cloud w c b intent ≡ try_local local cloud' w c b intent
  unfolding try_local
  try_agree local cloud cloud' w c b intent h =
      ap
        (λ s.
          if is_pass (local w b).1
          then ((local w b).0, learn c intent "local" (local w b).1.status, (local w b).1)
          else s)
        (escalate_agree cloud cloud' (local w b).0 (learn c intent "local" (local w b).1.status) b
          intent h)

  -- The cloud executor is never asked to run in the tier "cheap": two cloud executors that agree on
  -- all other tiers give the same run.
  pub cloud_never_cheap :
      (local cloud cloud' : Executor W) (w : W) (c : Option LocalConfidence) (b : Blueprint)
      (intent complexity : String) (high_risk : Bool)
      → ((w : W) (b : Blueprint) → b.assigned_tier ≢ "cheap" → cloud w b ≡ cloud' w b)
      → sovereign_run local cloud w c b intent complexity high_risk
        ≡ sovereign_run local cloud' w c b intent complexity high_risk
  unfolding sovereign_run
  cloud_never_cheap local cloud cloud' w c b intent complexity high_risk h =
      elim (Option-cases (local_confidence c intent)) [
        | inl e ↦ rw (e, sovereign_run) refl
        | inr (r, e) ↦
            rw
              (
                e,
                sovereign_run,
                try_agree local cloud cloud' w c b intent h,
                escalate_agree cloud cloud' w c b intent h,
              )
              refl
      ]

  -- A route that is not local leaves the local executor out.
  pub sovereign_run-cloud :
      (local local' cloud : Executor W) (w : W) (c : Option LocalConfidence) (b : Blueprint)
      (intent complexity : String) (high_risk : Bool)
      → ((r : Ratio)
          → local_confidence c intent ≡ some r
          → str_eq (route intent complexity high_risk r).tier "local" ≡ false)
      → sovereign_run local cloud w c b intent complexity high_risk
        ≡ sovereign_run local' cloud w c b intent complexity high_risk
  unfolding sovereign_run
  sovereign_run-cloud local local' cloud w c b intent complexity high_risk h =
      elim (Option-cases (local_confidence c intent)) [
        | inl e ↦ rw (e, sovereign_run) refl
        | inr (r, e) ↦ rw (e, h r e, sovereign_run) refl
      ]

  -- A local tier that has failed too often is not tried: after a history in which the intent had
  -- at least `min_attempts` local runs, and at least one, and less than half of them passed, the run
  -- is the same for all local executors.
  pub distrusted_local :
      (local local' cloud : Executor W) (w : W) (file : Option (List Line)) (min_attempts : ℕ)
      (os : List Outcome) (b : Blueprint) (intent complexity : String) (high_risk : Bool)
      → IsFresh file
      → min_attempts ≤ attempts intent os
      → 2 * passes intent os < attempts intent os
      → sovereign_run local cloud w
          (some (run (init file min_attempts) os))
          b
          intent
          complexity
          high_risk
        ≡ sovereign_run local' cloud w
            (some (run (init file min_attempts) os))
            b
            intent
            complexity
            high_risk
  distrusted_local local local' cloud w file n os b intent complexity high_risk h le lt =
      sovereign_run-cloud local local' cloud w (some (run (init file n) os)) b intent complexity
        high_risk
        (λ r e. not_local intent complexity high_risk r (low file n os intent r h le lt e))
