-- ===== src/Execute/Arbitrator.antt =====
-- src/citadel/services/execute/arbitrator.py: admission by context size and call rate. A time is a
-- whole number of seconds and an argument of the call that reads the clock.
pub mod Rate
use the_soverign_imperia_cit.Base.{
  ℕ, ◌+◌, ◌/◌, String, List, [], ◌∷◌, ◌++◌, Bool, true, false, Option, none, ltb, leb, select,
  length, if◌then◌else◌,
}
use the_soverign_imperia_cit.Base.Text.{Text}
use the_soverign_imperia_cit.Execute.Blueprint.{
  Blueprint, Reason, RunSpec, no_reason, rate_limited, context_over_budget,
}

pub record ArbitrationDecision : Type 0 where
  pub admit : Bool
  pub tier : String
  pub reason : Reason
  pub run_spec : Option RunSpec

-- A decision with no run specification.
abbrev pub decide : Bool → String → Reason → ArbitrationDecision
decide admit tier reason = record { admit = admit; tier = tier; reason = reason; run_spec = none }

-- `NullArbitrator.arbitrate`
unfoldable pub arbitrate_null : Blueprint → ArbitrationDecision
arbitrate_null b = decide true b.assigned_tier no_reason

unfoldable pub estimate_tokens : Text → ℕ
estimate_tokens text = (length text + 3) / 4

pub record ResourceArbitrator : Type 0 where
  pub max_calls : ℕ
  pub calls : List ℕ

abbrev pub new_arbitrator : ℕ → ResourceArbitrator
new_arbitrator max_calls_per_hour = record { max_calls = max_calls_per_hour; calls = [] }

-- `t >= now - 3600`
abbrev pub is_recent : ℕ → ℕ → Bool
is_recent now t = leb now (t + 3600)

unfoldable pub prune : ResourceArbitrator → ℕ → ResourceArbitrator
prune a now = record a { calls = select (is_recent now) a.calls }

unfoldable pub context_tokens : Blueprint → ℕ
unfolding estimate_tokens
context_tokens b = estimate_tokens b.context + estimate_tokens b.instruction

unfoldable pub arbitrate :
    ResourceArbitrator → ℕ → Blueprint → ResourceArbitrator × ArbitrationDecision
unfolding prune
arbitrate a now b =
    if ltb b.context_token_budget (context_tokens b)
    then (
      a,
      decide false b.assigned_tier (context_over_budget (context_tokens b) b.context_token_budget),
    )
    else let pruned = prune a now in
      if leb pruned.max_calls (length pruned.calls)
      then (pruned, decide false b.assigned_tier rate_limited)
      else (
        record pruned { calls = pruned.calls ++ now ∷ [] },
        decide true b.assigned_tier no_reason,
      )
