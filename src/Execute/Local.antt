-- ===== src/Execute/Local.antt =====
-- src/citadel/services/execute/local: the executor for local models and the hardware arbitrator.
-- The model backend (tools/model_backend.py, which may be absent) and the engine are parameters.
pub mod Hardware
pub mod Engine
pub mod Fits
use the_soverign_imperia_cit.Base.{
  ℕ, String, List, [], ◌∷◌, ◌++◌, Bool, ◌⊎◌, inl, inr, Option, none, some, if◌then◌else◌,
}
use the_soverign_imperia_cit.Base.Text.{Text, codes, strip, join}
use the_soverign_imperia_cit.Execute.Blueprint.{
  Blueprint, ExecutionResult, Status, pass, blocked, error, Reason, no_reason, no_run_spec,
  engine_unavailable, exception, RunSpec,
}
use the_soverign_imperia_cit.Execute.Arbitrator.{ArbitrationDecision}
use the_soverign_imperia_cit.Execute.Cloud.{context_parts, tier_result}

abbrev pub local_prefix : Text
local_prefix =
    codes
      "You are a Tier-2 local executor in the Sovereign Imperia Citadel. Follow the blueprint exactly, "
    ++ codes "edit only allowed files, and return the result and nothing else."

unfoldable pub local_prompt : Blueprint → Text
unfolding join context_parts
local_prompt b =
    join (codes "\n\n")
      (local_prefix ∷ (context_parts b.context ++ (codes "Task:\n" ++ b.instruction) ∷ []))

pub record LocalEngine (E : Type 0) : Type 0 where
  pub name : String
  pub available : E → E × Bool
  pub generate : E → Text → RunSpec → E × (Text ⊎ Text)

-- `if self._model_override: spec = replace(spec, model=self._model_override)`
unfoldable pub override_model : Option Text → RunSpec → RunSpec
override_model none spec = spec
override_model (some []) spec = spec
override_model (some (c ∷ model)) spec = record spec { model = c ∷ model }

-- The answer of the engine: an exception or the text.
unfoldable pub answer_of : Blueprint → Text ⊎ Text → ExecutionResult
unfolding strip
answer_of b (inl exc) = tier_result b error [] (exception exc)
answer_of b (inr output) = tier_result b pass (strip output) no_reason

-- An admitted task with its run specification.
unfoldable pub run_engine :
    {E : Type 0} → LocalEngine E → RunSpec → E → Blueprint → E × ExecutionResult
unfolding local_prompt answer_of
run_engine engine spec e b =
    let (e', ok) = engine.available e in
    let (e'', answer) = engine.generate e' (local_prompt b) spec in
    if ok
    then (e'', answer_of b answer)
    else (e', tier_result b blocked [] (engine_unavailable engine.name))

unfoldable pub execute :
    {E : Type 0}
    → LocalEngine E
    → Option Text
    → (Blueprint → ArbitrationDecision)
    → E
    → Blueprint
    → E × ExecutionResult
unfolding override_model run_engine
execute engine model_override arbitrate e b =
    let decision : ArbitrationDecision = arbitrate b in
    if decision.admit
    then elim decision.run_spec [
      | none ↦ (e, tier_result b error [] no_run_spec)
      | some spec ↦ run_engine engine (override_model model_override spec) e b
    ]
    else (e, tier_result b blocked [] decision.reason)
