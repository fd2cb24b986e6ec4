-- ===== src/Execute/Cloud.antt =====
-- src/citadel/services/execute/cloud.py: the executor behind the Claude command line. The call of the
-- command is a parameter: it raises an exception or returns the exit code and the output.
use the_soverign_imperia_cit.Base.{
  ℕ, String, List, [], ◌∷◌, ◌++◌, map, ◌⊎◌, inl, inr, ◌==◌, none, some, if◌then◌else◌,
}
use the_soverign_imperia_cit.Base.Dict
use the_soverign_imperia_cit.Base.Text.{Text, codes, strip, join}
use the_soverign_imperia_cit.Execute.Blueprint.{
  Blueprint, ExecutionResult, Status, pass, error, Reason, no_reason, exception, exit_code,
}
use the_soverign_imperia_cit.Execute.Orchestrate.{tier_model}

abbrev pub cloud_prefix : Text
cloud_prefix =
    codes
      "You are a Tier-2 executor in the Sovereign Imperia Citadel. Follow the blueprint exactly, "
    ++ codes "edit only allowed files, and return the result and nothing else."

-- One part of the prompt, when the list is not empty.
unfoldable pub list_part : Text → List String → List Text
unfolding join
list_part title [] = []
list_part title (s ∷ ss) = (title ++ join (codes ", ") (map codes (s ∷ ss))) ∷ []

unfoldable pub context_parts : Text → List Text
context_parts [] = []
context_parts (c ∷ context) = (codes "Context:\n" ++ c ∷ context) ∷ []

unfoldable pub build_prompt : Blueprint → Text
unfolding join list_part context_parts
build_prompt b = join (codes "\n\n") (
    cloud_prefix
    ∷ (list_part (codes "Allowed files: ") b.allowed_files
        ++ (list_part (codes "Injection anchors: ") b.injection_anchors
            ++ (context_parts b.context ++ (codes "Task:\n" ++ b.instruction) ∷ []))))

-- `TIER_MODEL.get(tier, TIER_MODEL["standard"])`
unfoldable pub model_of : String → String
model_of tier = elim (Dict.get tier_model tier) [ none ↦ "claude-sonnet-4-6" | some m ↦ m ]

abbrev pub tier_result : Blueprint → Status → Text → Reason → ExecutionResult
tier_result b status output reason = record {
  task_id = b.task_id;
  status = status;
  output = output;
  tier_used = b.assigned_tier;
  reason = reason;
}

-- What the exit code and the output make of the task.
unfoldable pub result_of : Blueprint → Text ⊎ (ℕ × Text) → ExecutionResult
unfolding strip
result_of b (inl exc) = tier_result b error [] (exception exc)
result_of b (inr (code, out)) =
    if code == 0
    then tier_result b pass (strip out) no_reason
    else tier_result b error out (exit_code code)

abbrev pub Invoke : Type 0 → Type 0
Invoke W = W → List String → Text → W × (Text ⊎ (ℕ × Text))

unfoldable pub execute : {W : Type 0} → Invoke W → String → W → Blueprint → W × ExecutionResult
unfolding build_prompt model_of result_of
execute invoke command w b =
    let (w', answer) =
      invoke w (command ∷ "--print" ∷ "--model" ∷ model_of b.assigned_tier ∷ []) (build_prompt b) in
    (w', result_of b answer)
