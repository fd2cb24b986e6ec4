-- ===== src/Execute/Runner.antt =====
-- src/citadel/services/execute/sovereign.py: the runner of a prompt. The classifier's patterns, the
-- search of the workspace and the two executors are parameters.
pub mod Escalation
use the_soverign_imperia_cit.Base.{
  String, List, [], ◌∷◌, ◌++◌, Bool, false, ◌||◌, Option, none, some, str_eq, if◌then◌else◌,
}
use the_soverign_imperia_cit.Base.Text.{Text, codes}
use the_soverign_imperia_cit.Execute.Blueprint.{Blueprint, Executor, ExecutionResult}
use the_soverign_imperia_cit.Execute.Policy.{LocalConfidence}
use the_soverign_imperia_cit.Execute.Orchestrate.{sovereign_run}

-- The intents of the patterns, in their order.
abbrev pub intents : List String
intents = "architecture" ∷ "security" ∷ "search" ∷ "check" ∷ "simple_function" ∷ "question" ∷ []

-- The first intent whose pattern is found in the text.
unfoldable pub first_intent : (String → Text → Bool) → List String → Text → String
first_intent finds [] text = "question"
first_intent finds (i ∷ is) text =
    let rest = first_intent finds is text in if finds i text then i else rest

unfoldable pub classify_intent : (String → Text → Bool) → Text → String
unfolding first_intent
classify_intent finds prompt = first_intent finds intents prompt

-- `_GROUNDED_INTENTS` and `_COMPLEX_INTENTS`
unfoldable pub is_grounded : String → Bool
is_grounded intent = str_eq intent "question" || str_eq intent "search"

unfoldable pub is_complex : String → Bool
is_complex intent = str_eq intent "architecture" || str_eq intent "security"

-- `f"{context}\n\n" if context else ""`
unfoldable pub context_prefix : Text → Text
context_prefix [] = []
context_prefix (c ∷ context) = (c ∷ context) ++ codes "\n\n"

-- The context with what the search found, if it found anything.
unfoldable pub add_hits : Text → Text → Text
unfolding context_prefix
add_hits context [] = context
add_hits context (h ∷ hits) =
    context_prefix context ++ codes "Relevant context from the workspace brain:\n" ++ h ∷ hits

abbrev pub Search : Type 0 → Type 0
Search W = W → Text → W × Text

-- The blueprint of a prompt; the tier "cheap" is a valid one.
abbrev pub blueprint_of : String → Text → Text → Blueprint
blueprint_of task_id prompt grounded = record {
  task_id = task_id;
  instruction = prompt;
  assigned_tier = "cheap";
  context = grounded;
  context_token_budget = 8000;
  injection_anchors = [];
  allowed_files = [];
}

module _ {W : Type 0} where
  unfoldable pub ground_context : Search W → W → String → Text → Text → W × Text
  unfolding add_hits is_grounded
  ground_context look_up w intent prompt context =
      let (w', hits) = look_up w prompt in
      if is_grounded intent then (w', add_hits context hits) else (w, context)

  unfoldable pub run :
      Executor W
      → Executor W
      → (Text → String)
      → Search W
      → W
      → Option LocalConfidence
      → Text
      → Text
      → String
      → Option (W × Option LocalConfidence × ExecutionResult)
  unfolding ground_context is_complex
  run local cloud classify look_up w c prompt context task_id =
      let intent = classify prompt in
      let (w', grounded) = ground_context look_up w intent prompt context in
      let complexity = (if is_complex intent then "high" else "low") in
      sovereign_run local cloud w' c (blueprint_of task_id prompt grounded) intent complexity false
