-- ===== src/Execute/Orchestrate.antt =====
-- src/citadel/services/execute/executor.py: orchestration of executors. An executor, like an
-- arbitrator, is a function on a state `W` of its own that the callers pass along.
pub mod Ladder
pub mod Learning
use the_soverign_imperia_cit.Base.{
  String, List, [], ◌∷◌, Bool, true, false, Option, none, some, str_eq, if◌then◌else◌,
}
use the_soverign_imperia_cit.Base.Dict
use the_soverign_imperia_cit.Base.Dict.{Dict}
use the_soverign_imperia_cit.Execute.Blueprint.{
  Blueprint, Executor, ExecutionResult, Status, blocked, Reason, no_reason, architecturally_blocked,
  is_pass,
}
use the_soverign_imperia_cit.Execute.Arbitrator.{ArbitrationDecision}
use the_soverign_imperia_cit.Execute.Policy.{
  LocalConfidence, Ratio, certain, route, confidence, record_outcome,
}

abbrev pub tier_model : Dict String
tier_model =
    ("cheap", "claude-haiku-4-5-20251001")
    ∷ ("standard", "claude-sonnet-4-6")
    ∷ ("strong", "claude-sonnet-4-6")
    ∷ ("ultra", "claude-opus-4-8")
    ∷ []

-- The result of a task that no executor ran.
abbrev pub blocked_result : Blueprint → Reason → ExecutionResult
blocked_result b reason = record {
  task_id = b.task_id;
  status = blocked;
  output = [];
  tier_used = "";
  reason = reason;
}

abbrev pub Arbiter : Type 0 → Type 0
Arbiter W = W → Blueprint → W × ArbitrationDecision

-- `confidence.confidence(intent) if confidence is not None else 1.0`; the prior is 1.
unfoldable pub local_confidence : Option LocalConfidence → String → Option Ratio
local_confidence none intent = some certain
local_confidence (some c) intent = confidence c intent certain

unfoldable pub learn : Option LocalConfidence → String → String → Status → Option LocalConfidence
learn none intent tier status = none
learn (some c) intent tier status = some (record_outcome c intent tier status)

module _ {W : Type 0} where
  -- One round of the loop of `orchestrate`; an admitted task runs in the tier that was decided.
  unfoldable pub orchestrate_one : Arbiter W → Executor W → W → Blueprint → W × ExecutionResult
  orchestrate_one arbitrate execute w b =
      let (w', decision) = arbitrate w b in
      elim decision.admit [
        | false ↦ (w', blocked_result b decision.reason)
        | true ↦ execute w' (record b { assigned_tier = decision.tier })
      ]

  unfoldable pub orchestrate :
      Arbiter W → Executor W → W → List Blueprint → W × List ExecutionResult
  unfolding orchestrate_one
  orchestrate arbitrate execute w [] = (w, [])
  orchestrate arbitrate execute w (b ∷ bs) =
      let (w', r) = orchestrate_one arbitrate execute w b in
      let (w'', rs) = orchestrate arbitrate execute w' bs in (w'', r ∷ rs)

  -- `if result.status != "pass" and executor is not None: result = executor.execute(bp)`
  unfoldable pub retry : Option (Executor W) → Blueprint → W × ExecutionResult → W × ExecutionResult
  retry none b (w, result) = (w, result)
  retry (some execute) b (w, result) = if is_pass result then (w, result) else execute w b

  -- One round of the loop of `resilient_orchestrate`.
  unfoldable pub resilient_one :
      Executor W → Option (Executor W) → Option (Executor W) → W → Blueprint → W × ExecutionResult
  unfolding retry
  resilient_one primary alt architect w b =
      let (w', result) = retry architect b (retry alt b (retry (some primary) b (primary w b))) in
      (w', if is_pass result then result else blocked_result b architecturally_blocked)

  unfoldable pub resilient_orchestrate :
      Executor W
      → Option (Executor W)
      → Option (Executor W)
      → W
      → List Blueprint
      → W × List ExecutionResult
  unfolding resilient_one
  resilient_orchestrate primary alt architect w [] = (w, [])
  resilient_orchestrate primary alt architect w (b ∷ bs) =
      let (w', r) = resilient_one primary alt architect w b in
      let (w'', rs) = resilient_orchestrate primary alt architect w' bs in (w'', r ∷ rs)

  -- The cloud part of `sovereign_run`.
  unfoldable pub escalate_to_cloud :
      Executor W
      → W
      → Option LocalConfidence
      → Blueprint
      → String
      → W × Option LocalConfidence × ExecutionResult
  unfolding learn
  escalate_to_cloud cloud w c b intent =
      let tier : String =
        (if str_eq b.assigned_tier "cheap" then "standard" else b.assigned_tier) in
      let (w', result) = cloud w (record b { assigned_tier = tier }) in
      (w', learn c intent "cloud" result.status, result)

  -- The free tier first, the cloud when it does not pass.
  unfoldable pub try_local :
      Executor W
      → Executor W
      → W
      → Option LocalConfidence
      → Blueprint
      → String
      → W × Option LocalConfidence × ExecutionResult
  unfolding learn escalate_to_cloud
  try_local local cloud w c b intent =
      let (w', result) = local w b in
      let c' = learn c intent "local" result.status in
      if is_pass result then (w', c', result) else escalate_to_cloud cloud w' c' b intent

  -- `none` is the ZeroDivisionError of `confidence`.
  unfoldable pub sovereign_run :
      Executor W
      → Executor W
      → W
      → Option LocalConfidence
      → Blueprint
      → String
      → String
      → Bool
      → Option (W × Option LocalConfidence × ExecutionResult)
  unfolding local_confidence try_local escalate_to_cloud
  sovereign_run local cloud w c b intent complexity high_risk = elim (local_confidence c intent) [
    | none ↦ none
    | some ratio ↦ some (
        if str_eq (route intent complexity high_risk ratio).tier "local"
        then try_local local cloud w c b intent
        else escalate_to_cloud cloud w c b intent)
  ]
