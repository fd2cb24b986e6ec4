-- ===== src/Execute/Runner/Escalation.antt =====
-- Which prompts stay away from the local tier.
use the_soverign_imperia_cit.Base.{◌≡◌, String, Bool, true, false, Option, str_eq, eq_iff, arith}
use the_soverign_imperia_cit.Base.Text.{Text}
use the_soverign_imperia_cit.Execute.Blueprint.{Executor}
use the_soverign_imperia_cit.Execute.Policy.{LocalConfidence, Ratio, route}
use the_soverign_imperia_cit.Execute.Policy.Routes.{route_iff}
use the_soverign_imperia_cit.Execute.Orchestrate.Learning.{sovereign_run-cloud}
use the_soverign_imperia_cit.Execute.Runner.{is_complex, Search, ground_context, blueprint_of, run}

high_not_local :
    (intent : String) (high_risk : Bool) (r : Ratio)
    → str_eq (route intent "high" high_risk r).tier "local" ≡ false
high_not_local intent high_risk r = ground (
  arith,
  route_iff intent "high" high_risk r,
  eq_iff (route intent "high" high_risk r).tier "local",
)

-- A prompt that the classifier calls "architecture" or "security" never runs on the local executor,
-- whatever was learned: the run is the same for all of them.
pub complex_never_local :
    {W : Type 0} (local local' cloud : Executor W) (classify : Text → String) (look_up : Search W)
    (w : W) (c : Option LocalConfidence) (prompt context : Text) (task_id : String)
    → is_complex (classify prompt) ≡ true
    → run local cloud classify look_up w c prompt context task_id
      ≡ run local' cloud classify look_up w c prompt context task_id
unfolding run
complex_never_local local local' cloud classify look_up w c prompt context task_id h =
    let s = ground_context look_up w (classify prompt) prompt context in
    rw h (
      sovereign_run-cloud local local' cloud s.0 c (blueprint_of task_id prompt s.1)
        (classify prompt) "high" false (λ r e. high_not_local (classify prompt) false r))
