-- ===== src/Army/Forge.antt =====
-- src/citadel/services/army/forge.py: a goal as atomic tasks, each routed to a tier. The planner and
-- the classifier are parameters; the default planner splits by a regular expression.
pub mod Tasks
use the_soverign_imperia_cit.Base.{
  ℕ, suc, ◌+◌, String, List, [], ◌∷◌, Bool, false, Option, none, some,
}
use the_soverign_imperia_cit.Base.Text.{Text}
use the_soverign_imperia_cit.Execute.Policy.{LocalConfidence, Ratio, ExecutionRoute, route}
use the_soverign_imperia_cit.Execute.Orchestrate.{local_confidence}

-- The id is `t{index}`.
pub record AtomicTask : Type 0 where
  pub index : ℕ
  pub instruction : Text
  pub tier : String
  pub free : Bool
  pub intent : String

-- The task of one subtask, `none` for the ZeroDivisionError of the confidence.
unfoldable pub forge_task : (Text → String) → Option LocalConfidence → ℕ → Text → Option AtomicTask
unfolding local_confidence
forge_task classify c index sub = elim (local_confidence c (classify sub)) [
  | none ↦ none
  | some ratio ↦
      let decision : ExecutionRoute = route (classify sub) "low" false ratio in
      some (record {
        index = index;
        instruction = sub;
        tier = decision.tier;
        free = decision.free;
        intent = classify sub;
      })
]

abbrev pub cons_task : Option AtomicTask → Option (List AtomicTask) → Option (List AtomicTask)
cons_task none rest = none
cons_task (some t) none = none
cons_task (some t) (some ts) = some (t ∷ ts)

-- The loop from an index.
unfoldable pub forge_from :
    (Text → String) → Option LocalConfidence → ℕ → List Text → Option (List AtomicTask)
unfolding forge_task
forge_from classify c index [] = some []
forge_from classify c index (sub ∷ subtasks) =
    cons_task (forge_task classify c index sub) (forge_from classify c (suc index) subtasks)

-- `items if items is not None else self._plan(goal)`
unfoldable pub subtasks_of : (Text → List Text) → Text → Option (List Text) → List Text
subtasks_of plan goal none = plan goal
subtasks_of plan goal (some items) = items

unfoldable pub forge :
    (Text → List Text)
    → (Text → String)
    → Option LocalConfidence
    → Text
    → Option (List Text)
    → Option (List AtomicTask)
unfolding forge_from subtasks_of
forge plan classify c goal items = forge_from classify c 0 (subtasks_of plan goal items)
