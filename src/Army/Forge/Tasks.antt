-- ===== src/Army/Forge/Tasks.antt =====
-- What the forge makes of its subtasks.
use the_soverign_imperia_cit.Base.{
  ℕ, suc, String, ◌≡◌, refl, List, [], ◌∷◌, map, false, Option, some, Option-cases, inl, inr,
}
use the_soverign_imperia_cit.Base.Text.{Text}
use the_soverign_imperia_cit.Execute.Policy.{LocalConfidence, route}
use the_soverign_imperia_cit.Execute.Orchestrate.{local_confidence}
use the_soverign_imperia_cit.Execute.Orchestrate.Learning.{IsReady, local_confidence-total}
use the_soverign_imperia_cit.Army.Forge.{AtomicTask, forge_task, forge_from, subtasks_of, forge}

abbrev pub count_from : ℕ → List Text → List ℕ
count_from index [] = []
count_from index (sub ∷ subtasks) = index ∷ count_from (suc index) subtasks

-- The instructions of the tasks are the subtasks, in order, and the indices count them.
abbrev pub AreTasks : ℕ → List Text → List AtomicTask → Type 0
AreTasks index subtasks tasks =
    (map (λ t. t.instruction) tasks ≡ subtasks)
    × (map (λ t. t.index) tasks ≡ count_from index subtasks)

module _ (classify : Text → String) (c : Option LocalConfidence) (ready : IsReady c) where
  forge_task-total :
      (index : ℕ) (sub : Text)
      → (t : AtomicTask) × (forge_task classify c index sub ≡ some t)
        × (t.instruction ≡ sub)
        × (t.index ≡ index)
  unfolding forge_task
  forge_task-total index sub = elim (Option-cases (local_confidence c (classify sub))) [
    | inl e ↦ absurd (local_confidence-total c (classify sub) ready e)
    | inr (r, e) ↦ (
      record {
        index = index;
        instruction = sub;
        tier = (route (classify sub) "low" false r).tier;
        free = (route (classify sub) "low" false r).free;
        intent = classify sub;
      },
      rw (e, forge_task) refl,
      refl,
      refl,
    )
  ]

  forge_from-total :
      (index : ℕ) (subtasks : List Text)
      → (tasks : List AtomicTask) × (forge_from classify c index subtasks ≡ some tasks)
        × AreTasks index subtasks tasks
  unfolding forge_from
  forge_from-total index [] = ([], refl, (refl, refl))
  forge_from-total index (sub ∷ subtasks) =
      let (t, et, ei, en) = forge_task-total index sub in
      let (ts, es, (is, ns)) = forge_from-total (suc index) subtasks in
      (t ∷ ts, rw (et, es) refl, (rw (ei, is) refl, rw (en, ns) refl))

-- When the confidence is a number, the forge makes exactly one task of each subtask, the given items
-- or those of the planner, in their order, with the indices 0, 1, 2 and so on.
pub forge-AreTasks :
    (plan : Text → List Text) (classify : Text → String) (c : Option LocalConfidence) (goal : Text)
    (items : Option (List Text))
    → IsReady c
    → (tasks : List AtomicTask) × (forge plan classify c goal items ≡ some tasks)
      × AreTasks 0 (subtasks_of plan goal items) tasks
unfolding forge
forge-AreTasks plan classify c goal items ready =
    forge_from-total classify c ready 0 (subtasks_of plan goal items)
