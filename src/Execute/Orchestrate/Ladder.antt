-- ===== src/Execute/Orchestrate/Ladder.antt =====
-- The self-heal ladder is the first pass along a list of executors.
use mathlib.Core.Path.{subst}
use mathlib.Core.List.{append-nil}
use the_soverign_imperia_cit.Base.{
  ◌≡◌, refl, ap, ◌∙◌, List, [], ◌∷◌, ◌++◌, true, Bool-cases, inl, inr, Option, none, some,
  if◌then◌else◌,
}
use the_soverign_imperia_cit.Execute.Blueprint.{
  Blueprint, Executor, ExecutionResult, architecturally_blocked, is_pass,
}
use the_soverign_imperia_cit.Execute.Orchestrate.{
  blocked_result, retry, resilient_one, resilient_orchestrate,
}

module _ {W : Type 0} where
  -- The first pass along the rungs; at the end a human is asked.
  unfoldable pub climb : List (Executor W) → W → Blueprint → W × ExecutionResult
  climb [] w b = (w, blocked_result b architecturally_blocked)
  climb (execute ∷ rungs) w b =
      let (w', r) = execute w b in if is_pass r then (w', r) else climb rungs w' b

  abbrev pub rung : Option (Executor W) → List (Executor W)
  rung none = []
  rung (some execute) = execute ∷ []

  unfoldable pub climb_all : List (Executor W) → W → List Blueprint → W × List ExecutionResult
  unfolding climb
  climb_all rungs w [] = (w, [])
  climb_all rungs w (b ∷ bs) =
      let (w', r) = climb rungs w b in let (w'', rs) = climb_all rungs w' bs in (w'', r ∷ rs)

  -- A way to go on from a result that keeps a pass and climbs the rungs otherwise.
  abbrev Climbs :
      Blueprint → (W × ExecutionResult → W × ExecutionResult) → List (Executor W) → Type 0
  Climbs b go_on rungs =
      (w : W) (r : ExecutionResult) → go_on (w, r) ≡ (if is_pass r then (w, r) else climb rungs w b)

  module _ (b : Blueprint) where
    finish : W × ExecutionResult → W × ExecutionResult
    finish (w, r) = (w, if is_pass r then r else blocked_result b architecturally_blocked)

    Climbs-finish : Climbs b finish []
    unfolding finish climb
    Climbs-finish w r = elim (Bool-cases (is_pass r)) [ inl e ↦ rw e refl | inr e ↦ rw e refl ]

    Climbs-retry :
        (go_on : W × ExecutionResult → W × ExecutionResult) (alt : Option (Executor W))
        (rungs : List (Executor W))
        → Climbs b go_on rungs
        → Climbs b (λ s. go_on (retry alt b s)) (rung alt ++ rungs)
    unfolding retry climb
    Climbs-retry go_on none rungs h w r = h w r
    Climbs-retry go_on (some execute) rungs h w r = elim (Bool-cases (is_pass r)) [
      | inl e ↦ rw e (h w r ∙ kept r w e)
      | inr e ↦ rw e (h (execute w b).0 (execute w b).1)
    ]
      where
        kept :
            (r : ExecutionResult) (w : W)
            → is_pass r ≡ true
            → (if is_pass r then (w, r) else climb rungs w b) ≡ (w, r)
        kept r w e = rw e refl

  resilient_one-climb :
      (primary : Executor W) (alt architect : Option (Executor W)) (w : W) (b : Blueprint)
      → resilient_one primary alt architect w b
        ≡ climb (primary ∷ primary ∷ rung alt ++ rung architect) w b
  unfolding resilient_one climb finish
  resilient_one-climb primary alt architect w b =
      Climbs-retry b (λ s. finish b (retry architect b (retry alt b s))) (some primary)
        (rung alt ++ rung architect)
        (Climbs-retry b (λ s. finish b (retry architect b s)) alt (rung architect)
          (subst (λ rungs. Climbs b (λ s. finish b (retry architect b s)) rungs)
            (append-nil (rung architect))
            (Climbs-retry b (finish b) architect [] (Climbs-finish b))))
        (primary w b).0 (primary w b).1

  -- `resilient_orchestrate` takes for each blueprint the first pass of the primary executor, the
  -- primary again, the alternate and the architect, those that are there, on the state that the ones
  -- before have left, calls none of those after it, and reports blocked when none of them passes.
  pub resilient_orchestrate-climb_all :
      (primary : Executor W) (alt architect : Option (Executor W)) (w : W) (bs : List Blueprint)
      → resilient_orchestrate primary alt architect w bs
        ≡ climb_all (primary ∷ primary ∷ rung alt ++ rung architect) w bs
  unfolding resilient_orchestrate climb_all
  resilient_orchestrate-climb_all primary alt architect w [] = refl
  resilient_orchestrate-climb_all primary alt architect w (b ∷ bs) =
      let rungs = primary ∷ primary ∷ rung alt ++ rung architect in
      ap
        (λ (s : W × ExecutionResult).
          let (w'', rs) = resilient_orchestrate primary alt architect s.0 bs in (w'', s.1 ∷ rs))
        (resilient_one-climb primary alt architect w b)
      ∙ ap (λ (t : W × List ExecutionResult). (t.0, (climb rungs w b).1 ∷ t.1))
          (resilient_orchestrate-climb_all primary alt architect (climb rungs w b).0 bs)
