-- ===== src/Examples/Tiers.antt =====
-- The theorems on tiers and executors at concrete inputs.
use the_soverign_imperia_cit.Base.{
  ℕ, ◌+◌, List, [], ◌∷◌, ◌≡◌, ◌≢◌, none, some, str_eq, eq_iff, arith, if◌then◌else◌,
}
use the_soverign_imperia_cit.Execute.Blueprint.{
  Blueprint, Executor, ExecutionResult, Status, pass, error, no_reason,
}
use the_soverign_imperia_cit.Execute.Policy.{Line, blank, entry, Ratio}
use the_soverign_imperia_cit.Execute.Policy.Persistence.{Outcome}
use the_soverign_imperia_cit.Execute.Orchestrate.{resilient_orchestrate}
use the_soverign_imperia_cit.Execute.Orchestrate.Ladder.{climb_all, resilient_orchestrate-climb_all}

abbrev half : Ratio
half = record { num = 1; den = 2 }

abbrev outcomes : List Outcome
outcomes =
    record { intent = "check"; tier = "local"; status = error }
    ∷ record { intent = "check"; tier = "cloud"; status = pass }
    ∷ record { intent = "check"; tier = "local"; status = pass }
    ∷ record { intent = "check"; tier = "local"; status = error }
    ∷ []

abbrev lines : List Line
lines = blank ∷ entry (some "search") (some "local") (some pass) ∷ []

-- Executors on a counter of their calls.
abbrev answer : Status → Blueprint → ExecutionResult
answer s b = record {
  task_id = b.task_id;
  status = s;
  output = [];
  tier_used = b.assigned_tier;
  reason = no_reason;
}

abbrev fails : Executor ℕ
fails n b = (n + 1, answer error b)

abbrev works : Executor ℕ
works n b = (n + 1, answer pass b)

abbrev task : Blueprint
task = record {
  task_id = "t";
  instruction = [];
  assigned_tier = "cheap";
  context = [];
  context_token_budget = 8000;
  injection_anchors = [];
  allowed_files = [];
}

resilient_orchestrate-climb_all_example :
    resilient_orchestrate fails none (some works) 0 (task ∷ task ∷ [])
    ≡ climb_all (fails ∷ fails ∷ works ∷ []) 0 (task ∷ task ∷ [])
resilient_orchestrate-climb_all_example =
    resilient_orchestrate-climb_all fails none (some works) 0 (task ∷ task ∷ [])

-- Works in every tier but "cheap".
abbrev works_dear : Executor ℕ
works_dear n b = (n + 1, answer (if str_eq b.assigned_tier "cheap" then error else pass) b)

works_agree : (n : ℕ) (b : Blueprint) → b.assigned_tier ≢ "cheap" → works n b ≡ works_dear n b
works_agree n b h = ground (arith, eq_iff b.assigned_tier "cheap")
