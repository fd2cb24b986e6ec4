-- ===== src/Execute/Optimizer.antt =====
-- src/citadel/services/execute/optimizer.py: the optimizer of one file and its counters. The parser
-- of Python and the differ are parameters; the disposable copy is a tree of its own, in a world with
-- the same engine, ledger and files elsewhere.
pub mod Ownership
use the_soverign_imperia_cit.Base.{
  ℕ, ◌+◌, String, List, [], ◌∷◌, ◌++◌, Bool, true, false, not, ◌&&◌, ◌||◌, Option, none, some,
  if◌then◌else◌, ◌==◌, map,
}
use the_soverign_imperia_cit.Base.Dict
use the_soverign_imperia_cit.Base.Dict.{Dict}
use the_soverign_imperia_cit.Base.Text.{Text, codes, starts_with, ends_with, same}
use the_soverign_imperia_cit.Execute.Paths.{Disk, read_at}
use the_soverign_imperia_cit.Execute.Blueprint.{
  Blueprint, ExecutionResult, Status, error, Reason, no_reason, not_a_file, is_pass,
}
use the_soverign_imperia_cit.Execute.Coding.{World, CodingTools, disk_of, copy_tree, execute}

abbrev pub slash : ℕ → ℕ
slash c = if c == 92 then 47 else c

-- The program's own code; a backslash counts as a slash.
unfoldable pub is_system_path : String → Bool
is_system_path rel_path =
    starts_with (codes "src/citadel/") (map slash (codes rel_path))
    || starts_with (codes "tools/") (map slash (codes rel_path))

pub record OptimizeResult : Type 0 where
  pub path : String
  pub status : Status
  pub applied : Bool
  pub proposed : Bool
  pub diff : Text
  pub detail : Reason

abbrev pub Verifier : Type 0 → Type 0
Verifier E = E → Disk → E × Bool × Text

-- What the optimizer holds besides the tools of the coding executor: `self.verify`, the check of the
-- syntax of a text, with what it says, the differ on two texts, and the path of the disposable copy.
pub record OptimizerTools (E : Type 0) : Type 0 where
  pub coding : CodingTools E
  pub verify : Option (Verifier E)
  pub parse : Text → Bool × Text
  pub differ : Text → Text → Text
  pub copy_root : String

-- `_ast_verify`; a missing target is an OSError.
unfoldable pub ast_verify : {E : Type 0} → (Text → Bool × Text) → String → String → Verifier E
unfolding read_at
ast_verify parse sandbox target e d = elim (read_at sandbox d target) [
  | none ↦ (e, false, codes "No such file")
  | some content ↦ (e, (parse content).0, (parse content).1)
]

unfoldable pub verifier_for : {E : Type 0} → OptimizerTools E → String → Verifier E
unfolding ast_verify
verifier_for o rel_path = elim o.verify [
  | some verify ↦ verify
  | none ↦
      if ends_with (codes ".py") (codes rel_path)
      then ast_verify o.parse o.coding.sandbox rel_path
      else (λ e sandbox. (e, true, codes "no verifier"))
]

unfoldable pub instruction_of : String → Text → Text
instruction_of rel_path goal =
    codes "Optimize the file "
    ++ codes rel_path
    ++ codes " for "
    ++ goal
    ++ codes ". Return the COMPLETE new file content in a single `### FILE: "
    ++ codes rel_path
    ++ codes "` block. Do not change behavior or the public API; only improve the "
    ++ codes "implementation. If it is already optimal, return it unchanged."

unfoldable pub blueprint_for : String → Text → Blueprint
unfolding instruction_of
blueprint_for rel_path goal = record {
  task_id = "optimize";
  instruction = instruction_of rel_path goal;
  assigned_tier = "cheap";
  context = [];
  context_token_budget = 8000;
  injection_anchors = [];
  allowed_files = rel_path ∷ [];
}

abbrev pub not_found : String → OptimizeResult
not_found rel_path = record {
  path = rel_path;
  status = error;
  applied = false;
  proposed = false;
  diff = [];
  detail = not_a_file;
}

-- The result of a run that left `after` of the file, in one of the two modes.
unfoldable pub result_for :
    (Text → Text → Text) → Bool → String → Text → Text → ExecutionResult → OptimizeResult
result_for differ is_applied rel_path before after r =
    let changed = is_pass r && not (same after before) in
    record {
      path = rel_path;
      status = r.status;
      applied = is_applied && changed;
      proposed = not is_applied && changed;
      diff = if changed then differ before after else [];
      detail = r.reason;
    }

-- The mode: by ownership, when the caller does not say.
unfoldable pub applies : Option Bool → String → Bool
unfolding is_system_path
applies none rel_path = is_system_path rel_path
applies (some auto_apply) rel_path = auto_apply

module _ {E : Type 0} where
  abbrev pub coding_for : OptimizerTools E → String → CodingTools E
  coding_for o rel_path = record o.coding { verify = verifier_for o rel_path }

  -- The result, when the file can still be read; `none` is the exception of `read_text`.
  abbrev pub finished :
      World E → Option Text → (Text → OptimizeResult) → World E × Option OptimizeResult
  finished w none result = (w, none)
  finished w (some after) result = (w, some (result after))

  -- `auto_apply`: the executor works on the workspace.
  unfoldable pub apply_run :
      OptimizerTools E → World E → String → Text → Text → World E × Option OptimizeResult
  unfolding verifier_for blueprint_for result_for read_at
  apply_run o w rel_path goal before =
      let (w', r) = execute (coding_for o rel_path) w (blueprint_for rel_path goal) in
      finished w' (read_at o.coding.workspace (disk_of w') rel_path)
        (λ after. result_for o.differ true rel_path before after r)

  -- Propose-only: the executor works on a copy, which is thrown away; what it wrote elsewhere stays.
  unfoldable pub propose_run :
      OptimizerTools E → World E → String → Text → Text → World E × Option OptimizeResult
  unfolding verifier_for blueprint_for result_for read_at
  propose_run o w rel_path goal before =
      let copy : World E = record w { files = copy_tree o.coding.is_ignored w.files } in
      let tools : CodingTools E = record (coding_for o rel_path) { workspace = o.copy_root } in
      let (w', r) = execute tools copy (blueprint_for rel_path goal) in
      finished (record w' { files = w.files }) (read_at o.copy_root (disk_of w') rel_path)
        (λ after. result_for o.differ false rel_path before after r)

  unfoldable pub optimize :
      OptimizerTools E → World E → String → Text → Option Bool → World E × Option OptimizeResult
  unfolding apply_run propose_run applies read_at
  optimize o w rel_path goal auto_apply = elim (read_at o.coding.workspace (disk_of w) rel_path) [
    | none ↦ (w, some (not_found rel_path))
    | some before ↦
        if applies auto_apply rel_path
        then apply_run o w rel_path goal before
        else propose_run o w rel_path goal before
  ]

-- The counters of the stats file, and how a result changes them.
pub record OptimizerStats : Type 0 where
  pub applied : ℕ
  pub proposed : ℕ
  pub rejected : ℕ
  pub tokens_saved : ℕ

unfoldable pub update_optimizer_stats : OptimizerStats → OptimizeResult → OptimizerStats
update_optimizer_stats stats r =
    if r.applied
    then record stats { applied = stats.applied + 1; tokens_saved = stats.tokens_saved + 600 }
    else if r.proposed
    then record stats { proposed = stats.proposed + 1; tokens_saved = stats.tokens_saved + 600 }
    else record stats { rejected = stats.rejected + 1 }
