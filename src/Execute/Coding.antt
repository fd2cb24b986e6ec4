-- ===== src/Execute/Coding.antt =====
-- src/citadel/services/execute/coding.py: the local coding executor. The regular expressions, the
-- engine, the verifier and the digest are parameters: the code calls them, and they are not in it.
-- A file is a text. The copy into the sandbox leaves out the paths that the ignore patterns match.
pub mod Targets
pub mod Verified
use the_soverign_imperia_cit.Base.{
  ℕ, String, List, [], ◌∷◌, ◌++◌, map, Bool, true, false, not, ◌⊎◌, inl, inr, take, Option, none,
  some, select, str_eq, length, if◌then◌else◌,
}
use the_soverign_imperia_cit.Base.Dict
use the_soverign_imperia_cit.Base.Dict.{Dict}
use the_soverign_imperia_cit.Base.Sets
use the_soverign_imperia_cit.Base.Text.{Text, codes, strip, join}
use the_soverign_imperia_cit.Execute.Paths.{Disk, write_at, read_at}
use the_soverign_imperia_cit.Execute.Blueprint.{
  Blueprint, ExecutionResult, Status, pass, needs_fix, blocked, error, Reason, RunSpec, no_reason,
  no_target_file, engine_unavailable, exception, incomplete_generation, condemned,
  verification_failed,
}
use the_soverign_imperia_cit.Execute.Verdict.{
  VerdictLedger, pass_verdict, fail_verdict, is_condemned, record_status, backup,
}

-- `re.search` for a fence and `re.findall` for the file blocks, with the groups of each match.
pub record Patterns : Type 0 where
  pub code_fence : Text → Option Text
  pub file_blocks : Text → List (String × Text)

unfoldable pub extract_code : Patterns → Text → Text
unfolding strip
extract_code p text = elim (p.code_fence text) [ none ↦ strip text | some body ↦ strip body ]

-- The comprehension over the blocks, on the dictionary so far.
unfoldable pub tag_files : List String → List (String × Text) → Dict Text → Dict Text
unfolding strip
tag_files allowed [] files = files
tag_files allowed ((path, body) ∷ blocks) files =
    tag_files allowed blocks
      (if Sets.member allowed path then Dict.put files path (strip body) else files)

-- The content of a single target, when there is any.
unfoldable pub sole_file : String → Text → Dict Text
sole_file target [] = []
sole_file target (c ∷ code) = (target, c ∷ code) ∷ []

unfoldable pub extract_files : Patterns → Text → List String → Dict Text
unfolding extract_code tag_files sole_file
extract_files p text targets = elim (tag_files targets (p.file_blocks text) []) [
  | f ∷ fs ↦ f ∷ fs
  | [] ↦ elim targets [ target ∷ [] ↦ sole_file target (extract_code p text) | _ ↦ [] ]
]

-- What the executor changes: its engine, the files of the workspace, those elsewhere, and the ledger, if there
-- is one.
pub record World (E : Type 0) : Type 0 where
  pub engine : E
  pub files : Dict Text
  pub elsewhere : Dict Text
  pub ledger : Option VerdictLedger

-- The engine, the verifier, the paths of the workspace and of the sandbox, and what else the executor holds.
pub record CodingTools (E : Type 0) : Type 0 where
  pub patterns : Patterns
  pub name : String
  pub available : E → E × Bool
  pub generate : E → Text → RunSpec → E × (Text ⊎ Text)
  pub workspace : String
  pub sandbox : String
  pub verify : E → Disk → E × Bool × Text
  pub digest : Text → String
  pub show_int : ℕ → Text
  pub is_ignored : String → Bool
  pub run_spec : RunSpec

-- The loop that writes each file at `root / path`.
unfoldable pub write_files : String → Disk → Dict Text → Disk
unfolding write_at
write_files root d [] = d
write_files root d ((path, content) ∷ files) = write_files root (write_at root d path content) files

-- `shutil.copytree` with the ignore patterns.
unfoldable pub copy_tree : (String → Bool) → Dict Text → Dict Text
copy_tree is_ignored ws = select (λ f. not (is_ignored f.0)) ws

abbrev pub disk_of : {E : Type 0} → World E → Disk
disk_of w = (w.files, w.elsewhere)

-- The verdict on the sandbox, and the files elsewhere, where a path that leads out of it was written.
unfoldable pub apply_and_verify :
    {E : Type 0} → CodingTools E → World E → Dict Text → (E × Bool × Text) × Dict Text
unfolding write_files copy_tree
apply_and_verify t w files =
    let d = write_files t.sandbox (copy_tree t.is_ignored w.files, w.elsewhere) files in
    (t.verify w.engine d, d.1)

-- `not files.get(t)`
unfoldable pub is_missing : Dict Text → String → Bool
is_missing files target = elim (Dict.get files target) [
  | none ↦ true
  | some [] ↦ true
  | some (c ∷ content) ↦ false
]

-- The first path whose content is condemned.
unfoldable pub find_condemned : (Text → String) → Option VerdictLedger → Dict Text → Option String
find_condemned digest none files = none
find_condemned digest (some l) [] = none
find_condemned digest (some l) ((path, content) ∷ files) =
    let rest = find_condemned digest (some l) files in
    if is_condemned l (digest content) then some path else rest

-- Every content gets the verdict FAIL.
unfoldable pub record_failures :
    (Text → String) → Option VerdictLedger → Dict Text → Option VerdictLedger
record_failures digest none files = none
record_failures digest (some l) [] = some l
record_failures digest (some l) ((path, content) ∷ files) =
    record_failures digest (some (record_status l (digest content) fail_verdict)) files

-- The ledger's part of the round of one file: the backup of what was there and the verdict PASS.
unfoldable pub record_applied :
    (Text → String) → Option VerdictLedger → Option Text → Text → Option VerdictLedger
record_applied digest none before content = none
record_applied digest (some l) before content =
    some (record_status (backup digest l before).0 (digest content) pass_verdict)

-- The last loop of `execute`: a backup, the write and the verdict for each file.
unfoldable pub write_back : {E : Type 0} → String → (Text → String) → World E → Dict Text → World E
unfolding record_applied write_at read_at
write_back root digest w [] = w
write_back root digest w ((path, content) ∷ files) =
    write_back root digest
      (record w {
        files = (write_at root (disk_of w) path content).0;
        elsewhere = (write_at root (disk_of w) path content).1;
        ledger = record_applied digest w.ledger (read_at root (disk_of w) path) content;
      })
      files

-- The section of one target in the prompt.
unfoldable pub section_of : String → Disk → String → Text
unfolding read_at
section_of root d target =
    codes "### FILE: " ++ codes target ++ codes "\n" ++ elim (read_at root d target) [
      | none ↦ codes target ++ codes " does not exist yet."
      | some [] ↦ codes target ++ codes " does not exist yet."
      | some (c ∷ existing) ↦ codes "Current content:\n" ++ c ∷ existing
    ]

unfoldable pub context_part : Text → Text
context_part [] = []
context_part (c ∷ context) = (c ∷ context) ++ codes "\n\n"

unfoldable pub build_prompt : String → Disk → Blueprint → List String → Text
unfolding join section_of context_part
build_prompt root d b targets =
    context_part b.context
    ++ codes "Task: "
    ++ b.instruction
    ++ codes "\n\n"
    ++ codes "Files to write: "
    ++ join (codes ", ") (map codes targets)
    ++ codes "\n\n"
    ++ join (codes "\n\n") (map (section_of root d) targets)
    ++ codes "\n\nOutput the complete new content for EACH file, each in this exact form:\n"
    ++ codes "### FILE: <path>\n```\n<full file content>\n```"

abbrev pub local_result : Blueprint → Status → Reason → ExecutionResult
local_result b status reason = record {
  task_id = b.task_id;
  status = status;
  output = [];
  tier_used = "local";
  reason = reason;
}

abbrev pub path_names : Dict Text → List Text
path_names files = map (λ f. codes f.0) files

-- The verified files, or why there is nothing to verify.
unfoldable pub finish :
    {E : Type 0} → CodingTools E → World E → Blueprint → Dict Text → World E × ExecutionResult
unfolding apply_and_verify record_failures write_back
finish t w b files =
    let ((e, ok, detail), elsewhere) = apply_and_verify t w files in
    let after = record w { engine = e; elsewhere = elsewhere } in
    if ok
    then (
      write_back t.workspace t.digest after files,
      record (local_result b pass no_reason) {
        output =
            codes "applied+verified "
            ++ t.show_int (length files)
            ++ codes " file(s): "
            ++ join (codes ", ") (path_names files);
      },
    )
    else (
      record after { ledger = record_failures t.digest w.ledger files },
      local_result b needs_fix (verification_failed (take 200 detail)),
    )

-- What follows the generation: the guards on missing and condemned files.
unfoldable pub check_files :
    {E : Type 0} → CodingTools E → World E → Blueprint → Dict Text → World E × ExecutionResult
unfolding is_missing find_condemned finish
check_files t w b files = elim (select (is_missing files) b.allowed_files) [
  | m ∷ ms ↦ (w, local_result b needs_fix (incomplete_generation (m ∷ ms)))
  | [] ↦ elim (find_condemned t.digest w.ledger files) [
    | some path ↦ (w, local_result b blocked (condemned path))
    | none ↦ finish t w b files
  ]
]

unfoldable pub generate_files :
    {E : Type 0} → CodingTools E → World E → Blueprint → World E × ExecutionResult
unfolding build_prompt extract_files check_files
generate_files t w b =
    let (e, raw) =
      t.generate w.engine (build_prompt t.workspace (disk_of w) b b.allowed_files) t.run_spec in
    elim raw [
      | inl exc ↦ (record w { engine = e }, local_result b error (exception exc))
      | inr text ↦
          check_files t (record w { engine = e }) b (extract_files t.patterns text b.allowed_files)
    ]

-- `not targets`
unfoldable pub is_empty : List String → Bool
is_empty [] = true
is_empty (target ∷ targets) = false

unfoldable pub execute :
    {E : Type 0} → CodingTools E → World E → Blueprint → World E × ExecutionResult
unfolding generate_files is_empty
execute t w b =
    if is_empty b.allowed_files
    then (w, local_result b blocked no_target_file)
    else let (e, ok) = t.available w.engine in
      let w' : World _ = record w { engine = e } in
      if ok then generate_files t w' b else (w', local_result b blocked (engine_unavailable t.name))
