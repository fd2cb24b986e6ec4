-- ===== src/Execute/Coding/Verified.antt =====
-- What the coding executor does to the files.
use the_soverign_imperia_cit.Base.{◌≡◌, ◌⊎◌, [], true, false, none, select}
use the_soverign_imperia_cit.Base.Dict.{Dict}
use the_soverign_imperia_cit.Base.Text.{Text}
use the_soverign_imperia_cit.Execute.Blueprint.{Blueprint, ExecutionResult, is_pass}
use the_soverign_imperia_cit.Execute.Coding.{
  World, CodingTools, disk_of, write_files, copy_tree, is_missing, find_condemned,
}

module _ {E : Type 0} where
  -- The files of a change that was applied: no target is missing in it, nothing of it is condemned,
  -- the verifier passed it on a copy of the workspace, and the workspace has it now.
  abbrev pub Applied : CodingTools E → World E → Blueprint → World E → Dict Text → Type 0
  Applied t w b w' files =
      (select (is_missing files) b.allowed_files ≡ [])
      × (find_condemned t.digest w.ledger files ≡ none)
      × ((e : E) × ((t.verify e
              (write_files t.sandbox (copy_tree t.is_ignored w.files, w.elsewhere) files)).1
            ≡ true))
      × (w'.files ≡ (write_files t.workspace (disk_of w) files).0)

  -- Nothing is written elsewhere; a result "pass" comes with an applied change, and any other leaves the
  -- files as they were.
  abbrev pub IsHonest : CodingTools E → World E → Blueprint → World E × ExecutionResult → Type 0
  IsHonest t w b s =
      (s.0.elsewhere ≡ w.elsewhere)
      × (((is_pass s.1 ≡ true) × (files : Dict Text) × Applied t w b s.0 files)
          ⊎ ((is_pass s.1 ≡ false) × (s.0.files ≡ w.files)))
