-- ===== src/Execute/Optimizer/Ownership.antt =====
-- What the optimizer may do to the workspace.
use the_soverign_imperia_cit.Base.{String, ◌≡◌, ◌⊎◌, ◌++◌, map, Bool, true, Option, none, some}
use the_soverign_imperia_cit.Base.Dict.{Dict}
use the_soverign_imperia_cit.Base.Text.{Text, codes}
use the_soverign_imperia_cit.Execute.Coding.{World, CodingTools, copy_tree}
use the_soverign_imperia_cit.Execute.Coding.Verified.{Applied}
use the_soverign_imperia_cit.Execute.Optimizer.{OptimizerTools, slash, blueprint_for, coding_for}

-- The path, with its backslashes as slashes, starts with the directory.
abbrev pub IsBelow : String → String → Type 0
IsBelow directory rel_path = (rest : Text) × (map slash (codes rel_path) ≡ codes directory ++ rest)

-- The caller says so, or says nothing and the file is the program's own code.
abbrev pub MayApply : Option Bool → String → Type 0
MayApply (some auto_apply) rel_path = auto_apply ≡ true
MayApply none rel_path = IsBelow "src/citadel/" rel_path ⊎ IsBelow "tools/" rel_path

module _ {E : Type 0} where
  module _ (o : OptimizerTools E) (w : World E) (rel_path : String) (goal : Text) where
    -- Nothing was written elsewhere, and the workspace is as it was, or it may be changed and has an applied
    -- change.
    abbrev pub IsOwned : Option Bool → World E → Type 0
    IsOwned auto_apply w' =
        (w'.elsewhere ≡ w.elsewhere)
        × ((w'.files ≡ w.files)
            ⊎ (MayApply auto_apply rel_path
                × (files : Dict Text) × Applied (coding_for o rel_path) w
                    (blueprint_for rel_path goal) w' files))

    copied : World E
    copied = record w { files = copy_tree o.coding.is_ignored w.files }

    copy_tools : CodingTools E
    copy_tools = record (coding_for o rel_path) { workspace = o.copy_root }
