-- ===== src/Execute/Paths.antt =====
-- What src/citadel/services/execute/coding.py and optimizer.py take from pathlib: `root / path`, and where
-- a write to it ends up. The files of the root's tree are a dictionary from their paths below it, those
-- elsewhere one from the joined path. A path that is absolute, or has a part `..`, is taken to lead elsewhere,
-- also when it leads back; of the others two spellings are two files.
use the_soverign_imperia_cit.Base.{
  String, List, [], ◌∷◌, ◌++◌, Bool, not, ◌&&◌, Option, any, if◌then◌else◌, ◌==◌,
}
use the_soverign_imperia_cit.Base.Dict
use the_soverign_imperia_cit.Base.Dict.{Dict}
use the_soverign_imperia_cit.Base.Text.{Text, codes, starts_with, same, append}

-- The parts between slashes, after the letters of the part that is being read.
unfoldable pub parts_from : Text → Text → List Text
parts_from part [] = part ∷ []
parts_from part (c ∷ s) =
    let inside = parts_from (part ++ c ∷ []) s in
    let after = part ∷ parts_from [] s in if c == b'/' then after else inside

unfoldable pub is_absolute : String → Bool
unfolding starts_with
is_absolute path = starts_with (codes "/") (codes path)

-- Relative and without `..`, so that it stays below every root.
unfoldable pub is_plain : String → Bool
unfolding is_absolute parts_from same
is_plain path = not (is_absolute path) && not (any (same (codes "..")) (parts_from [] (codes path)))

-- `root / path`
unfoldable pub joined : String → String → String
unfolding is_absolute append
joined root path = if is_absolute path then path else append root (append "/" path)

-- The tree of a root, and the files elsewhere.
abbrev pub Disk : Type 0
Disk = Dict Text × Dict Text

-- `(root / path).write_text(content)`
unfoldable pub write_at : String → Disk → String → Text → Disk
unfolding is_plain joined
write_at root d path content =
    if is_plain path
    then (Dict.put d.0 path content, d.1)
    else (d.0, Dict.put d.1 (joined root path) content)

-- The content of `root / path`, when it is a file.
unfoldable pub read_at : String → Disk → String → Option Text
unfolding is_plain joined
read_at root d path = if is_plain path then Dict.get d.0 path else Dict.get d.1 (joined root path)
