-- ===== src/Execute/Coding/Targets.antt =====
-- The targets of the coding executor and the paths that it writes (src/citadel/services/execute/coding.py).
use mathlib.Core.Path.{subst}
use the_soverign_imperia_cit.Base.{
  String, ◌≡◌, refl, sym, ap, ◌∙◌, inl, inr, List, [], ◌∷◌, true, Bool-cases, All, arith, str_eq,
  eq_iff,
}
use the_soverign_imperia_cit.Base.Dict
use the_soverign_imperia_cit.Base.Dict.{Dict}
use the_soverign_imperia_cit.Base.Sets
use the_soverign_imperia_cit.Base.Text.{Text, strip}
use the_soverign_imperia_cit.Execute.Paths.{Disk, is_plain, write_at}
use the_soverign_imperia_cit.Execute.Coding.{
  Patterns, extract_code, tag_files, sole_file, extract_files, write_files,
}

-- The paths of a dictionary are among the targets.
abbrev pub AreTargets : List String → Dict Text → Type 0
AreTargets targets files = All (λ f. Sets.member targets f.0 ≡ true) files

put-AreTargets :
    (targets : List String) (files : Dict Text) (path : String) (content : Text)
    → Sets.member targets path ≡ true
    → AreTargets targets files
    → AreTargets targets (Dict.put files path content)
unfolding Dict.put
put-AreTargets targets [] path content m a = (m, tt)
put-AreTargets targets ((j, v) ∷ files) path content m a = elim (Bool-cases (str_eq j path)) [
  | inl e ↦ rw e a
  | inr e ↦ rw e (a.0, put-AreTargets targets files path content m a.1)
]

tag_files-AreTargets :
    (targets : List String) (blocks : List (String × Text)) (files : Dict Text)
    → AreTargets targets files
    → AreTargets targets (tag_files targets blocks files)
unfolding tag_files
tag_files-AreTargets targets [] files a = a
tag_files-AreTargets targets ((path, body) ∷ blocks) files a =
    elim (Bool-cases (Sets.member targets path)) [
      | inl e ↦ rw e (
          tag_files-AreTargets targets blocks (Dict.put files path (strip body))
            (put-AreTargets targets files path (strip body) e a))
      | inr e ↦ rw e (tag_files-AreTargets targets blocks files a)
    ]

sole_file-AreTargets :
    (target : String) (code : Text) → AreTargets (target ∷ []) (sole_file target code)
unfolding sole_file Sets.member
sole_file-AreTargets target [] = tt
sole_file-AreTargets target (c ∷ code) = (ground (arith, eq_iff target target), tt)

pub extract_files-AreTargets :
    (p : Patterns) (text : Text) (targets : List String)
    → AreTargets targets (extract_files p text targets)
unfolding extract_files
extract_files-AreTargets p text targets =
    go (tag_files targets (p.file_blocks text) []) refl targets refl
  where
    go :
        (files : Dict Text)
        → tag_files targets (p.file_blocks text) [] ≡ files
        → (ts : List String) → targets ≡ ts
        → AreTargets targets (extract_files p text targets)
    go (f ∷ fs) e ts et =
        rw (e, extract_files)
          (subst (AreTargets targets) e (tag_files-AreTargets targets (p.file_blocks text) [] tt))
    go [] e [] et = rw (e, et, extract_files) tt
    go [] e (target ∷ []) et =
        rw (e, et, extract_files) (sole_file-AreTargets target (extract_code p text))
    go [] e (target ∷ u ∷ ts) et = rw (e, et, extract_files) tt

abbrev pub ArePlain : List String → Type 0
ArePlain targets = All (λ path. is_plain path ≡ true) targets

member-is_plain :
    (targets : List String) (path : String)
    → ArePlain targets
    → Sets.member targets path ≡ true
    → is_plain path ≡ true
unfolding Sets.member
member-is_plain [] path a m = absurd (ground (arith, m))
member-is_plain (t ∷ targets) path a m = elim (Bool-cases (str_eq t path)) [
  | inl e ↦ ap is_plain (sym ((eq_iff t path).0 e)) ∙ a.0
  | inr e ↦ member-is_plain targets path a.1 (ground (arith, m, e))
]

-- Plain paths leave what is elsewhere alone.
pub write_files-elsewhere :
    (targets : List String) (root : String) (d : Disk) (files : Dict Text)
    → ArePlain targets
    → AreTargets targets files
    → (write_files root d files).1 ≡ d.1
unfolding write_files write_at
write_files-elsewhere targets root d [] plain a = refl
write_files-elsewhere targets root d ((path, content) ∷ files) plain a =
    write_files-elsewhere targets root (write_at root d path content) files plain a.1
    ∙ rw (member-is_plain targets path plain a.0) refl
