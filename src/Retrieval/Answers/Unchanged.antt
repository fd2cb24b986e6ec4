-- ===== src/Retrieval/Answers/Unchanged.antt =====
-- When the citations of an answer are fresh.
use mathlib.Core.Path.{subst}
use the_soverign_imperia_cit.Base.{
  String, ◌≡◌, refl, sym, ap, ◌∙◌, inl, inr, List, [], ◌∷◌, Bool, true, false, ◌&&◌, ◌||◌, Option,
  none, some, arith, str_eq, eq_iff, All, Bool-cases, Option-cases, if◌then◌else◌,
}
use the_soverign_imperia_cit.Base.Dict
use the_soverign_imperia_cit.Base.Dict.{Dict, get-put, get-remove}
use the_soverign_imperia_cit.Base.Text.{Text}
use the_soverign_imperia_cit.Retrieval.Answers.{
  Citation, Files, verdict, all_fresh, citations_fresh, or_empty,
}
use the_soverign_imperia_cit.Tools.Oracle

-- The citations tell one hash for each path, as those made from the store do.
abbrev pub IsFrom : (String → Option String) → List Citation → Type 0
IsFrom stored cs = All (λ c. c.file_hash ≡ or_empty (stored c.path)) cs

-- Each citation on its own.
abbrev pub is_current : (Text → String) → Files → Citation → Bool
is_current digest files c =
    if str_eq c.path "" || str_eq c.file_hash ""
    then false
    else Oracle.is_fresh digest (files c.path) c.file_hash

abbrev pub every : (Text → String) → Files → List Citation → Bool
every digest files [] = true
every digest files (c ∷ cs) = is_current digest files c && every digest files cs

-- What the loop has checked is what checking again would give.
abbrev pub IsChecked : (Text → String) → Files → (String → Option String) → Dict Bool → Type 0
IsChecked digest files stored checked =
    (p : String) (b : Bool)
    → Dict.get checked p ≡ some b
    → b ≡ Oracle.is_fresh digest (files p) (or_empty (stored p))

verdict-IsChecked :
    (digest : Text → String) (files : Files) (stored : String → Option String) (checked : Dict Bool)
    (c : Citation)
    → IsChecked digest files stored checked
    → c.file_hash ≡ or_empty (stored c.path)
    → verdict digest files checked c ≡ Oracle.is_fresh digest (files c.path) c.file_hash
verdict-IsChecked digest files stored checked c h e =
    elim (Option-cases (Dict.get checked c.path)) [
      | inl m ↦ rw (verdict, m) refl
      | inr (b, m) ↦
          rw (verdict, m) (h c.path b m ∙ ap (Oracle.is_fresh digest (files c.path)) (sym e))
    ]

put-IsChecked :
    (digest : Text → String) (files : Files) (stored : String → Option String) (checked : Dict Bool)
    (path : String) (b : Bool)
    → IsChecked digest files stored checked
    → b ≡ Oracle.is_fresh digest (files path) (or_empty (stored path))
    → IsChecked digest files stored (Dict.put checked path b)
put-IsChecked digest files stored checked path b h e p d m = elim (Bool-cases (str_eq path p)) [
  | inl s ↦
      let same : path ≡ p = ground (arith, s, eq_iff path p) in
      let d_b : d ≡ b = ground (arith, get-put checked path p b, m, s) in
      subst (λ q. d ≡ Oracle.is_fresh digest (files q) (or_empty (stored q))) same (d_b ∙ e)
  | inr s ↦ h p d (ground (arith, get-put checked path p b, m, s))
]

pub all_fresh-every :
    (digest : Text → String) (files : Files) (stored : String → Option String) (checked : Dict Bool)
    (cs : List Citation)
    → IsChecked digest files stored checked
    → IsFrom stored cs
    → all_fresh digest files checked cs ≡ every digest files cs
unfolding all_fresh
all_fresh-every digest files stored checked [] h f = refl
all_fresh-every digest files stored checked (c ∷ cs) h (e, f) =
    let v = verdict-IsChecked digest files stored checked c h e in
    let rest =
      all_fresh-every digest files stored (Dict.put checked c.path (verdict digest files checked c))
        cs
        (put-IsChecked digest files stored checked c.path (verdict digest files checked c) h
          (v ∙ ap (Oracle.is_fresh digest (files c.path)) e))
        f in
    rw (rest, v) (ground arith)

-- The file of the citation has the content that it had when it was cited.
abbrev pub IsUnchanged : (Text → String) → Files → Citation → Type 0
IsUnchanged digest files c = Oracle.content_hash digest (files c.path) ≡ c.file_hash

is_current-IsUnchanged :
    (digest : Text → String) (files : Files) (c : Citation)
    → is_current digest files c ≡ true
    → IsUnchanged digest files c
unfolding Oracle.is_fresh
is_current-IsUnchanged digest files c h =
    ground (arith, h, eq_iff (Oracle.content_hash digest (files c.path)) c.file_hash)

every-IsUnchanged :
    (digest : Text → String) (files : Files) (cs : List Citation)
    → every digest files cs ≡ true
    → All (IsUnchanged digest files) cs
every-IsUnchanged digest files [] h = tt
every-IsUnchanged digest files (c ∷ cs) h = (
  is_current-IsUnchanged digest files c (ground (arith, h)),
  every-IsUnchanged digest files cs (ground (arith, h)),
)

pub citations_fresh-IsUnchanged :
    (oracle : Option (Text → String)) (files : Files) (stored : String → Option String)
    (cs : List Citation)
    → IsFrom stored cs
    → citations_fresh oracle files cs ≡ true
    → (digest : Text → String) × (oracle ≡ some digest) × All (IsUnchanged digest files) cs
unfolding citations_fresh Dict.get
citations_fresh-IsUnchanged none files stored cs f h = absurd (ground (arith, h))
citations_fresh-IsUnchanged (some digest) files stored cs f h = (
  digest,
  refl,
  every-IsUnchanged digest files cs
      (sym (all_fresh-every digest files stored [] cs (λ p b m. absurd (ground (arith, m))) f) ∙ h),
)
