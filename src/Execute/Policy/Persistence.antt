-- ===== src/Execute/Policy/Persistence.antt =====
-- What is recorded survives a restart.
use the_soverign_imperia_cit.Base.{ℕ, String, ◌≡◌, refl, sym, ap, ◌∙◌, List, [], ◌∷◌, ◌++◌, some}
use the_soverign_imperia_cit.Base.Dict.{Dict}
use the_soverign_imperia_cit.Execute.Blueprint.{Status}
use the_soverign_imperia_cit.Execute.Policy.{
  Line, blank, broken, entry, LocalConfidence, load_lines, init, record_outcome,
}

-- Every line is JSON or blank.
abbrev pub IsWhole : List Line → Type 0
IsWhole [] = Unit
IsWhole (broken ∷ lines) = ⊥
IsWhole (blank ∷ lines) = IsWhole lines
IsWhole (entry i t s ∷ lines) = IsWhole lines

load_lines-append :
    (lines : List Line) (l : Line) (stats : Dict (ℕ × ℕ))
    → IsWhole lines
    → load_lines (lines ++ l ∷ []) stats ≡ load_lines (l ∷ []) (load_lines lines stats)
unfolding load_lines
load_lines-append [] l stats w = refl
load_lines-append (broken ∷ lines) l stats w = absurd w
load_lines-append (blank ∷ lines) l stats w = load_lines-append lines l stats w
load_lines-append (entry i t s ∷ lines) l stats w = load_lines-append lines l _ w

IsWhole-append :
    (lines : List Line) (l : Line) → IsWhole lines → IsWhole (l ∷ []) → IsWhole (lines ++ l ∷ [])
IsWhole-append [] l w h = h
IsWhole-append (broken ∷ lines) l w h = w
IsWhole-append (blank ∷ lines) l w h = IsWhole-append lines l w h
IsWhole-append (entry i t s ∷ lines) l w h = IsWhole-append lines l w h

-- One call of `record`.
pub record Outcome : Type 0 where
  pub intent : String
  pub tier : String
  pub status : Status

unfoldable pub run : LocalConfidence → List Outcome → LocalConfidence
run c [] = c
run c (o ∷ os) = run (record_outcome c o.intent o.tier o.status) os

one :
    (lines : List Line) (n : ℕ) (o : Outcome)
    → IsWhole lines
    → record_outcome (init (some lines) n) o.intent o.tier o.status
      ≡ init (some (lines ++ entry (some o.intent) (some o.tier) (some o.status) ∷ [])) n
unfolding record_outcome init
one lines n o w =
    ap
      (λ (d : Dict (ℕ × ℕ)). record {
        file = some (lines ++ entry (some o.intent) (some o.tier) (some o.status) ∷ []);
        min_attempts = n;
        stats = d;
      })
      (sym (load_lines-append lines (entry (some o.intent) (some o.tier) (some o.status)) [] w))

run_from :
    (lines : List Line) (min_attempts : ℕ) (os : List Outcome)
    → IsWhole lines
    → (after : List Line) × IsWhole after
      × (run (init (some lines) min_attempts) os ≡ init (some after) min_attempts)
unfolding run
run_from lines n [] w = (lines, w, refl)
run_from lines n (o ∷ os) w =
    let l = entry (some o.intent) (some o.tier) (some o.status) in
    let (after, w', e) = run_from (lines ++ l ∷ []) n os (IsWhole-append lines l w tt) in
    (after, w', ap (λ c. run c os) (one lines n o w) ∙ e)

reread : (lines : List Line) (n : ℕ) → init (init (some lines) n).file n ≡ init (some lines) n
unfolding init
reread lines n = refl

-- From a file without broken lines, whatever outcomes are recorded, a new process that reads the
-- file that is left has the same statistics.
pub init-run :
    (lines : List Line) (min_attempts : ℕ) (os : List Outcome)
    → IsWhole lines
    → init (run (init (some lines) min_attempts) os).file min_attempts
      ≡ run (init (some lines) min_attempts) os
init-run lines n os w =
    let (after, w', e) = run_from lines n os w in ap (λ c. init c.file n) e ∙ reread after n ∙ sym e
