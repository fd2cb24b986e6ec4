-- ===== src/Execute/Policy/History.antt =====
-- The confidence from the history of outcomes.
use the_soverign_imperia_cit.Base.{
  ℕ, ◌+◌, String, ◌≡◌, refl, ap, List, [], ◌∷◌, Bool, ◌&&◌, Option, none, some, ltb, ◌==◌, str_eq,
  select, length, arith, eq_iff, if◌then◌else◌,
}
use the_soverign_imperia_cit.Base.Dict
use the_soverign_imperia_cit.Base.Dict.{Dict}
use the_soverign_imperia_cit.Execute.Blueprint.{Status}
use the_soverign_imperia_cit.Execute.Policy.{
  Line, Ratio, LocalConfidence, or_zeros, is_pass, count, init, record_outcome, confidence,
  load_lines,
}
use the_soverign_imperia_cit.Execute.Policy.Persistence.{Outcome, run}

-- The local runs of an intent, and those that passed.
abbrev pub is_run_of : String → Outcome → Bool
is_run_of intent o = str_eq o.tier "local" && str_eq o.intent intent

abbrev pub attempts : String → List Outcome → ℕ
attempts intent os = length (select (is_run_of intent) os)

abbrev pub passes : String → List Outcome → ℕ
passes intent os = length (select (λ o. is_run_of intent o && is_pass (some o.status)) os)

zeros-count :
    (stats : Dict (ℕ × ℕ)) (i j : String) (s : Option Status)
    → or_zeros (Dict.get (count stats i s) j) ≡ (
        if str_eq i j
        then (
          (if is_pass s
              then (or_zeros (Dict.get stats j)).0 + 1
              else (or_zeros (Dict.get stats j)).0),
          (or_zeros (Dict.get stats j)).1 + 1,
        )
        else or_zeros (Dict.get stats j))
unfolding count
zeros-count stats i j s = ground (
  arith,
  eq_iff i j,
  Dict.get-put stats i j (
    (if is_pass s then (or_zeros (Dict.get stats i)).0 + 1 else (or_zeros (Dict.get stats i)).0),
    (or_zeros (Dict.get stats i)).1 + 1,
  ),
)

-- The numbers of an intent grow by those of the history.
stats-run :
    (c : LocalConfidence) (os : List Outcome) (i : String)
    → ((or_zeros (Dict.get (run c os).stats i)).0 ≡ (or_zeros (Dict.get c.stats i)).0 + passes i os)
      × ((or_zeros (Dict.get (run c os).stats i)).1
          ≡ (or_zeros (Dict.get c.stats i)).1 + attempts i os)
unfolding run record_outcome
stats-run c [] i = ground arith
stats-run c (o ∷ os) i = ground (
  arith,
  stats-run (record_outcome c o.intent o.tier o.status) os i,
  zeros-count c.stats o.intent i (some o.status),
)

min_attempts-run :
    (c : LocalConfidence) (os : List Outcome) → (run c os).min_attempts ≡ c.min_attempts
unfolding run record_outcome
min_attempts-run c [] = refl
min_attempts-run c (o ∷ os) = min_attempts-run (record_outcome c o.intent o.tier o.status) os

-- No file, or a file without lines.
abbrev pub IsFresh : Option (List Line) → Type 0
IsFresh none = Unit
IsFresh (some []) = Unit
IsFresh (some (l ∷ lines)) = ⊥

init_fresh :
    (file : Option (List Line)) (n : ℕ)
    → IsFresh file
    → ((init file n).stats ≡ []) × ((init file n).min_attempts ≡ n)
unfolding init load_lines
init_fresh none n h = (refl, refl)
init_fresh (some []) n h = (refl, refl)
init_fresh (some (l ∷ lines)) n h = absurd h

fresh_numbers :
    (file : Option (List Line)) (n : ℕ) (os : List Outcome) (i : String)
    → IsFresh file
    → ((or_zeros (Dict.get (run (init file n) os).stats i)).0 ≡ passes i os)
      × ((or_zeros (Dict.get (run (init file n) os).stats i)).1 ≡ attempts i os)
unfolding Dict.get
fresh_numbers file n os i h =
    let (p, a) = stats-run (init file n) os i in
    let e = ap (λ stats. or_zeros (Dict.get stats i)) (init_fresh file n h).0 in
    (omega (arith, p, ap (λ r. r.0) e), omega (arith, a, ap (λ r. r.1) e))

-- The confidence after any history of outcomes, from an object with no file or an empty one: the
-- prior while the local runs of the intent are fewer than `min_attempts`, and then the share of
-- those that passed; with `min_attempts` 0 and no run it is a division by zero.
pub confidence-run :
    (file : Option (List Line)) (min_attempts : ℕ) (os : List Outcome) (intent : String)
    (prior : Ratio)
    → IsFresh file
    → confidence (run (init file min_attempts) os) intent prior ≡ (
        if ltb (attempts intent os) min_attempts
        then some prior
        else if attempts intent os == 0
        then none
        else some (record { num = passes intent os; den = attempts intent os }))
unfolding confidence
confidence-run file n os i prior h =
    rw
      (
        min_attempts-run (init file n) os,
        (fresh_numbers file n os i h).0,
        (fresh_numbers file n os i h).1,
        (init_fresh file n h).1,
      )
      refl
