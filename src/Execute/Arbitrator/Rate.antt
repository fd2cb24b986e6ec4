-- ===== src/Execute/Arbitrator/Rate.antt =====
-- How many calls are admitted in an hour.
use the_soverign_imperia_cit.Base.{
  ℕ, ◌≤◌, ◌<◌, ◌≡◌, refl, sym, ap, ◌∙◌, List, [], ◌∷◌, ◌++◌, Bool, true, ◌↔◌, Bool-cases, inl, inr,
  ltb, leb, select, length, length-append, length-select-le, arith, if◌then◌else◌,
}
use the_soverign_imperia_cit.Execute.Blueprint.{Blueprint}
use the_soverign_imperia_cit.Execute.Arbitrator.{
  ResourceArbitrator, new_arbitrator, is_recent, prune, context_tokens, arbitrate,
}

-- Calls at the times of a clock, with the log of the times of the admitted ones.
unfoldable pub arbitrate_all :
    ResourceArbitrator → List ℕ → List (ℕ × Blueprint) → ResourceArbitrator × List ℕ
unfolding arbitrate
arbitrate_all a log [] = (a, log)
arbitrate_all a log ((now, b) ∷ calls) =
    let (a', d) = arbitrate a now b in
    arbitrate_all a' (if d.admit then log ++ now ∷ [] else log) calls

-- The clock does not go back.
abbrev pub IsAfter : ℕ → List (ℕ × Blueprint) → Type 0
IsAfter last [] = Unit
IsAfter last ((now, b) ∷ calls) = (last ≤ now) × IsAfter now calls

abbrev pub last_time : ℕ → List (ℕ × Blueprint) → ℕ
last_time last [] = last
last_time last ((now, b) ∷ calls) = last_time now calls

select-append : (p : ℕ → Bool) (xs ys : List ℕ) → select p (xs ++ ys) ≡ select p xs ++ select p ys
select-append p [] ys = refl
select-append p (x ∷ xs) ys = elim (Bool-cases (p x)) [
  | inl e ↦ rw (e, select-append p xs ys) refl
  | inr e ↦ rw (e, select-append p xs ys) refl
]

-- A later window of an earlier window is the later window.
select-later :
    (last now : ℕ) (xs : List ℕ)
    → last ≤ now
    → select (is_recent now) (select (is_recent last) xs) ≡ select (is_recent now) xs
select-later last now [] h = refl
select-later last now (x ∷ xs) h = ground (arith, select-later last now xs h)

-- The arbitrator remembers the admitted calls of the last hour, and they are within the limit.
pub record Remembers (a : ResourceArbitrator) (log : List ℕ) (last : ℕ) : Type 0 where
  pub same_window :
      (now : ℕ) → last ≤ now → select (is_recent now) a.calls ≡ select (is_recent now) log
  pub within : length a.calls ≤ a.max_calls

-- The log after a call.
abbrev pub logged : List ℕ → ℕ → Bool → List ℕ
logged log now admit = if admit then log ++ now ∷ [] else log

module _ (a : ResourceArbitrator) (log : List ℕ) (last now : ℕ) (m : Remembers a log last)
    (h : last ≤ now) where
  pruned-Remembers : Remembers (prune a now) log now
  unfolding prune
  pruned-Remembers = record {
    same_window = λ w hw. select-later now w a.calls hw ∙ m.same_window w (omega arith);
    within = omega (arith, length-select-le (is_recent now) a.calls, m.within);
  }

  admitted-Remembers :
      length (prune a now).calls < a.max_calls
      → Remembers
          (record (prune a now) { calls = (prune a now).calls ++ now ∷ [] })
          (log ++ now ∷ [])
          now
  unfolding prune
  admitted-Remembers l = record {
    same_window = λ w hw.
        select-append (is_recent w) (select (is_recent now) a.calls) (now ∷ [])
        ∙ ap (λ xs. xs ++ select (is_recent w) (now ∷ [])) (pruned-Remembers.same_window w hw)
        ∙ sym (select-append (is_recent w) log (now ∷ []));
    within = omega (arith, length-append (select (is_recent now) a.calls) (now ∷ []), l);
  }

  step-Remembers :
      (b : Blueprint)
      → Remembers (arbitrate a now b).0 (logged log now (arbitrate a now b).1.admit) now
  unfolding arbitrate
  step-Remembers b = elim (Bool-cases (ltb b.context_token_budget (context_tokens b))) [
    | inl e ↦
        rw e (record { same_window = λ w hw. m.same_window w (omega arith); within = m.within })
    | inr e ↦ rw e (elim (Bool-cases (leb a.max_calls (length (prune a now).calls))) [
      | inl f ↦ rw f pruned-Remembers
      | inr f ↦ rw f (admitted-Remembers (ground arith))
    ])
  ]

max_calls-arbitrate :
    (a : ResourceArbitrator) (now : ℕ) (b : Blueprint)
    → (arbitrate a now b).0.max_calls ≡ a.max_calls
unfolding arbitrate prune
max_calls-arbitrate a now b = ground arith

all-Remembers :
    (a : ResourceArbitrator) (log : List ℕ) (last : ℕ) (calls : List (ℕ × Blueprint))
    → Remembers a log last
    → IsAfter last calls
    → let (a', log') = arbitrate_all a log calls in
      Remembers a' log' (last_time last calls) × (a'.max_calls ≡ a.max_calls)
unfolding arbitrate_all
all-Remembers a log last [] m h = (m, refl)
all-Remembers a log last ((now, b) ∷ calls) m h =
    let (r, e) =
      all-Remembers (arbitrate a now b).0 (logged log now (arbitrate a now b).1.admit) now calls
        (step-Remembers a log last now m h.0 b) h.1 in
    (r, e ∙ max_calls-arbitrate a now b)

new-Remembers : (n last : ℕ) → Remembers (new_arbitrator n) [] last
new-Remembers n last = record { same_window = λ now h. refl; within = omega arith }

-- Whatever blueprints come, at times that do not go back, at most `max_calls_per_hour` of them have
-- been admitted in the hour before the last call.
pub admitted_within :
    (max_calls_per_hour start : ℕ) (calls : List (ℕ × Blueprint))
    → IsAfter start calls
    → length (
        select
          (is_recent (last_time start calls))
          (arbitrate_all (new_arbitrator max_calls_per_hour) [] calls).1)
      ≤ max_calls_per_hour
admitted_within n start calls h =
    let (m, e) = all-Remembers (new_arbitrator n) [] start calls (new-Remembers n start) h in
    let a = (arbitrate_all (new_arbitrator n) [] calls).0 in
    let now = last_time start calls in
    omega (
      arith,
      e,
      m.within,
      length-select-le (is_recent now) a.calls,
      ap (λ xs. length xs) (m.same_window now (omega arith)),
    )

admit-arbitrate_iff :
    (a : ResourceArbitrator) (now : ℕ) (b : Blueprint)
    → ((arbitrate a now b).1.admit ≡ true) ↔ (
        (context_tokens b ≤ b.context_token_budget)
        × (length (select (is_recent now) a.calls) < a.max_calls))
unfolding arbitrate prune
admit-arbitrate_iff a now b = ground arith

-- After any calls at times that do not go back, a further call is admitted exactly when its context
-- fits the budget and fewer than `max_calls_per_hour` calls were admitted in the hour before it.
pub admitted_iff :
    (max_calls_per_hour start now : ℕ) (calls : List (ℕ × Blueprint)) (b : Blueprint)
    → IsAfter start calls
    → last_time start calls ≤ now
    → let (a, log) = arbitrate_all (new_arbitrator max_calls_per_hour) [] calls in
      ((arbitrate a now b).1.admit ≡ true) ↔ (
        (context_tokens b ≤ b.context_token_budget)
        × (length (select (is_recent now) log) < max_calls_per_hour))
admitted_iff n start now calls b h l =
    let (m, e) = all-Remembers (new_arbitrator n) [] start calls (new-Remembers n start) h in
    let a = (arbitrate_all (new_arbitrator n) [] calls).0 in
    ground (arith, admit-arbitrate_iff a now b, e, ap (λ xs. length xs) (m.same_window now l))
