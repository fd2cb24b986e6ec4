-- ===== src/Examples/Answers.antt =====
-- The answers, the context, the learner and the tools under them at concrete inputs
-- (src/citadel/services/retrieval, tools).
use mathlib.Core.Path.{subst}
use the_soverign_imperia_cit.Base.{
  String, ◌≡◌, refl, List, [], ◌∷◌, true, Option, none, some, arith, eq_iff, str_eq, inl, inr,
  Bool-cases,
}
use the_soverign_imperia_cit.Base.Dict
use the_soverign_imperia_cit.Base.Text.{codes}
use the_soverign_imperia_cit.Retrieval.Answers.{
  Cached, AnswerCache, get, Desk, answer_question, generate_answer,
}
use the_soverign_imperia_cit.Retrieval.Answers.Again.{answer_question-again}
use the_soverign_imperia_cit.Retrieval.Answers.Grounded.{
  IsSound, IsOutcome, answer_question-IsOutcome,
}
use the_soverign_imperia_cit.Retrieval.Answers.Unchanged.{IsFrom}
use the_soverign_imperia_cit.Retrieval.Learner.{Learner}
use the_soverign_imperia_cit.Retrieval.Learner.Tuned.{IsTuned, run, misses, threshold-misses}
use the_soverign_imperia_cit.Tools.Custos.{Patterns}
use the_soverign_imperia_cit.Tools.Oracle
use the_soverign_imperia_cit.Tools.Oracle.Membership

abbrev learner : Learner
learner = record {
  file = none;
  target = 7000;
  min_samples = 2;
  floor = 1500;
  ceil = 9000;
  step = 200;
  queries = 1;
  hits = 1;
  threshold = 5000;
}

learner-IsTuned : IsTuned learner
learner-IsTuned = record { low = omega arith; high = omega arith; counted = omega arith }

threshold-misses_example : (run (misses 20000) learner).threshold ≡ 9000
threshold-misses_example =
    threshold-misses 20000 learner learner-IsTuned (omega arith) (omega arith) (omega arith)

abbrev desk : Desk
desk = record {
  digest_query = λ s. "key";
  str = λ n. codes "1";
  passages = λ q. record { path = "a.py"; start_byte = 0; end_byte = 2; snippet = codes "x" } ∷ [];
  stored_file_hash = λ p. some "full";
  generate = λ prompt. codes "yes";
  oracle = some (λ b. "full");
  files = λ p. some (codes "x\n");
}

abbrev kept : Cached
kept = record {
  answer = codes "no";
  citations = record { path = "a.py"; start_byte = 0; end_byte = 1; file_hash = "full" } ∷ [];
}

abbrev answers : AnswerCache
answers = record { file = none; mem = ("key", kept) ∷ [] }

answers-IsSound : IsSound answers
unfolding get Dict.get
answers-IsSound k hit m = elim (Bool-cases (str_eq "key" k)) [
  | inl e ↦
      let made : kept ≡ hit = ground (arith, m, e) in
      subst (λ h. (stored : String → Option String) × IsFrom stored h.citations) made
        ((λ p. some "full"), (refl, tt))
  | inr e ↦ absurd (ground (arith, m, e))
]

answer_question-IsOutcome_example :
    IsOutcome desk answers (codes "why") (answer_question desk (some answers) (codes "why"))
answer_question-IsOutcome_example =
    answer_question-IsOutcome desk answers (codes "why") answers-IsSound

abbrev forgotten : AnswerCache
forgotten = record { file = none; mem = [] }

answer_question-again_example :
    (c' : AnswerCache) × (answer_question desk (some forgotten) (codes "why")
      ≡ ((generate_answer desk none (codes "why")).0, some c'))
    × (answer_question desk (some c') (codes "why") ≡ (
      record (generate_answer desk none (codes "why")).0 { cached = true; grounded = true },
      some c',
    ))
unfolding get Dict.get Oracle.content_hash
answer_question-again_example =
    answer_question-again desk (λ b. "full") forgotten (codes "why") refl refl refl
      (
        (
          (λ e. ground (arith, e, eq_iff "a.py" "")),
          (λ e. ground (arith, e, eq_iff "full" "")),
          refl,
        ),
        tt,
      )

abbrev patterns : Patterns
patterns = record { masks = []; env = λ s. s }

abbrev ops : List Membership.Op
ops =
    Membership.adding "a"
    ∷ Membership.removing "b"
    ∷ Membership.adding "b"
    ∷ Membership.removing "a"
    ∷ []
