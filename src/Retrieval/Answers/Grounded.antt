-- ===== src/Retrieval/Answers/Grounded.antt =====
-- When an answer is served from the cache.
use mathlib.Core.Path.{subst}
use the_soverign_imperia_cit.Base.{
  String, ◌≡◌, refl, sym, ◌⊎◌, inl, inr, List, [], ◌∷◌, false, not, ◌&&◌, Option, none, some, map,
  arith, str_eq, eq_iff, All, Bool-cases, Option-cases, if◌then◌else◌,
}
use the_soverign_imperia_cit.Base.Dict
use the_soverign_imperia_cit.Base.Dict.{Dict, get-put, get-remove}
use the_soverign_imperia_cit.Base.Text.{Text}
use the_soverign_imperia_cit.Retrieval.Answers.{
  Citation, Cached, AnswerCache, get, put, invalidate, citations_fresh, Passage, Desk, Answer, cite,
  all_hashed, is_nil, generate_answer, served, answer_question, make_query_key,
}
use the_soverign_imperia_cit.Retrieval.Answers.Unchanged.{
  IsFrom, IsUnchanged, citations_fresh-IsUnchanged,
}

-- Each cached answer cites one hash for each path.
abbrev pub IsSound : AnswerCache → Type 0
IsSound c =
    (key : String) (hit : Cached)
    → get c key ≡ some hit
    → (stored : String → Option String) × IsFrom stored hit.citations

pub map-cite-IsFrom :
    (stored : String → Option String) (ps : List Passage) → IsFrom stored (map (cite stored) ps)
map-cite-IsFrom stored [] = tt
map-cite-IsFrom stored (p ∷ ps) = (refl, map-cite-IsFrom stored ps)

put-IsSound :
    (c : AnswerCache) (key : String) (answer : Text) (cs : List Citation)
    (stored : String → Option String)
    → IsSound c
    → IsFrom stored cs
    → IsSound (put c key answer cs)
unfolding get put
put-IsSound c key answer cs stored h f k hit m = elim (Bool-cases (str_eq key k)) [
  | inl s ↦
      let made : Cached = record { answer = answer; citations = cs } in
      let e : made ≡ hit = ground (arith, get-put c.mem key k made, m, s) in
      subst (λ x. (g : String → Option String) × IsFrom g x.citations) e (stored, f)
  | inr s ↦
      h k hit
        (ground (arith, get-put c.mem key k (record { answer = answer; citations = cs }), m, s))
]

get-invalidate :
    (c : AnswerCache) (key k : String)
    → get (invalidate c key) k ≡ (if str_eq key k then none else get c k)
unfolding get invalidate
get-invalidate c key k = elim (Option-cases (Dict.get c.mem key)) [
  | inl e ↦ rw (invalidate, e) (ground (arith, eq_iff key k, e))
  | inr (a, e) ↦ rw (invalidate, e) (get-remove c.mem key k)
]

invalidate-IsSound : (c : AnswerCache) (key : String) → IsSound c → IsSound (invalidate c key)
invalidate-IsSound c key h k hit m = h k hit (ground (arith, get-invalidate c key k, m))

abbrev IsSoundOr : Option AnswerCache → Type 0
IsSoundOr none = Unit
IsSoundOr (some c) = IsSound c

generate_answer-IsSound :
    (desk : Desk) (c : AnswerCache) (question : Text)
    → IsSound c
    → (c' : AnswerCache) × ((generate_answer desk (some c) question).1 ≡ some c') × IsSound c'
unfolding generate_answer
generate_answer-IsSound desk c question h =
    let cs = map (cite desk.stored_file_hash) (desk.passages question) in
    elim (Bool-cases (not (is_nil cs) && all_hashed cs)) [
      | inl e ↦ rw e (
        _,
        refl,
        put-IsSound c _ _ cs desk.stored_file_hash h
            (map-cite-IsFrom desk.stored_file_hash (desk.passages question)),
      )
      | inr e ↦ rw e (c, refl, h)
    ]

-- An answer is the cached one with all its cited files unchanged, or what the model says now.
abbrev pub IsGrounded : Desk → AnswerCache → Text → Answer → Type 0
IsGrounded desk c question a =
    ((hit : Cached) × (get c (make_query_key desk.digest_query question) ≡ some hit)
      × (a ≡ served hit)
      × (digest : Text → String) × (desk.oracle ≡ some digest)
      × All (IsUnchanged digest desk.files) hit.citations)
    ⊎ ((a ≡ (generate_answer desk none question).0) × (a.cached ≡ false))

pub fresh_answer :
    (desk : Desk) (cache : Option AnswerCache) (question : Text)
    → ((generate_answer desk cache question).0 ≡ (generate_answer desk none question).0)
      × ((generate_answer desk cache question).0.cached ≡ false)
unfolding generate_answer
fresh_answer desk cache question = (refl, refl)

pub answer_missing :
    (desk : Desk) (c : AnswerCache) (question : Text)
    → get c (make_query_key desk.digest_query question) ≡ none
    → answer_question desk (some c) question ≡ generate_answer desk (some c) question
unfolding answer_question
answer_missing desk c question e = rw (answer_question, e) refl

pub answer_cached :
    (desk : Desk) (c : AnswerCache) (question : Text) (hit : Cached)
    → get c (make_query_key desk.digest_query question) ≡ some hit
    → answer_question desk (some c) question ≡ (
        if citations_fresh desk.oracle desk.files hit.citations
        then (served hit, some c)
        else generate_answer desk
            (some (invalidate c (make_query_key desk.digest_query question)))
            question)
unfolding answer_question
answer_cached desk c question hit e = rw (answer_question, e) refl

-- The answer is grounded, and the cache keeps citing one hash for each path.
abbrev pub IsOutcome : Desk → AnswerCache → Text → Answer × Option AnswerCache → Type 0
IsOutcome desk c question out =
    IsGrounded desk c question out.0 × (c' : AnswerCache) × (out.1 ≡ some c') × IsSound c'

generate_answer-IsOutcome :
    (desk : Desk) (c c' : AnswerCache) (question : Text)
    → IsSound c'
    → IsOutcome desk c question (generate_answer desk (some c') question)
generate_answer-IsOutcome desk c c' question h =
    let (after, e, sound) = generate_answer-IsSound desk c' question h in
    (inr (fresh_answer desk (some c') question), after, e, sound)

-- Let each cached answer cite one hash for each path. Then an answer to a question is either the cached one,
-- and every file that it cites has the content whose hash was kept with it, or the one that the model
-- gives now on the context of the question; and the cache keeps citing one hash for each path.
pub answer_question-IsOutcome :
    (desk : Desk) (c : AnswerCache) (question : Text)
    → IsSound c
    → IsOutcome desk c question (answer_question desk (some c) question)
answer_question-IsOutcome desk c question h =
    let key = make_query_key desk.digest_query question in
    elim (Option-cases (get c key)) [
      | inl e ↦
          subst (IsOutcome desk c question) (sym (answer_missing desk c question e))
            (generate_answer-IsOutcome desk c c question h)
      | inr (hit, e) ↦
          subst (IsOutcome desk c question) (sym (answer_cached desk c question hit e))
            (elim (Bool-cases (citations_fresh desk.oracle desk.files hit.citations)) [
              | inl f ↦ rw f (
                  let (digest, o, all) =
                    citations_fresh-IsUnchanged desk.oracle desk.files (h key hit e).0 hit.citations
                      (h key hit e).1 f in
                  (inl (hit, e, refl, digest, o, all), c, refl, h))
              | inr f ↦ rw f (
                  generate_answer-IsOutcome desk c (invalidate c key) question
                    (invalidate-IsSound c key h))
            ])
    ]
