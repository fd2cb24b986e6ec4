-- ===== src/Retrieval/Answers/Again.antt =====
-- Asking the same question twice.
use the_soverign_imperia_cit.Base.{
  String, ◌≡◌, ◌≢◌, refl, ap, ◌∙◌, List, [], ◌∷◌, true, false, none, some, map, arith, eq_iff, All,
}
use the_soverign_imperia_cit.Base.Dict
use the_soverign_imperia_cit.Base.Dict.{get-put}
use the_soverign_imperia_cit.Base.Text.{Text}
use the_soverign_imperia_cit.Retrieval.Answers.{
  Citation, AnswerCache, get, put, citations_fresh, Passage, Desk, Answer, cite, all_hashed, is_nil,
  generate_answer, served, answer_question, make_query_key,
}
use the_soverign_imperia_cit.Retrieval.Answers.Unchanged.{every, is_current, all_fresh-every}
use the_soverign_imperia_cit.Retrieval.Answers.Grounded.{
  map-cite-IsFrom, answer_missing, answer_cached,
}
use the_soverign_imperia_cit.Tools.Oracle

-- The index has a passage's file as it is now.
abbrev pub IsIndexed : Desk → (Text → String) → Passage → Type 0
IsIndexed desk digest p =
    (p.path ≢ "")
    × (Oracle.content_hash digest (desk.files p.path) ≢ "")
    × (desk.stored_file_hash p.path ≡ some (Oracle.content_hash digest (desk.files p.path)))

module _ (desk : Desk) (digest : Text → String) where
  cite-is_current :
      (p : Passage)
      → IsIndexed desk digest p
      → is_current digest desk.files (cite desk.stored_file_hash p) ≡ true
  unfolding Oracle.is_fresh
  cite-is_current p (named, hashed, e) =
      let h = Oracle.content_hash digest (desk.files p.path) in
      rw e (ground (arith, eq_iff p.path "", eq_iff h "", eq_iff h h, named, hashed))

  map-cite-every :
      (ps : List Passage)
      → All (IsIndexed desk digest) ps
      → (every digest desk.files (map (cite desk.stored_file_hash) ps) ≡ true)
        × (all_hashed (map (cite desk.stored_file_hash) ps) ≡ true)
  map-cite-every [] h = (refl, refl)
  map-cite-every (p ∷ ps) ((named, hashed, e), h) =
      let (a, b) = map-cite-every ps h in
      (
        rw (cite-is_current p (named, hashed, e)) a,
        rw (e, b)
            (ground (arith, eq_iff (Oracle.content_hash digest (desk.files p.path)) "", hashed)),
      )

  citations_fresh-cite :
      (ps : List Passage)
      → desk.oracle ≡ some digest
      → All (IsIndexed desk digest) ps
      → citations_fresh desk.oracle desk.files (map (cite desk.stored_file_hash) ps) ≡ true
  unfolding citations_fresh Dict.get
  citations_fresh-cite ps o h =
      ap (λ x. citations_fresh x desk.files (map (cite desk.stored_file_hash) ps)) o
      ∙ all_fresh-every digest desk.files desk.stored_file_hash []
          (map (cite desk.stored_file_hash) ps) (λ p b m. absurd (ground (arith, m)))
          (map-cite-IsFrom desk.stored_file_hash ps)
      ∙ (map-cite-every ps h).0

  get-put_key :
      (c : AnswerCache) (key : String) (text : Text) (cs : List Citation)
      → get (put c key text cs) key ≡ some (record { answer = text; citations = cs })
  unfolding get put
  get-put_key c key text cs =
      ground
        (arith, get-put c.mem key key (record { answer = text; citations = cs }), eq_iff key key)

  is_nil-map : (ps : List Passage) → is_nil (map (cite desk.stored_file_hash) ps) ≡ is_nil ps
  is_nil-map [] = refl
  is_nil-map (p ∷ ps) = refl

  module _ (c : AnswerCache) (question : Text) where
    abbrev pub key : String
    key = make_query_key desk.digest_query question

    -- What the model says now.
    abbrev pub said : Answer
    said = (generate_answer desk none question).0

    kept :
        is_nil (desk.passages question) ≡ false
        → All (IsIndexed desk digest) (desk.passages question)
        → generate_answer desk (some c) question
          ≡ (said, some (put c key said.answer said.citations))
    unfolding generate_answer
    kept n h =
        rw (is_nil-map (desk.passages question), (map-cite-every (desk.passages question) h).1, n)
          refl

    again :
        is_nil (desk.passages question) ≡ false
        → desk.oracle ≡ some digest
        → All (IsIndexed desk digest) (desk.passages question)
        → answer_question desk (some (put c key said.answer said.citations)) question ≡ (
          served (record { answer = said.answer; citations = said.citations }),
          some (put c key said.answer said.citations),
        )
    unfolding generate_answer
    again n o h =
        answer_cached desk (put c key said.answer said.citations) question _
          (get-put_key c key said.answer said.citations)
        ∙ (rw (citations_fresh-cite (desk.passages question) o h) refl)

-- A question that the cache does not have, with a context that is not empty and whose files are indexed
-- as they are now under names and hashes that are not empty, is answered by the model; and asked again, it
-- is answered from the cache with the same text and the same citations.
pub answer_question-again :
    (desk : Desk) (digest : Text → String) (c : AnswerCache) (question : Text)
    → get c (make_query_key desk.digest_query question) ≡ none
    → is_nil (desk.passages question) ≡ false
    → desk.oracle ≡ some digest
    → All (IsIndexed desk digest) (desk.passages question)
    → (c' : AnswerCache) × (answer_question desk (some c) question
        ≡ ((generate_answer desk none question).0, some c'))
      × (answer_question desk (some c') question ≡ (
        record (generate_answer desk none question).0 { cached = true; grounded = true },
        some c',
      ))
answer_question-again desk digest c question missing n o h = (
  _,
  answer_missing desk c question missing ∙ kept desk digest c question n h,
  again desk digest c question n o h,
)
