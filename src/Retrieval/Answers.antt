-- ===== src/Retrieval/Answers.antt =====
-- src/citadel/services/retrieval/answer_cache.py over its file, and ask.py. The digest of a question,
-- the assembling of the context, the model and the file system are parameters.
pub mod Grounded
pub mod Unchanged
pub mod Again
use the_soverign_imperia_cit.Base.{
  ℕ, String, List, [], ◌∷◌, ◌++◌, Bool, true, false, not, ◌&&◌, ◌||◌, Option, none, some, map,
  str_eq, ◌==◌, if◌then◌else◌,
}
use the_soverign_imperia_cit.Base.Dict
use the_soverign_imperia_cit.Base.Dict.{Dict}
use the_soverign_imperia_cit.Base.Text.{Text, codes, is_space, lower, strip, join}
use the_soverign_imperia_cit.Tools.Oracle

-- `re.sub(r"\s+", " ", s)`; the flag says that the last character was white space.
unfoldable pub collapse : Bool → Text → Text
unfolding is_space
collapse in_space [] = []
collapse in_space (c ∷ s) =
    let rest = collapse (is_space c) s in
    if is_space c then (if in_space then rest else 32 ∷ rest) else c ∷ rest

unfoldable pub normalized : Text → Text
unfolding strip lower collapse
normalized text = collapse false (map lower (strip text))

unfoldable pub make_query_key : (Text → String) → Text → String
unfolding normalized
make_query_key digest text = digest (normalized text)

-- A key that is absent from the JSON object reads like an empty text.
pub record Citation : Type 0 where
  pub path : String
  pub start_byte : ℕ
  pub end_byte : ℕ
  pub file_hash : String

pub record Cached : Type 0 where
  pub answer : Text
  pub citations : List Citation

pub record AnswerCache : Type 0 where
  pub file : Option (Dict Cached)
  pub mem : Dict Cached

abbrev loaded : Option (Dict Cached) → Dict Cached
loaded none = []
loaded (some mem) = mem

unfoldable pub open_answers : Option (Dict Cached) → AnswerCache
open_answers file = record { file = file; mem = loaded file }

abbrev save : AnswerCache → AnswerCache
save c = record c { file = some c.mem }

unfoldable pub get : AnswerCache → String → Option Cached
get c key = Dict.get c.mem key

unfoldable pub put : AnswerCache → String → Text → List Citation → AnswerCache
put c key answer citations =
    save (record c { mem = Dict.put c.mem key (record { answer = answer; citations = citations }) })

unfoldable pub invalidate : AnswerCache → String → AnswerCache
invalidate c key = elim (Dict.get c.mem key) [
  | none ↦ c
  | some answer ↦ save (record c { mem = Dict.remove c.mem key })
]

-- The files of the workspace by their path; `none` is a file that cannot be read.
abbrev pub Files : Type 0
Files = String → Option Text

-- One round of the loop over the citations: the answer for its path.
abbrev pub verdict : (Text → String) → Files → Dict Bool → Citation → Bool
verdict digest files checked c = elim (Dict.get checked c.path) [
  | some fresh ↦ fresh
  | none ↦ Oracle.is_fresh digest (files c.path) c.file_hash
]

unfoldable pub all_fresh : (Text → String) → Files → Dict Bool → List Citation → Bool
unfolding Oracle.is_fresh
all_fresh digest files checked [] = true
all_fresh digest files checked (c ∷ cs) =
    let fresh = verdict digest files checked c in
    let rest = all_fresh digest files (Dict.put checked c.path fresh) cs in
    if str_eq c.path "" || str_eq c.file_hash "" then false else if fresh then rest else false

-- `_citations_fresh`; an oracle that does not load is `none`.
unfoldable pub citations_fresh : Option (Text → String) → Files → List Citation → Bool
unfolding all_fresh
citations_fresh none files citations = false
citations_fresh (some digest) files citations = all_fresh digest files [] citations

-- A chunk of the context.
pub record Passage : Type 0 where
  pub path : String
  pub start_byte : ℕ
  pub end_byte : ℕ
  pub snippet : Text

abbrev block : (ℕ → Text) → Passage → Text
block str p =
    codes "# "
    ++ codes p.path
    ++ codes " (bytes "
    ++ str p.start_byte
    ++ codes "-"
    ++ str p.end_byte
    ++ codes ")\n"
    ++ p.snippet

unfoldable pub build_prompt : (ℕ → Text) → Text → List Passage → Text
unfolding join
build_prompt str question passages =
    codes
      "You are answering a question using ONLY the workspace context below. Cite files by path. If the "
    ++ codes "context is insufficient, say so plainly.\n\n"
    ++ codes "## Context\n"
    ++ join (codes "\n\n") (map (block str) passages)
    ++ codes "\n\n## Question\n"
    ++ question
    ++ codes "\n\n## Answer\n"

-- What an answer uses: the passages of the question, the stored hash of a path, the model, the oracle
-- and the files.
pub record Desk : Type 0 where
  pub digest_query : Text → String
  pub str : ℕ → Text
  pub passages : Text → List Passage
  pub stored_file_hash : String → Option String
  pub generate : Text → Text
  pub oracle : Option (Text → String)
  pub files : Files

pub record Answer : Type 0 where
  pub answer : Text
  pub citations : List Citation
  pub cached : Bool
  pub grounded : Bool

abbrev pub or_empty : Option String → String
or_empty none = ""
or_empty (some h) = h

abbrev pub cite : (String → Option String) → Passage → Citation
cite stored p = record {
  path = p.path;
  start_byte = p.start_byte;
  end_byte = p.end_byte;
  file_hash = or_empty (stored p.path);
}

abbrev pub all_hashed : List Citation → Bool
all_hashed [] = true
all_hashed (c ∷ cs) = not (str_eq c.file_hash "") && all_hashed cs

abbrev pub is_nil : {A : Type 0} → List A → Bool
is_nil [] = true
is_nil (x ∷ xs) = false

-- The part of `answer_question` that asks the model.
unfoldable pub generate_answer : Desk → Option AnswerCache → Text → Answer × Option AnswerCache
unfolding make_query_key build_prompt put strip
generate_answer desk cache question =
    let passages = desk.passages question in
    let citations = map (cite desk.stored_file_hash) passages in
    let prompt = (if is_nil passages then question else build_prompt desk.str question passages) in
    let text = strip (desk.generate prompt) in
    (
      record {
        answer = text;
        citations = citations;
        cached = false;
        grounded = not (is_nil passages);
      },
      (elim cache [
        | none ↦ none
        | some c ↦ some (
            if not (is_nil citations) && all_hashed citations
            then put c (make_query_key desk.digest_query question) text citations
            else c)
      ]),
    )

abbrev pub served : Cached → Answer
served hit = record {
  answer = hit.answer;
  citations = hit.citations;
  cached = true;
  grounded = true;
}

unfoldable pub answer_question : Desk → Option AnswerCache → Text → Answer × Option AnswerCache
unfolding citations_fresh generate_answer invalidate get
answer_question desk none question = generate_answer desk none question
answer_question desk (some c) question =
    let key = make_query_key desk.digest_query question in
    elim (get c key) [
      | none ↦ generate_answer desk (some c) question
      | some hit ↦
          if citations_fresh desk.oracle desk.files hit.citations
          then (served hit, some c)
          else generate_answer desk (some (invalidate c key)) question
    ]
