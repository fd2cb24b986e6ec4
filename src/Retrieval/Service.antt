-- ===== src/Retrieval/Service.antt =====
-- src/citadel/services/retrieval/service.py: the hybrid search, the guarded read and the capsule of
-- context. Floats and the resolution of paths are parameters.
pub mod Packed
use the_soverign_imperia_cit.Base.{
  ℕ, zero, suc, ◌+◌, ◌*◌, max, String, List, [], ◌∷◌, ◌++◌, Bool, true, false, not, ◌&&◌, ◌||◌,
  Option, none, some, map, ltb, leb, length, take, any, select, ◌==◌, ◌⊎◌, inl, inr, if◌then◌else◌,
}
use the_soverign_imperia_cit.Base.Sets
use the_soverign_imperia_cit.Base.Text.{Text, lower, same}
use the_soverign_imperia_cit.Retrieval.Chunker.{byte_length}
use the_soverign_imperia_cit.Retrieval.Vectors.{Floats, VectorRecord, Scored, chunk_id, sort_scored}
use the_soverign_imperia_cit.Tools.Custos.{Patterns, Guarded, guard_output, take_bytes}

pub record Hit (F : Type 0) : Type 0 where
  pub path : String
  pub score : F
  pub start_byte : ℕ
  pub end_byte : ℕ
  pub snippet : Text

-- `[a-z0-9_]`
unfoldable pub is_word : ℕ → Bool
is_word c = (leb b'a' c && leb c b'z') || ((leb b'0' c && leb c b'9') || c == b'_')

abbrev is_nil : {A : Type 0} → List A → Bool
is_nil [] = true
is_nil (x ∷ xs) = false

abbrev flush : Text → List Text → List Text
flush [] words = words
flush (c ∷ word) words = (c ∷ word) ∷ words

-- The words from a text, with the letters of the word that is being read.
unfoldable pub words_from : Text → Text → List Text
unfolding is_word
words_from word [] = flush word []
words_from word (c ∷ s) =
    let inside = words_from (word ++ c ∷ []) s in
    let outside = flush word (words_from [] s) in if is_word c then inside else outside

abbrev pub has_word : List Text → Text → Bool
has_word words t = any (λ u. same u t) words

-- `set(words)`
unfoldable pub distinct : List Text → List Text
distinct [] = []
distinct (t ∷ words) = let rest = distinct words in if has_word rest t then rest else t ∷ rest

-- `set(re.findall(r"[a-z0-9_]+", text.lower()))`
unfoldable pub tokens : Text → List Text
unfolding words_from distinct lower
tokens s = distinct (words_from [] (map lower s))

unfoldable pub keyword_score : {F : Type 0} → Floats F → List Text → Text → F
unfolding tokens
keyword_score fl q_tokens text =
    let t_tokens = tokens text in
    if is_nil q_tokens || is_nil t_tokens
    then fl.zero
    else fl.ratio (length (select (has_word t_tokens) q_tokens)) (length q_tokens)

unfoldable pub snippet_of : Text → ℕ → Text
unfolding byte_length take_bytes
snippet_of text max_bytes =
    if leb (byte_length text) max_bytes then text else take_bytes max_bytes text

abbrev pub fused : {F : Type 0} → Floats F → F → List Text → Scored F → Scored F
fused fl alpha q_tokens x = (
  fl.add (fl.mul alpha x.0) (fl.mul (fl.sub fl.one alpha) (keyword_score fl q_tokens x.1.text)),
  x.1,
)

abbrev pub hit_of : {F : Type 0} → Floats F → Scored F → Hit F
hit_of fl x = record {
  path = x.1.path;
  score = fl.round4 x.0;
  start_byte = x.1.start_byte;
  end_byte = x.1.end_byte;
  snippet = snippet_of x.1.text 1200;
}

abbrev or_none_found : {F : Type 0} → Option (List (Scored F)) → List (Scored F)
or_none_found none = []
or_none_found (some results) = results

-- `search` on the dense results for a number of candidates; `none` is an exception.
unfoldable pub search :
    {F : Type 0} → Floats F → (Text → ℕ → Option (List (Scored F))) → Text → ℕ → F → List (Hit F)
unfolding sort_scored keyword_score snippet_of
search fl dense text top_k alpha =
    let results = or_none_found (dense text (max (top_k * 4) top_k)) in
    map (hit_of fl) (take top_k (sort_scored fl (map (fused fl alpha (tokens text)) results)))

pub data ReadError : Type 0 where
  escapes_workspace : ReadError
  not_a_file : ReadError

-- What `resolve` and reading give: whether the target lies in the workspace, and its text.
pub record Target : Type 0 where
  pub inside : Bool
  pub text : Option Text

-- Without a guard, a body of so many characters after the length.
pub data Body : Type 0 where
  guarded : Guarded → Body
  bare : ℕ → Text → Body

abbrev read_text : Option Patterns → ℕ → Option Text → ReadError ⊎ Body
read_text guard max_bytes none = inl not_a_file
read_text none max_bytes (some text) = inr (bare (length text) (take max_bytes text))
read_text (some p) max_bytes (some text) = inr (guarded (guard_output p text 200 max_bytes true))

unfoldable pub read : Option Patterns → Target → ℕ → ReadError ⊎ Body
unfolding guard_output
read guard target max_bytes =
    if target.inside then read_text guard max_bytes target.text else inl escapes_workspace

abbrev pub with_hit : {F : Type 0} → Hit F → List (Hit F) × ℕ → List (Hit F) × ℕ
with_hit h (packed, used) = (h ∷ packed, used)

-- The loop of `context`, from what has been seen and the bytes used so far.
unfoldable pub pack :
    {F : Type 0} → (ℕ → String) → ℕ → List String → ℕ → List (Hit F) → List (Hit F) × ℕ
unfolding chunk_id byte_length
pack str budget_bytes seen used [] = ([], used)
pack str budget_bytes seen used (h ∷ hits) =
    let key = chunk_id str h.path h.start_byte in
    let size = byte_length h.snippet in
    let skipped = pack str budget_bytes seen used hits in
    let taken = pack str budget_bytes (Sets.add seen key) (used + size) hits in
    if Sets.member seen key
    then skipped
    else if ltb budget_bytes (used + size)
    then ([], used)
    else with_hit h taken

-- The numbers of the preamble, and the chunks.
pub record Capsule (F : Type 0) : Type 0 where
  pub used : ℕ
  pub candidates : ℕ
  pub chunks : List (Hit F)

unfoldable pub context :
    {F : Type 0}
    → Floats F
    → (Text → ℕ → Option (List (Scored F)))
    → (ℕ → String)
    → Text
    → ℕ
    → F
    → ℕ
    → Capsule F
unfolding search pack
context fl dense str task top_k alpha budget_bytes =
    let hits = search fl dense task top_k alpha in
    let (packed, used) = pack str budget_bytes [] 0 hits in
    record { used = used; candidates = length hits; chunks = packed }
