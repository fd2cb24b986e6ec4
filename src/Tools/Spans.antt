-- ===== src/Tools/Spans.antt =====
-- tools/_content_address.py: the canonical form of a text and the spans that anchor a snippet in a
-- source. The composition of Unicode, the encoding in UTF-8 and the digest are parameters.
pub mod Anchored
use the_soverign_imperia_cit.Base.{
  ℕ, zero, suc, ◌+◌, ◌-◌, List, [], ◌∷◌, ◌++◌, Bool, true, false, not, Option, none, some, ◌⊎◌, inl,
  inr, map, ltb, leb, ◌==◌, length, take, drop, if◌then◌else◌,
}
use the_soverign_imperia_cit.Base.Text.{Text, is_space, strip, join, same, starts_with}

pub record Encoding : Type 0 where
  pub compose : Text → Text
  pub encode : Text → Text
  pub sha256_hex : Text → Text

-- `replace("\r\n", "\n").replace("\r", "\n")`
unfoldable pub line_feeds : Text → Text
line_feeds [] = []
line_feeds (c ∷ []) = (if c == 13 then 10 else c) ∷ []
line_feeds (c ∷ d ∷ s) =
    let rest = line_feeds (d ∷ s) in
    if c == 13 then (if d == 10 then rest else 10 ∷ rest) else c ∷ rest

abbrev pub onto_first : ℕ → List Text → List Text
onto_first c [] = (c ∷ []) ∷ []
onto_first c (l ∷ lines) = (c ∷ l) ∷ lines

-- `split("\n")`
unfoldable pub split_lines : Text → List Text
split_lines [] = [] ∷ []
split_lines (c ∷ s) =
    let lines = split_lines s in if c == 10 then [] ∷ lines else onto_first c lines

abbrev flush : Text → List Text → List Text
flush [] words = words
flush (c ∷ word) words = (c ∷ word) ∷ words

-- `line.split()`, with the letters of the word that is being read.
unfoldable pub words_from : Text → Text → List Text
unfolding is_space
words_from word [] = flush word []
words_from word (c ∷ s) =
    let inside = words_from (word ++ c ∷ []) s in
    let outside = flush word (words_from [] s) in if is_space c then outside else inside

abbrev spaced : Text → Text
spaced line = join (32 ∷ []) (words_from [] line)

unfoldable pub canonicalize : Encoding → Text → Text
unfolding strip line_feeds split_lines words_from join
canonicalize e text =
    e.encode (join (10 ∷ []) (map spaced (split_lines (line_feeds (strip (e.compose text))))))

unfoldable pub text_hash : Encoding → Text → Text
unfolding canonicalize
text_hash e text = e.sha256_hex (canonicalize e text)

pub record ByteSpan : Type 0 where
  pub source_hash : Text
  pub char_start : ℕ
  pub char_end : ℕ

pub data SpanError : Type 0 where
  not_a_hash : SpanError
  not_after_start : SpanError

-- `__post_init__`; a start is a native number here, so it is not below zero.
unfoldable pub post_init : ByteSpan → SpanError ⊎ ByteSpan
post_init s =
    if not (length s.source_hash == 64)
    then inl not_a_hash
    else if leb s.char_end s.char_start
    then inl not_after_start
    else inr s

unfoldable pub extract : ByteSpan → Text → Text
extract s canonical_bytes = take (s.char_end - s.char_start) (drop s.char_start canonical_bytes)

unfoldable pub verify : Encoding → ByteSpan → Text → Text → Bool
unfolding extract canonicalize same
verify e s canonical_bytes claimed_text =
    same (extract s canonical_bytes) (canonicalize e claimed_text)

abbrev pub later : Option ℕ → Option ℕ
later none = none
later (some i) = some (suc i)

-- `bytes.find`; `none` is -1.
unfoldable pub find : Text → Text → Option ℕ
unfolding starts_with
find needle [] = if starts_with needle [] then some 0 else none
find needle (c ∷ s) =
    let rest = later (find needle s) in if starts_with needle (c ∷ s) then some 0 else rest

abbrev pub anchored : SpanError ⊎ ByteSpan → SpanError ⊎ Option ByteSpan
anchored (inl e) = inl e
anchored (inr s) = inr (some s)

abbrev pub span_at : Encoding → Text → Text → Option ℕ → SpanError ⊎ Option ByteSpan
span_at e source_canonical needle none = inr none
span_at e source_canonical needle (some idx) = anchored (
    post_init (record {
      source_hash = e.sha256_hex source_canonical;
      char_start = idx;
      char_end = idx + length needle;
    }))

unfoldable pub find_span : Encoding → Text → Text → SpanError ⊎ Option ByteSpan
unfolding find post_init canonicalize
find_span e source_canonical snippet =
    let needle = canonicalize e snippet in
    span_at e source_canonical needle (find needle source_canonical)
