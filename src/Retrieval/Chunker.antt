-- ===== src/Retrieval/Chunker.antt =====
-- src/citadel/services/retrieval/chunker.py: a file as overlapping windows of lines. A text is its
-- code points; the digest of a text is a parameter.
pub mod Ink
pub mod Offsets
pub mod Windows
pub mod Numbered
use the_soverign_imperia_cit.Base.{
  ℕ, zero, suc, ◌+◌, ◌-◌, min, max, String, List, [], ◌∷◌, ◌++◌, Bool, true, false, not, ◌&&◌, ◌||◌,
  Option, none, some, ltb, leb, ◌==◌, length, take, drop, nth, any, if◌then◌else◌,
}
use the_soverign_imperia_cit.Base.Text.{Text, is_space, strip}

-- The characters that end a line in `str.splitlines`.
unfoldable pub is_break : ℕ → Bool
is_break c =
    (leb 10 c && leb c 13)
    || ((leb 28 c && leb c 30) || (c == 0x85 || (c == 0x2028 || c == 0x2029)))

-- A carriage return before a line feed does not end the line.
abbrev pub starts_feed : Text → Bool
starts_feed [] = false
starts_feed (c ∷ s) = c == 10

unfoldable pub ends_line : ℕ → Text → Bool
unfolding is_break
ends_line c s = is_break c && not (c == 13 && starts_feed s)

-- One more character of the first line.
abbrev pub extend : ℕ → List Text → List Text
extend c [] = (c ∷ []) ∷ []
extend c (l ∷ lines) = (c ∷ l) ∷ lines

-- `text.splitlines(keepends=True)`
unfoldable pub splitlines : Text → List Text
unfolding ends_line
splitlines [] = []
splitlines (c ∷ s) =
    let lines = splitlines s in if ends_line c s then (c ∷ []) ∷ lines else extend c lines

-- The bytes of a code point in UTF-8.
unfoldable pub char_bytes : ℕ → ℕ
char_bytes c = if ltb c 0x80 then 1 else if ltb c 0x800 then 2 else if ltb c 0x10000 then 3 else 4

unfoldable pub byte_length : Text → ℕ
unfolding char_bytes
byte_length [] = 0
byte_length (c ∷ s) = char_bytes c + byte_length s

-- The loop of `_line_byte_offsets` from a sum.
unfoldable pub offsets_from : ℕ → List Text → List ℕ
unfolding byte_length
offsets_from acc [] = acc ∷ []
offsets_from acc (l ∷ lines) = acc ∷ offsets_from (acc + byte_length l) lines

unfoldable pub line_byte_offsets : List Text → List ℕ
unfolding offsets_from
line_byte_offsets lines = offsets_from 0 lines

pub record Chunk : Type 0 where
  pub path : String
  pub index : ℕ
  pub start_byte : ℕ
  pub end_byte : ℕ
  pub text : Text
  pub content_hash : String

unfoldable pub concat : List Text → Text
concat [] = []
concat (l ∷ lines) = l ++ concat lines

-- `"".join(lines[start:end])`
unfoldable pub body_of : List Text → ℕ → ℕ → Text
unfolding concat
body_of lines start end = concat (take (end - start) (drop start lines))

abbrev pub is_empty : Text → Bool
is_empty [] = true
is_empty (c ∷ s) = false

-- What stays fixed in the loop.
pub record Window : Type 0 where
  pub lines : List Text
  pub path : String
  pub max_lines : ℕ
  pub step : ℕ
  pub hash_text : Text → String

unfoldable pub chunk_at : Window → ℕ → ℕ → ℕ → Chunk
unfolding body_of line_byte_offsets
chunk_at w index start end = record {
  path = w.path;
  index = index;
  start_byte = nth 0 (line_byte_offsets w.lines) start;
  end_byte = nth 0 (line_byte_offsets w.lines) end;
  text = body_of w.lines start end;
  content_hash = w.hash_text (body_of w.lines start end);
}

abbrev pub window_end : Window → ℕ → ℕ
window_end w start = min (start + w.max_lines) (length w.lines)

-- `if stripped:` of a window
unfoldable pub has_text : Window → ℕ → Bool
unfolding body_of strip
has_text w start = not (is_empty (strip (body_of w.lines start (window_end w start))))

abbrev pub prepend : Option (List Chunk) → Bool → Chunk → Option (List Chunk)
prepend none b c = none
prepend (some cs) b c = some (if b then c ∷ cs else cs)

-- The loop of `chunk_text`; `none` means that the fuel ran out.
unfoldable pub chunk_loop : ℕ → Window → ℕ → ℕ → Option (List Chunk)
unfolding chunk_at has_text
chunk_loop zero w index start = none
chunk_loop (suc fuel) w index start =
    let end = window_end w start in
    let index' = (if has_text w start then index + 1 else index) in
    let rest = chunk_loop fuel w index' (start + w.step) in
    if ltb start (length w.lines)
    then prepend (if leb (length w.lines) end then some [] else rest) (has_text w start)
        (chunk_at w index start end)
    else some []

abbrev pub window_of : (Text → String) → Text → String → ℕ → ℕ → Window
window_of hash_text text path max_lines overlap = record {
  lines = splitlines text;
  path = path;
  max_lines = max_lines;
  step = max 1 (max_lines - overlap);
  hash_text = hash_text;
}

-- Each round starts at a later line, so one round more than there are lines is enough. An empty text
-- has no lines.
unfoldable pub chunk_text : (Text → String) → Text → String → ℕ → ℕ → Option (List Chunk)
unfolding splitlines chunk_loop
chunk_text hash_text text path max_lines overlap =
    let w = window_of hash_text text path max_lines overlap in
    chunk_loop (suc (length w.lines)) w 0 0

-- `chunk_file` on what `read_text` gives; `none` is an OSError. The relative path is an argument.
unfoldable pub chunk_file : (Text → String) → Option Text → String → ℕ → ℕ → Option (List Chunk)
unfolding chunk_text
chunk_file hash_text none rel max_lines overlap = some []
chunk_file hash_text (some text) rel max_lines overlap =
    chunk_text hash_text text rel max_lines overlap
