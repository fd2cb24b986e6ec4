-- ===== src/Tools/Custos.antt =====
-- tools/citadel_custos.py: the guard of what reaches a context window. A text is its code points; the
-- patterns of `re`, each as the function that `sub` computes with it, are parameters.
pub mod Budget
use the_soverign_imperia_cit.Base.{
  ℕ, zero, suc, ◌+◌, ◌-◌, List, [], ◌∷◌, ◌++◌, Bool, true, false, ◌&&◌, ltb, leb, length, take, map,
  if◌then◌else◌,
}
use the_soverign_imperia_cit.Base.Text.{Text, join}
use the_soverign_imperia_cit.Retrieval.Chunker.{char_bytes, byte_length, is_break, splitlines}

pub record Patterns : Type 0 where
  pub masks : List (Text → Text)
  pub env : Text → Text

abbrev mask_all : List (Text → Text) → Text → Text
mask_all [] out = out
mask_all (sub ∷ subs) out = mask_all subs (sub out)

unfoldable pub redact : Patterns → Text → Text
redact p text = p.env (mask_all p.masks text)

-- A line without the characters that end it.
unfoldable pub chomp : Text → Text
unfolding is_break
chomp [] = []
chomp (c ∷ s) = let rest = chomp s in if is_break c then [] else c ∷ rest

-- `text.splitlines()`
unfoldable pub plain_lines : Text → List Text
unfolding splitlines chomp
plain_lines s = map chomp (splitlines s)

pub record Counts : Type 0 where
  pub lines : ℕ
  pub bytes : ℕ

unfoldable pub counts : Text → Counts
unfolding plain_lines byte_length
counts text = record { lines = length (plain_lines text); bytes = byte_length text }

-- The characters that lie whole in the first bytes: `raw[:max_bytes]` decoded with errors ignored.
unfoldable pub take_bytes : ℕ → Text → Text
unfolding char_bytes
take_bytes max_bytes [] = []
take_bytes max_bytes (c ∷ s) =
    let rest = take_bytes (max_bytes - char_bytes c) s in
    if leb (char_bytes c) max_bytes then c ∷ rest else []

pub record Spliced : Type 0 where
  pub body : Text
  pub served : ℕ
  pub total : ℕ

unfoldable pub splice : Text → ℕ → Spliced
unfolding byte_length take_bytes
splice text max_bytes =
    let total = byte_length text in
    if leb total max_bytes then record { body = text; served = total; total = total } else record {
      body = take_bytes max_bytes text;
      served = byte_length (take_bytes max_bytes text);
      total = total;
    }

-- The numbers that the preamble shows, in place of its text.
pub record Guarded : Type 0 where
  pub shown_lines : ℕ
  pub served : ℕ
  pub body : Text
  pub truncated : Bool
  pub total_lines : ℕ
  pub total_bytes : ℕ

unfoldable pub guard_output : Patterns → Text → ℕ → ℕ → Bool → Guarded
unfolding redact counts splice
guard_output p text max_lines max_bytes redact_secrets =
    let body_full = (if redact_secrets then redact p text else text) in
    let size = counts body_full in
    let shown_lines = take max_lines (plain_lines body_full) in
    let spliced = splice (join (10 ∷ []) shown_lines) max_bytes in
    if leb size.lines max_lines && leb size.bytes max_bytes
    then record {
      shown_lines = size.lines;
      served = size.bytes;
      body = body_full;
      truncated = false;
      total_lines = size.lines;
      total_bytes = size.bytes;
    }
    else record {
      shown_lines = length shown_lines;
      served = spliced.served;
      body = spliced.body;
      truncated = true;
      total_lines = size.lines;
      total_bytes = size.bytes;
    }
