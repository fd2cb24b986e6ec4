-- ===== src/Tools/Custos/Budget.antt =====
-- What the guard lets through.
use the_soverign_imperia_cit.Base.{
  ℕ, ◌+◌, ◌≤◌, ◌<◌, ◌≡◌, ◌↔◌, ◌⊎◌, min, true, [], ◌∷◌, ◌++◌, Bool, length, take, if◌then◌else◌,
}
use the_soverign_imperia_cit.Base.Text.{Text, join}
use the_soverign_imperia_cit.Retrieval.Chunker.{char_bytes, byte_length}
use the_soverign_imperia_cit.Tools.Custos.{Patterns, redact, plain_lines, Guarded}

-- What is left out: nothing, or a first character that does not fit any more.
abbrev IsMaximal : ℕ → Text → Text → Type 0
IsMaximal m s [] = Unit
IsMaximal m s (c ∷ left) = m < byte_length s + char_bytes c

-- A cut keeps a front of the text, and as much of it as fits.
abbrev pub IsCut : ℕ → Text → Text → Type 0
IsCut m s body = (left : Text) × (s ≡ body ++ left) × IsMaximal m body left

-- The text that the guard shows or cuts.
abbrev pub source_of : Patterns → Bool → Text → Text
source_of p redact_secrets text = if redact_secrets then redact p text else text

abbrev pub IsWithin : Text → ℕ → ℕ → Guarded → Type 0
IsWithin full max_lines max_bytes out =
    (out.served ≡ byte_length out.body)
    × (out.served ≤ max_bytes)
    × (out.total_lines ≡ length (plain_lines full))
    × (out.total_bytes ≡ byte_length full)
    × ((out.truncated ≡ true) ↔ ((max_lines < out.total_lines) ⊎ (max_bytes < out.total_bytes)))
    × (out.shown_lines ≡ min max_lines out.total_lines)
    × (if out.truncated
        then IsCut max_bytes (join (10 ∷ []) (take max_lines (plain_lines full))) out.body
        else out.body ≡ full)
