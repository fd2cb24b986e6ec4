-- ===== src/Retrieval/Chunker/Offsets.antt =====
-- The byte offsets of lines, and the text that the lines make.
use the_soverign_imperia_cit.Base.{
  ℕ, zero, suc, ◌+◌, ◌≤◌, ◌≡◌, refl, ap, List, [], ◌∷◌, ◌++◌, Bool-cases, inl, inr, length, take,
  drop, nth, arith,
}
use the_soverign_imperia_cit.Base.Text.{Text}
use the_soverign_imperia_cit.Retrieval.Chunker.{
  ends_line, extend, splitlines, byte_length, offsets_from, line_byte_offsets, concat,
}

concat-extend : (c : ℕ) (lines : List Text) → concat (extend c lines) ≡ c ∷ concat lines
unfolding concat
concat-extend c [] = refl
concat-extend c (l ∷ lines) = refl

-- The lines put together are the text.
pub concat-splitlines : (s : Text) → concat (splitlines s) ≡ s
unfolding concat splitlines
concat-splitlines [] = refl
concat-splitlines (c ∷ s) = elim (Bool-cases (ends_line c s)) [
  | inl e ↦ rw e (ap (λ t. c ∷ t) (concat-splitlines s))
  | inr e ↦ rw (e, concat-extend c (splitlines s)) (ap (λ t. c ∷ t) (concat-splitlines s))
]

byte_length-append : (s t : Text) → byte_length (s ++ t) ≡ byte_length s + byte_length t
unfolding byte_length
byte_length-append [] t = omega arith
byte_length-append (c ∷ s) t = omega (arith, byte_length-append s t)

-- The bytes of the first lines.
abbrev pub offset : List Text → ℕ → ℕ
offset lines k = byte_length (concat (take k lines))

nth-offsets_from :
    (acc : ℕ) (lines : List Text) (k : ℕ)
    → k ≤ length lines
    → nth 0 (offsets_from acc lines) k ≡ acc + offset lines k
unfolding offsets_from concat byte_length
nth-offsets_from acc [] zero h = omega arith
nth-offsets_from acc [] (suc k) h = absurd (omega arith)
nth-offsets_from acc (l ∷ lines) zero h = omega arith
nth-offsets_from acc (l ∷ lines) (suc k) h = omega (
  arith,
  nth-offsets_from (acc + byte_length l) lines k (omega arith),
  byte_length-append l (concat (take k lines)),
)

-- The list of offsets holds the bytes before each line.
pub nth-line_byte_offsets :
    (lines : List Text) (k : ℕ)
    → k ≤ length lines
    → nth 0 (line_byte_offsets lines) k ≡ offset lines k
unfolding line_byte_offsets
nth-line_byte_offsets lines k h = omega (arith, nth-offsets_from 0 lines k h)

-- The bytes of a window are the difference of the offsets around it.
pub offset-window :
    (lines : List Text) (start count stop : ℕ)
    → start + count ≡ stop
    → offset lines stop ≡ offset lines start + byte_length (concat (take count (drop start lines)))
unfolding concat byte_length
offset-window lines zero count stop e = let e' : stop ≡ count = omega arith in rw e' (omega arith)
offset-window [] (suc start) count zero e = absurd (omega arith)
offset-window [] (suc start) zero (suc stop) e = refl
offset-window [] (suc start) (suc count) (suc stop) e = refl
offset-window (l ∷ lines) (suc start) count zero e = absurd (omega arith)
offset-window (l ∷ lines) (suc start) count (suc stop) e = omega (
  arith,
  offset-window lines start count stop (omega arith),
  byte_length-append l (concat (take stop lines)),
  byte_length-append l (concat (take start lines)),
)
