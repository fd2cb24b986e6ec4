-- ===== src/Retrieval/Chunker/Ink.antt =====
-- When a text is more than white space.
use mathlib.Core.List.{reverse, reverse-cons}
use the_soverign_imperia_cit.Base.{
  ℕ, zero, suc, ◌+◌, ◌≤◌, ◌<◌, ◌≡◌, refl, ap, ◌∙◌, List, [], ◌∷◌, ◌++◌, Bool, true, false, not,
  ◌||◌, any, take, drop, nth, arith, Bool-cases, inl, inr,
}
use the_soverign_imperia_cit.Base.Text.{Text, is_space, lstrip, strip}
use the_soverign_imperia_cit.Retrieval.Chunker.{concat, is_empty}

abbrev pub ink : Text → Bool
ink s = any (λ c. not (is_space c)) s

ink-append : (s t : Text) → ink (s ++ t) ≡ (ink s || ink t)
ink-append [] t = refl
ink-append (c ∷ s) t = ground (arith, ink-append s t)

ink-reverse : (s : Text) → ink (reverse s) ≡ ink s
ink-reverse [] = refl
ink-reverse (c ∷ s) =
    rw (reverse-cons c s) (ground (arith, ink-append (reverse s) (c ∷ []), ink-reverse s))

ink-lstrip : (s : Text) → ink (lstrip s) ≡ ink s
unfolding lstrip
ink-lstrip [] = refl
ink-lstrip (c ∷ s) = elim (Bool-cases (is_space c)) [
  | inl e ↦ ground (arith, ink-lstrip s)
  | inr e ↦ ground arith
]

is_empty-lstrip : (s : Text) → is_empty (lstrip s) ≡ not (ink s)
unfolding lstrip
is_empty-lstrip [] = refl
is_empty-lstrip (c ∷ s) = elim (Bool-cases (is_space c)) [
  | inl e ↦ rw e (is_empty-lstrip s)
  | inr e ↦ rw e refl
]

is_empty-snoc : (s : Text) (c : ℕ) → is_empty (s ++ c ∷ []) ≡ false
is_empty-snoc [] c = refl
is_empty-snoc (d ∷ s) c = refl

is_empty-reverse : (s : Text) → is_empty (reverse s) ≡ is_empty s
is_empty-reverse [] = refl
is_empty-reverse (c ∷ s) = rw (reverse-cons c s) (is_empty-snoc (reverse s) c)

-- A strip leaves nothing exactly when there was only white space.
pub is_empty-strip : (s : Text) → is_empty (strip s) ≡ not (ink s)
unfolding strip
is_empty-strip s =
    is_empty-reverse (lstrip (reverse (lstrip s)))
    ∙ is_empty-lstrip (reverse (lstrip s))
    ∙ ap not (ink-reverse (lstrip s) ∙ ink-lstrip s)

-- A line within a window shows in the body of the window.
pub ink-concat :
    (lines : List Text) (start count i : ℕ)
    → start ≤ i
    → i < start + count
    → ink (nth [] lines i) ≡ true
    → ink (concat (take count (drop start lines))) ≡ true
unfolding concat
ink-concat [] start count i p q h = absurd (ground (arith, h))
ink-concat (l ∷ lines) zero zero i p q h = absurd (omega arith)
ink-concat (l ∷ lines) zero (suc count) zero p q h =
    ground (arith, ink-append l (concat (take count lines)), h)
ink-concat (l ∷ lines) zero (suc count) (suc i) p q h = ground (
  arith,
  ink-append l (concat (take count lines)),
  ink-concat lines zero count i (omega arith) (omega arith) h,
)
ink-concat (l ∷ lines) (suc start) count zero p q h = absurd (omega arith)
ink-concat (l ∷ lines) (suc start) count (suc i) p q h =
    ink-concat lines start count i (omega arith) (omega arith) h
