-- ===== src/Base/Text.antt =====
-- Text that the program walks, as a list of code points: `startswith`, `endswith`, `in`, `replace`.
use Prim.Native.Nat.{ℕ, ◌+◌}
use Prim.Native.Char.{code}
use Prim.Native.String.{String}
use mathlib.Core.Bool.{Bool, true, false, ◌&&◌, ◌||◌}
use mathlib.Core.List.{List, [], ◌∷◌, ◌++◌, reverse, reverse-append, reverse-reverse}
use mathlib.Core.Logic.{◌↔◌}
use mathlib.Core.Path.{◌≡◌, refl, sym, ap, ◌∙◌}
use native.Mathlib.Omega.{arith}
use the_soverign_imperia_cit.Base.Tests.{◌==◌, leb, if◌then◌else◌}

abbrev pub Text : Type 0
Text = List ℕ

abbrev pub codes : String → Text
codes String.[] = []
codes (String.◌∷◌ c s) = code c ∷ codes s

-- `s.startswith(p)`, the prefix first.
unfoldable pub starts_with : Text → Text → Bool
starts_with [] s = true
starts_with (c ∷ p) [] = false
starts_with (c ∷ p) (d ∷ s) = c == d && starts_with p s

-- `s.endswith(p)`.
unfoldable pub ends_with : Text → Text → Bool
unfolding starts_with
ends_with p s = starts_with (reverse p) (reverse s)

-- `p in s`.
unfoldable pub occurs_in : Text → Text → Bool
unfolding starts_with
occurs_in p [] = starts_with p []
occurs_in p (c ∷ s) = if starts_with p (c ∷ s) then true else occurs_in p s

-- `str.lower` on ASCII letters.
unfoldable pub lower : ℕ → ℕ
lower c = if leb b'A' c && leb c b'Z' then c + 32 else c

-- `==` on texts.
unfoldable pub same : Text → Text → Bool
same [] [] = true
same [] (d ∷ s) = false
same (c ∷ p) [] = false
same (c ∷ p) (d ∷ s) = c == d && same p s

pub same_iff : (p s : Text) → (same p s ≡ true) ↔ (p ≡ s)
unfolding same
same_iff [] [] = ground arith
same_iff [] (d ∷ s) = ground arith
same_iff (c ∷ p) [] = ground arith
same_iff (c ∷ p) (d ∷ s) = ground (arith, same_iff p s)

-- `str.strip` with the white space of ASCII.
unfoldable pub is_space : ℕ → Bool
is_space c = c == 32 || ((leb 9 c && leb c 13) || (leb 28 c && leb c 31))

unfoldable pub lstrip : Text → Text
unfolding is_space
lstrip [] = []
lstrip (c ∷ s) = let rest = lstrip s in if is_space c then rest else c ∷ s

unfoldable pub strip : Text → Text
unfolding lstrip
strip s = reverse (lstrip (reverse (lstrip s)))

-- `sep.join(ss)`
unfoldable pub join : Text → List Text → Text
join sep [] = []
join sep (s ∷ []) = s
join sep (s ∷ t ∷ ss) = s ++ sep ++ join sep (t ∷ ss)

-- `s + t` on strings.
unfoldable pub append : String → String → String
append String.[] t = t
append (String.◌∷◌ c s) t = String.◌∷◌ c (append s t)

pub starts_with-split : (p s : Text) → starts_with p s ≡ true → (rest : Text) × (s ≡ p ++ rest)
unfolding starts_with
starts_with-split [] s e = (s, refl)
starts_with-split (c ∷ p) [] e = absurd (ground (arith, e))
starts_with-split (c ∷ p) (d ∷ s) e =
    let (rest, q) = starts_with-split p s (ground (arith, e)) in
    let same : d ≡ c = ground (arith, e) in (rest, ap (λ h. h ∷ s) same ∙ ap (λ l. c ∷ l) q)

starts_with-append : (p rest : Text) → starts_with p (p ++ rest) ≡ true
unfolding starts_with
starts_with-append [] rest = refl
starts_with-append (c ∷ p) rest = ground (arith, starts_with-append p rest)

pub ends_with-split : (p s : Text) → ends_with p s ≡ true → (front : Text) × (s ≡ front ++ p)
unfolding ends_with
ends_with-split p s e =
    let (rest, q) = starts_with-split (reverse p) (reverse s) e in
    (
      reverse rest,
      sym (reverse-reverse s)
          ∙ ap reverse q
          ∙ reverse-append (reverse p) rest
          ∙ ap (λ t. reverse rest ++ t) (reverse-reverse p),
    )

pub ends_with-append : (p front : Text) → ends_with p (front ++ p) ≡ true
unfolding ends_with
ends_with-append p front =
    ap (starts_with (reverse p)) (reverse-append front p)
    ∙ starts_with-append (reverse p) (reverse front)
