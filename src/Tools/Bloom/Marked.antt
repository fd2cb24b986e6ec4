-- ===== src/Tools/Bloom/Marked.antt =====
-- What marking bits does to the bytes of a filter.
use mathlib.Core.Path.{subst}
use native.Mathlib.Nat.{mod-lt}
use Prim.Native.Nat.{bit_and, bit_or}
use the_soverign_imperia_cit.Base.{
  ℕ, zero, suc, ◌+◌, ◌*◌, ◌/◌, ◌%◌, ◌^◌, ◌<◌, ◌≤◌, ◌≡◌, refl, ap, ◌∙◌, List, [], ◌∷◌, Bool, true,
  false, Option, none, some, length, All, arith,
}
use the_soverign_imperia_cit.Base.Marks.{bit_and-bit_or, bit_and-bit_or-le}
use the_soverign_imperia_cit.Tools.Bloom.{
  Bytes, mark, is_marked, indices_from, mark_all, and_then, all_marked,
}

-- Every bit of the first bytes is in the others, which are as many.
abbrev pub IsWithin : Bytes → Bytes → Type 0
IsWithin [] [] = Unit
IsWithin [] (c ∷ after) = ⊥
IsWithin (b ∷ bits) [] = ⊥
IsWithin (b ∷ bits) (c ∷ after) = ((m : ℕ) → bit_and b m ≤ bit_and c m) × IsWithin bits after

IsWithin-refl : (bits : Bytes) → IsWithin bits bits
IsWithin-refl [] = tt
IsWithin-refl (b ∷ bits) = (λ m. omega arith, IsWithin-refl bits)

IsWithin-trans : (x y z : Bytes) → IsWithin x y → IsWithin y z → IsWithin x z
IsWithin-trans [] [] [] h k = tt
IsWithin-trans [] [] (c ∷ z) h k = k
IsWithin-trans [] (b ∷ y) z h k = elim h [ ]
IsWithin-trans (a ∷ x) [] z h k = elim h [ ]
IsWithin-trans (a ∷ x) (b ∷ y) [] h k = elim k [ ]
IsWithin-trans (a ∷ x) (b ∷ y) (c ∷ z) (f, h) (g, k) =
    (λ m. omega (arith, f m, g m), IsWithin-trans x y z h k)

pub length-IsWithin : (x y : Bytes) → IsWithin x y → length x ≡ length y
length-IsWithin [] [] h = refl
length-IsWithin [] (c ∷ y) h = elim h [ ]
length-IsWithin (b ∷ x) [] h = elim h [ ]
length-IsWithin (b ∷ x) (c ∷ y) (f, h) = ap suc (length-IsWithin x y h)

pub is_marked-IsWithin :
    (x y : Bytes) (i m : ℕ)
    → IsWithin x y
    → is_marked x i m ≡ some true
    → is_marked y i m ≡ some true
unfolding is_marked
is_marked-IsWithin [] y i m h e = absurd (ground (arith, e))
is_marked-IsWithin (b ∷ x) [] i m h e = elim h [ ]
is_marked-IsWithin (b ∷ x) (c ∷ y) zero m (f, h) e = ground (arith, e, f m)
is_marked-IsWithin (b ∷ x) (c ∷ y) (suc i) m (f, h) e = is_marked-IsWithin x y i m h e

-- Marking inside the bytes gives bytes with that mark.
abbrev IsMarked : Bytes → ℕ → ℕ → Option Bytes → Type 0
IsMarked bits i m out =
    (after : Bytes) × (out ≡ some after) × IsWithin bits after × (is_marked after i m ≡ some true)

mark-IsMarked :
    (bits : Bytes) (i m : ℕ) → i < length bits → 0 < m → IsMarked bits i m (mark bits i m)
unfolding mark is_marked
mark-IsMarked [] i m h p = absurd (omega arith)
mark-IsMarked (b ∷ bits) zero m h p = (
  bit_or b m ∷ bits,
  refl,
  ((λ n. bit_and-bit_or-le n b m), IsWithin-refl bits),
  ground (arith, bit_and-bit_or m b),
)
mark-IsMarked (b ∷ bits) (suc i) m h p =
    let (after, e, w, k) = mark-IsMarked bits i m (omega arith) p in
    (b ∷ after, rw e refl, ((λ n. omega arith), w), k)

pow-positive : (k : ℕ) → 0 < 2 ^ k
pow-positive zero = omega arith
pow-positive (suc k) = omega (arith, pow-positive k)

-- Each index is below the number of bits.
abbrev pub AreBelow : ℕ → List ℕ → Type 0
AreBelow n idxs = All (λ i. i < n) idxs

pub indices_from-AreBelow :
    (rounds i h1 h2 n : ℕ) → 1 ≤ n → AreBelow n (indices_from rounds i h1 h2 n)
unfolding indices_from
indices_from-AreBelow zero i h1 h2 n h = tt
indices_from-AreBelow (suc rounds) i h1 h2 n h =
    (mod-lt (h1 + i * h2) (omega arith), indices_from-AreBelow rounds (suc i) h1 h2 n h)

and_then-true : (a b : Option Bool) → and_then a b ≡ some true → (a ≡ some true) × (b ≡ some true)
and_then-true none b e = absurd (ground (arith, e))
and_then-true (some false) b e = absurd (ground (arith, e))
and_then-true (some true) b e = (refl, e)

pub all_marked-IsWithin :
    (x y : Bytes) (idxs : List ℕ)
    → IsWithin x y
    → all_marked x idxs ≡ some true
    → all_marked y idxs ≡ some true
unfolding all_marked
all_marked-IsWithin x y [] h e = refl
all_marked-IsWithin x y (i ∷ idxs) h e =
    let (a, b) = and_then-true (is_marked x (i / 8) (2 ^ (i % 8))) (all_marked x idxs) e in
    rw (is_marked-IsWithin x y (i / 8) (2 ^ (i % 8)) h a) (all_marked-IsWithin x y idxs h b)

-- Marking indices inside the bytes gives bytes with all of them.
abbrev pub AreMarked : Bytes → List ℕ → Option Bytes → Type 0
AreMarked bits idxs out =
    (after : Bytes) × (out ≡ some after) × IsWithin bits after × (all_marked after idxs ≡ some true)

pub mark_all-AreMarked :
    (bits : Bytes) (idxs : List ℕ)
    → AreBelow (8 * length bits) idxs
    → AreMarked bits idxs (mark_all (some bits) idxs)
unfolding mark_all all_marked
mark_all-AreMarked bits [] h = (bits, refl, IsWithin-refl bits, refl)
mark_all-AreMarked bits (i ∷ idxs) (below, h) =
    let (mid, e, w, k) =
      mark-IsMarked bits (i / 8) (2 ^ (i % 8)) (omega arith) (pow-positive (i % 8)) in
    let (after, f, v, l) =
      mark_all-AreMarked mid idxs
        (subst (λ n. AreBelow (8 * n) idxs) (length-IsWithin bits mid w) h) in
    (
      after,
      ap (λ x. mark_all x idxs) e ∙ f,
      IsWithin-trans bits mid after w v,
      rw (is_marked-IsWithin mid after (i / 8) (2 ^ (i % 8)) v k) l,
    )

pub raised : (n m : ℕ) (idxs : List ℕ) → n ≤ m → AreBelow n idxs → AreBelow m idxs
raised n m [] le h = tt
raised n m (i ∷ idxs) le (p, h) = (omega arith, raised n m idxs le h)
