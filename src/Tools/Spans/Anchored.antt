-- ===== src/Tools/Spans/Anchored.antt =====
-- The span of a snippet holds the snippet.
use mathlib.Core.Path.{subst}
use the_soverign_imperia_cit.Base.{
  ℕ, zero, suc, ◌+◌, ◌-◌, ◌<◌, ◌≡◌, refl, sym, ap, ◌∙◌, [], ◌∷◌, true, false, Option, none, some,
  inl, inr, leb, ◌==◌, length, take, drop, arith, Bool-cases, Option-cases,
}
use the_soverign_imperia_cit.Base.Text.{Text, same_iff, starts_with}
use the_soverign_imperia_cit.Tools.Spans.{
  Encoding, canonicalize, ByteSpan, post_init, extract, verify, later, find, anchored, span_at,
  find_span,
}

take-starts_with : (p s : Text) → starts_with p s ≡ true → take (length p) s ≡ p
unfolding starts_with
take-starts_with [] s h = refl
take-starts_with (c ∷ p) [] h = absurd (ground (arith, h))
take-starts_with (c ∷ p) (d ∷ s) h =
    let e : d ≡ c = ground (arith, h) in rw (e, take-starts_with p s (ground (arith, h))) refl

later-some : (o : Option ℕ) (i : ℕ) → later o ≡ some i → (j : ℕ) × (o ≡ some j) × (suc j ≡ i)
later-some none i h = absurd (ground (arith, h))
later-some (some j) i h = (j, refl, ground (arith, h))

-- Where `find` finds, there is the needle.
take-find :
    (needle s : Text) (i : ℕ) → find needle s ≡ some i → take (length needle) (drop i s) ≡ needle
unfolding find
take-find needle [] i h = elim (Bool-cases (starts_with needle [])) [
  | inl e ↦
      let z : 0 ≡ i = ground (arith, h, e) in
      subst (λ k. take (length needle) (drop k []) ≡ needle) z (take-starts_with needle [] e)
  | inr e ↦ absurd (ground (arith, h, e))
]
take-find needle (c ∷ s) i h = elim (Bool-cases (starts_with needle (c ∷ s))) [
  | inl e ↦
      let z : 0 ≡ i = ground (arith, h, e) in
      subst (λ k. take (length needle) (drop k (c ∷ s)) ≡ needle) z
        (take-starts_with needle (c ∷ s) e)
  | inr e ↦
      let (j, f, n) = later-some (find needle s) i (ground (arith, h, e)) in
      subst (λ k. take (length needle) (drop k (c ∷ s)) ≡ needle) n (take-find needle s j f)
]

-- No earlier place holds the needle.
abbrev IsFirst : Text → Text → ℕ → Type 0
IsFirst needle s i = (j : ℕ) → j < i → starts_with needle (drop j s) ≡ false

find-IsFirst : (needle s : Text) (i : ℕ) → find needle s ≡ some i → IsFirst needle s i
unfolding find
find-IsFirst needle [] i h j lt = elim (Bool-cases (starts_with needle [])) [
  | inl e ↦ let z : 0 ≡ i = ground (arith, h, e) in absurd (omega (arith, z))
  | inr e ↦ absurd (ground (arith, h, e))
]
find-IsFirst needle (c ∷ s) i h zero lt = elim (Bool-cases (starts_with needle (c ∷ s))) [
  | inl e ↦ let z : 0 ≡ i = ground (arith, h, e) in absurd (omega (arith, z))
  | inr e ↦ e
]
find-IsFirst needle (c ∷ s) i h (suc j) lt = elim (Bool-cases (starts_with needle (c ∷ s))) [
  | inl e ↦ let z : 0 ≡ i = ground (arith, h, e) in absurd (omega (arith, z))
  | inr e ↦
      let (k, f, n) = later-some (find needle s) i (ground (arith, h, e)) in
      find-IsFirst needle s k f j (omega (arith, n))
]

-- The span is that of the digest of the source, starts where the snippet first is, and verifies.
abbrev pub IsAnchored : Encoding → Text → Text → ByteSpan → Type 0
IsAnchored e source_canonical snippet s =
    (s.source_hash ≡ e.sha256_hex source_canonical)
    × (verify e s source_canonical snippet ≡ true)
    × ((j : ℕ)
        → j < s.char_start
        → starts_with (canonicalize e snippet) (drop j source_canonical) ≡ false)

made_of : (s t : ByteSpan) → anchored (post_init s) ≡ inr (some t) → s ≡ t
unfolding post_init
made_of s t h = elim (Bool-cases (length s.source_hash == 64)) [
  | inr a ↦ absurd (ground (arith, h, a))
  | inl a ↦ elim (Bool-cases (leb s.char_end s.char_start)) [
    | inl b ↦ absurd (ground (arith, h, a, b))
    | inr b ↦ ground (arith, h, a, b)
  ]
]

at-IsAnchored :
    (e : Encoding) (source_canonical snippet : Text) (i : ℕ)
    → find (canonicalize e snippet) source_canonical ≡ some i
    → IsAnchored e source_canonical snippet (record {
      source_hash = e.sha256_hex source_canonical;
      char_start = i;
      char_end = i + length (canonicalize e snippet);
    })
unfolding verify extract
at-IsAnchored e source_canonical snippet i f =
    let needle = canonicalize e snippet in
    let width : i + length needle - i ≡ length needle = omega arith in
    (
      refl,
      (same_iff _ needle).1 (
          ap (λ n. take n (drop i source_canonical)) width ∙ take-find needle source_canonical i f),
      find-IsFirst needle source_canonical i f,
    )

-- A span that `find_span` gives carries the digest of the source, starts at the first place that holds the
-- canonical snippet, and is verified against the source and the snippet.
pub find_span-IsAnchored :
    (e : Encoding) (source_canonical snippet : Text) (s : ByteSpan)
    → find_span e source_canonical snippet ≡ inr (some s)
    → IsAnchored e source_canonical snippet s
unfolding find_span
find_span-IsAnchored e source_canonical snippet s h =
    elim (Option-cases (find (canonicalize e snippet) source_canonical)) [
      | inl n ↦ absurd (ground (arith, h, n))
      | inr (i, f) ↦
          let k = ap (span_at e source_canonical (canonicalize e snippet)) (sym f) ∙ h in
          subst (IsAnchored e source_canonical snippet) (made_of _ s k)
            (at-IsAnchored e source_canonical snippet i f)
    ]
