-- ===== src/Tools/Bloom/Kept.antt =====
-- What a filter keeps when items are added.
use mathlib.Core.Path.{subst}
use the_soverign_imperia_cit.Base.{
  ℕ, zero, suc, ◌+◌, ◌*◌, ◌/◌, ◌%◌, ◌^◌, ◌<◌, ◌≤◌, max, String, ◌≡◌, ◌≢◌, refl, sym, ap, ◌∙◌, List,
  [], ◌∷◌, Bool, true, false, Option, none, some, ◌&&◌, ltb, length, All, arith, Bool-cases, not,
  ◌||◌, inl, inr,
}
use the_soverign_imperia_cit.Tools.Bloom.{
  Rates, Bytes, BloomFilter, is_marked, hash_indices, counted, init, zeros, add, and_then,
  all_marked, contains, fits,
}
use the_soverign_imperia_cit.Tools.Bloom.Marked.{
  length-IsWithin, all_marked-IsWithin, mark_all-AreMarked, raised, AreBelow, indices_from-AreBelow,
}

-- The bits lie in the bytes.
pub record IsSized (b : BloomFilter) : Type 0 where
  pub some_bits : 1 ≤ b.n_bits
  pub room : b.n_bits ≤ 8 * length b.bits

-- The filter has the room that it had, the new item, and every item that was there.
abbrev pub IsAdded : (String → ℕ × ℕ) → BloomFilter → String → Option BloomFilter → Type 0
IsAdded halves b item out =
    (b' : BloomFilter) × (out ≡ some b')
    × IsSized b'
    × (fits b' ≡ fits (record b { count = suc b.count }))
    × (contains halves b' item ≡ some true)
    × ((other : String)
        → contains halves b other ≡ some true
        → contains halves b' other ≡ some true)

pub add-IsAdded :
    (halves : String → ℕ × ℕ) (b : BloomFilter) (item : String)
    → IsSized b
    → IsAdded halves b item (add halves b item)
unfolding add contains hash_indices fits
add-IsAdded halves b item h =
    let r = h.room in
    let (after, e, w, k) = mark_all-AreMarked b.bits (hash_indices halves b item) (
      raised b.n_bits (8 * length b.bits) (hash_indices halves b item) r (
        indices_from-AreBelow b.n_hashes 0 (halves item).0 (halves item).1 b.n_bits h.some_bits)) in
    let l = length-IsWithin b.bits after w in
    (
      record b { bits = after; count = suc b.count },
      ap (counted b) e,
      record { some_bits = h.some_bits; room = omega (arith, r, l) },
      ap
          (λ n.
            ltb b.n_bits 4294967296
            && (ltb b.n_hashes 4294967296
                && (ltb b.capacity 4294967296
                    && (ltb n 4294967296 && ltb (suc b.count) 18446744073709551616))))
          (sym l),
      k,
      λ other m. all_marked-IsWithin b.bits after (hash_indices halves b other) w m,
    )

abbrev pub add_all : (String → ℕ × ℕ) → Option BloomFilter → List String → Option BloomFilter
add_all halves none items = none
add_all halves (some b) [] = some b
add_all halves (some b) (item ∷ items) = add_all halves (add halves b item) items

zeros-length : (n : ℕ) → length (zeros n) ≡ n
zeros-length zero = refl
zeros-length (suc n) = omega (arith, zeros-length n)

pub init-IsSized :
    (rates : Rates) (capacity fp_rate : ℕ) (b : BloomFilter)
    → init rates capacity fp_rate ≡ some b
    → IsSized b
unfolding init
init-IsSized rates capacity fp_rate b e =
    elim (Bool-cases (ltb capacity 1 || not (rates.in_range fp_rate))) [
      | inl c ↦ absurd (ground (arith, e, c))
      | inr c ↦ subst (λ x. IsSized x) (ground (arith, e, c)) ok
    ]
  where
    size : ℕ
    size = max 1 (rates.bits capacity fp_rate)

    ok : IsSized (record {
      capacity = capacity;
      fp_rate = fp_rate;
      n_bits = size;
      n_hashes = max 1 (rates.hashes size capacity);
      bits = zeros ((size + 7) / 8);
      count = 0;
    })
    ok = record { some_bits = omega arith; room = omega (arith, zeros-length ((size + 7) / 8)) }

-- The filter has its room, the items, and what it had before.
abbrev pub AreAdded : (String → ℕ × ℕ) → BloomFilter → List String → Option BloomFilter → Type 0
AreAdded halves b items out =
    (b' : BloomFilter) × (out ≡ some b')
    × IsSized b'
    × All (λ item. contains halves b' item ≡ some true) items
    × ((other : String)
        → contains halves b other ≡ some true
        → contains halves b' other ≡ some true)

-- A filter whose bits lie in its bytes takes any items, with no index out of range, and afterwards says of
-- each of them, and of each item that it knew, that it might be there.
pub add_all-AreAdded :
    (halves : String → ℕ × ℕ) (b : BloomFilter) (items : List String)
    → IsSized b
    → AreAdded halves b items (add_all halves (some b) items)
add_all-AreAdded halves b [] h = (b, refl, h, tt, λ other m. m)
add_all-AreAdded halves b (item ∷ items) h =
    let (mid, e, sized, same_sizes, has, kept) = add-IsAdded halves b item h in
    let (after, f, sized', all, kept') = add_all-AreAdded halves mid items sized in
    (
      after,
      ap (λ x. add_all halves x items) e ∙ f,
      sized',
      (kept' item has, all),
      λ other m. kept' other (kept other m),
    )

is_marked-total : (bits : Bytes) (i m : ℕ) → i < length bits → is_marked bits i m ≢ none
unfolding is_marked
is_marked-total [] i m h = absurd (omega arith)
is_marked-total (b ∷ bits) zero m h = λ e. ground (arith, e)
is_marked-total (b ∷ bits) (suc i) m h = is_marked-total bits i m (omega arith)

and_then-total : (a b : Option Bool) → a ≢ none → b ≢ none → and_then a b ≢ none
and_then-total none b h k = absurd (h refl)
and_then-total (some false) b h k = λ e. ground (arith, e)
and_then-total (some true) b h k = k

all_marked-total :
    (bits : Bytes) (idxs : List ℕ) → AreBelow (8 * length bits) idxs → all_marked bits idxs ≢ none
unfolding all_marked
all_marked-total bits [] h = λ e. ground (arith, e)
all_marked-total bits (i ∷ idxs) (p, h) =
    and_then-total (is_marked bits (i / 8) (2 ^ (i % 8))) (all_marked bits idxs)
      (is_marked-total bits (i / 8) (2 ^ (i % 8)) (omega arith)) (all_marked-total bits idxs h)

-- Asking a filter with room is no index out of range.
pub contains-total :
    (halves : String → ℕ × ℕ) (b : BloomFilter) (item : String)
    → IsSized b
    → contains halves b item ≢ none
unfolding contains hash_indices
contains-total halves b item h =
    let r = h.room in
    all_marked-total b.bits (hash_indices halves b item) (
      raised b.n_bits (8 * length b.bits) (hash_indices halves b item) r
        (indices_from-AreBelow b.n_hashes 0 (halves item).0 (halves item).1 b.n_bits h.some_bits))
