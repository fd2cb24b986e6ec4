-- ===== src/Tools/Bloom/Saved.antt =====
-- A filter from its file.
use the_soverign_imperia_cit.Base.{
  ℕ, String, ◌+◌, ◌*◌, ◌/◌, ◌%◌, ◌<◌, ◌≡◌, refl, sym, ap, ◌∙◌, [], ◌∷◌, true, some, length, take,
  arith, Bool-cases, inl, inr,
}
use the_soverign_imperia_cit.Tools.Bloom.{
  Bytes, BloomFilter, word, fits, encoded, save, unword, load, Rates, contains, hash_indices,
}

take-length : (xs : Bytes) → take (length xs) xs ≡ xs
take-length [] = refl
take-length (x ∷ xs) = ap (λ t. x ∷ t) (take-length xs)

-- The number that the bytes of a word give.
unword-word :
    (n : ℕ)
    → n < 4294967296
    → unword ((n / 16777216) % 256) ((n / 65536) % 256) ((n / 256) % 256) (n % 256) ≡ n
unword-word n h = omega arith

count_halves :
    (n : ℕ)
    → n < 18446744073709551616
    → unword
            ((n / 4294967296 / 16777216) % 256)
            ((n / 4294967296 / 65536) % 256)
            ((n / 4294967296 / 256) % 256)
            (n / 4294967296 % 256)
          * 4294967296
        + unword
            ((n % 4294967296 / 16777216) % 256)
            ((n % 4294967296 / 65536) % 256)
            ((n % 4294967296 / 256) % 256)
            (n % 4294967296 % 256)
      ≡ n
count_halves n h =
    omega (
      arith,
      unword-word (n / 4294967296) (omega arith),
      unword-word (n % 4294967296) (omega arith),
    )

-- The filter with the rate that its sizes give.
abbrev pub rated : Rates → BloomFilter → BloomFilter
rated rates b = record b { fp_rate = rates.optimal_fp_rate b.n_bits b.capacity b.n_hashes }

load-encoded :
    (rates : Rates) (b : BloomFilter)
    → fits b ≡ true
    → load rates (encoded b) ≡ some (rated rates b)
unfolding load encoded word fits
load-encoded rates b h =
    rw
      (
        unword-word b.n_bits (ground (arith, h)),
        unword-word b.n_hashes (ground (arith, h)),
        unword-word b.capacity (ground (arith, h)),
        unword-word (length b.bits) (ground (arith, h)),
        count_halves b.count (ground (arith, h)),
        take-length b.bits,
      )
      refl

-- A filter that `save` writes, since its sizes fit into their fields, is read back by `load` with its
-- sizes, bits and count, and the rate of false positives that its sizes give in place of its own; it
-- answers for every item as the saved one does.
pub load-save :
    (rates : Rates) (b : BloomFilter) (file : Bytes)
    → save b ≡ some file
    → (load rates file ≡ some (rated rates b))
      × ((halves : String → ℕ × ℕ) (item : String)
          → contains halves (rated rates b) item ≡ contains halves b item)
unfolding save contains hash_indices
load-save rates b file e = elim (Bool-cases (fits b)) [
  | inl h ↦
      let k : encoded b ≡ file = ground (arith, e, h) in
      (ap (load rates) (sym k) ∙ load-encoded rates b h, λ halves item. refl)
  | inr h ↦ absurd (ground (arith, e, h))
]
