-- ===== src/Tools/Bloom.antt =====
-- tools/_content_address.py: the Bloom filter on its bytes, and its file. A rate of false positives is
-- a float, given by its 64 bits; what the source computes in floats and the two halves of the digest of an
-- item are parameters. `none` is an
-- IndexError, a ValueError or a struct.error.
pub mod Kept
pub mod Marked
pub mod Saved
use Prim.Native.Nat.{bit_and, bit_or}
use the_soverign_imperia_cit.Base.{
  ℕ, zero, suc, ◌+◌, ◌*◌, ◌/◌, ◌%◌, ◌^◌, ◌-◌, max, String, List, [], ◌∷◌, ◌++◌, Bool, true, false,
  not, ◌&&◌, ◌||◌, Option, none, some, ltb, ◌==◌, length, take, drop, if◌then◌else◌,
}

abbrev pub Bytes : Type 0
Bytes = List ℕ

pub record BloomFilter : Type 0 where
  pub capacity : ℕ
  pub fp_rate : ℕ
  pub n_bits : ℕ
  pub n_hashes : ℕ
  pub bits : Bytes
  pub count : ℕ

-- What is computed in floats: `0 < fp_rate < 1`, `ceil(-capacity * log(fp_rate) / log(2) ** 2)`,
-- `round(n_bits / capacity * log(2))` and `(1 - exp(-n_hashes * capacity / n_bits)) ** n_hashes`.
pub record Rates : Type 0 where
  pub in_range : ℕ → Bool
  pub bits : ℕ → ℕ → ℕ
  pub hashes : ℕ → ℕ → ℕ
  pub optimal_fp_rate : ℕ → ℕ → ℕ → ℕ

abbrev pub zeros : ℕ → Bytes
zeros zero = []
zeros (suc n) = 0 ∷ zeros n

-- The constructor.
unfoldable pub init : Rates → ℕ → ℕ → Option BloomFilter
init rates capacity fp_rate =
    let n_bits = max 1 (rates.bits capacity fp_rate) in
    if ltb capacity 1 || not (rates.in_range fp_rate)
    then none
    else some (record {
      capacity = capacity;
      fp_rate = fp_rate;
      n_bits = n_bits;
      n_hashes = max 1 (rates.hashes n_bits capacity);
      bits = zeros ((n_bits + 7) / 8);
      count = 0;
    })

-- `bits[i] |= mask`
unfoldable pub mark : Bytes → ℕ → ℕ → Option Bytes
mark [] i mask = none
mark (b ∷ bits) zero mask = some (bit_or b mask ∷ bits)
mark (b ∷ bits) (suc i) mask = elim (mark bits i mask) [ none ↦ none | some rest ↦ some (b ∷ rest) ]

-- `bits[i] & mask`, as a test.
unfoldable pub is_marked : Bytes → ℕ → ℕ → Option Bool
is_marked [] i mask = none
is_marked (b ∷ bits) zero mask = some (ltb 0 (bit_and b mask))
is_marked (b ∷ bits) (suc i) mask = is_marked bits i mask

-- `_hash_indices` from a number of rounds on.
unfoldable pub indices_from : ℕ → ℕ → ℕ → ℕ → ℕ → List ℕ
indices_from zero i h1 h2 n_bits = []
indices_from (suc rounds) i h1 h2 n_bits =
    (h1 + i * h2) % n_bits ∷ indices_from rounds (suc i) h1 h2 n_bits

unfoldable pub hash_indices : (String → ℕ × ℕ) → BloomFilter → String → List ℕ
unfolding indices_from
hash_indices halves b item = indices_from b.n_hashes 0 (halves item).0 (halves item).1 b.n_bits

abbrev pub mark_next : Option Bytes → ℕ → Option Bytes
mark_next none idx = none
mark_next (some bits) idx = mark bits (idx / 8) (2 ^ (idx % 8))

unfoldable pub mark_all : Option Bytes → List ℕ → Option Bytes
unfolding mark
mark_all bits [] = bits
mark_all bits (idx ∷ rest) = mark_all (mark_next bits idx) rest

abbrev pub counted : BloomFilter → Option Bytes → Option BloomFilter
counted b none = none
counted b (some bits) = some (record b { bits = bits; count = suc b.count })

-- `add` and `add_hash`
unfoldable pub add : (String → ℕ × ℕ) → BloomFilter → String → Option BloomFilter
unfolding hash_indices mark_all
add halves b item = counted b (mark_all (some b.bits) (hash_indices halves b item))

abbrev pub and_then : Option Bool → Option Bool → Option Bool
and_then none rest = none
and_then (some false) rest = some false
and_then (some true) rest = rest

unfoldable pub all_marked : Bytes → List ℕ → Option Bool
unfolding is_marked
all_marked bits [] = some true
all_marked bits (idx ∷ rest) =
    and_then (is_marked bits (idx / 8) (2 ^ (idx % 8))) (all_marked bits rest)

-- `__contains__` and `contains_hash`
unfoldable pub contains : (String → ℕ × ℕ) → BloomFilter → String → Option Bool
unfolding hash_indices all_marked
contains halves b item = all_marked b.bits (hash_indices halves b item)

-- `struct.pack(">I", n)`
unfoldable pub word : ℕ → Bytes
word n = (n / 16777216) % 256 ∷ (n / 65536) % 256 ∷ (n / 256) % 256 ∷ n % 256 ∷ []

-- The header `>4sBIIIIQ` and the bytes.
unfoldable pub encoded : BloomFilter → Bytes
unfolding word
encoded b =
    b'V' ∷ b'B' ∷ b'F' ∷ b'X' ∷ 1 ∷ word b.n_bits
    ++ word b.n_hashes
    ++ word b.capacity
    ++ word (length b.bits)
    ++ word (b.count / 4294967296)
    ++ word (b.count % 4294967296)
    ++ b.bits

-- The sizes fit into their fields.
unfoldable pub fits : BloomFilter → Bool
fits b =
    ltb b.n_bits 4294967296
    && (ltb b.n_hashes 4294967296
        && (ltb b.capacity 4294967296
            && (ltb (length b.bits) 4294967296 && ltb b.count 18446744073709551616)))

unfoldable pub save : BloomFilter → Option Bytes
unfolding encoded fits
save b = if fits b then some (encoded b) else none

abbrev pub unword : ℕ → ℕ → ℕ → ℕ → ℕ
unword a b c d = a * 16777216 + b * 65536 + c * 256 + d

abbrev unpack_words : Rates → List ℕ → Option BloomFilter
unpack_words rates
      (a0 ∷ a1 ∷ a2 ∷ a3 ∷ b0 ∷ b1 ∷ b2 ∷ b3 ∷ c0 ∷ c1 ∷ c2 ∷ c3 ∷ l0 ∷ l1 ∷ l2 ∷ l3 ∷ n0 ∷ n1 ∷ n2
        ∷ n3 ∷ m0 ∷ m1 ∷ m2 ∷ m3 ∷ rest) =
    some (record {
      capacity = unword c0 c1 c2 c3;
      fp_rate =
          rates.optimal_fp_rate (unword a0 a1 a2 a3) (unword c0 c1 c2 c3) (unword b0 b1 b2 b3);
      n_bits = unword a0 a1 a2 a3;
      n_hashes = unword b0 b1 b2 b3;
      bits = take (unword l0 l1 l2 l3) rest;
      count = unword n0 n1 n2 n3 * 4294967296 + unword m0 m1 m2 m3;
    })
unpack_words rates short = none

-- `load`; the version is not looked at, and the rate is computed again.
unfoldable pub load : Rates → Bytes → Option BloomFilter
load rates (c0 ∷ c1 ∷ c2 ∷ c3 ∷ version ∷ rest) =
    let unpacked = unpack_words rates rest in
    if (c0 == b'V') && ((c1 == b'B') && ((c2 == b'F') && (c3 == b'X'))) then unpacked else none
load rates short = none
