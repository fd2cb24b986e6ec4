-- ===== src/Examples/Retrieval.antt =====
-- The retrieval services at concrete inputs (src/citadel/services/retrieval).
use the_soverign_imperia_cit.Base.{
  ℕ, zero, suc, ◌+◌, ◌*◌, ◌-◌, ◌≤◌, ◌++◌, String, ◌≡◌, refl, ap, List, [], ◌∷◌, true, false, Option,
  none, some, ltb, leb, ◌==◌, arith, eq_iff,
}
use the_soverign_imperia_cit.Base.Dict
use the_soverign_imperia_cit.Base.Sets
use the_soverign_imperia_cit.Base.Text.{Text, codes}
use the_soverign_imperia_cit.Retrieval.Chunker.{Chunk, chunk_text, chunk_file}
use the_soverign_imperia_cit.Retrieval.Chunker.Windows.{IsChunked, chunk_text-IsChunked}
use the_soverign_imperia_cit.Retrieval.Embeddings.{open_cache, get_many, put_many}
use the_soverign_imperia_cit.Retrieval.Embeddings.Stored.{get_many-put_many}
use the_soverign_imperia_cit.Retrieval.Indexer.{World, Index, IndexResult, index_file}
use the_soverign_imperia_cit.Retrieval.Indexer.Fresh.{at_path-index_file}
use the_soverign_imperia_cit.Retrieval.Service.{Hit, search, context}
use the_soverign_imperia_cit.Retrieval.Service.Packed.{
  total_bytes, IsDistinct, firsts, IsFull, context-IsPacked,
}
use the_soverign_imperia_cit.Retrieval.Vectors.{Floats, VectorRecord, LocalBackend, chunk_id}
use the_soverign_imperia_cit.Retrieval.Vectors.Entries.{at_path, IsKeyed}
use the_soverign_imperia_cit.Retrieval.Vectors.Ids.{IsDecimal, has_hash}
use the_soverign_imperia_cit.Retrieval.Vectors.Ranked.{IsOrder, IsRanked, query-IsRanked}
use the_soverign_imperia_cit.Tools.Oracle

-- Whole numbers in place of floats.
abbrev total : List ℕ → ℕ
total [] = 0
total (x ∷ xs) = x + total xs

abbrev whole : Floats ℕ
whole = record {
  zero = 0;
  one = 1;
  add = λ a b. a + b;
  sub = λ a b. a - b;
  ratio = λ a b. a;
  round4 = λ a. a;
  sum = total;
  mul = λ a b. a * b;
  div = λ a b. a;
  sqrt = λ a. a;
  is_zero = λ a. a == 0;
  lt = ltb;
  ge = λ a b. leb b a;
}

whole-IsOrder : IsOrder whole
whole-IsOrder = record { asym = λ a b h. ground arith; trans = λ a b c h k. ground arith }

-- Numbers in strokes.
abbrev strokes : ℕ → String
strokes zero = ""
strokes (suc n) = String.◌∷◌ "1" (strokes n)

abbrev count_chars : String → ℕ
count_chars String.[] = 0
count_chars (String.◌∷◌ c s) = suc (count_chars s)

count_chars-strokes : (n : ℕ) → count_chars (strokes n) ≡ n
count_chars-strokes zero = refl
count_chars-strokes (suc n) = omega (arith, count_chars-strokes n)

has_hash-strokes : (n : ℕ) → has_hash (strokes n) ≡ false
has_hash-strokes zero = refl
has_hash-strokes (suc n) = has_hash-strokes n

strokes-IsDecimal : IsDecimal strokes
strokes-IsDecimal = record {
  no_hash = has_hash-strokes;
  injective =
      λ m n e. omega (arith, ap count_chars e, count_chars-strokes m, count_chars-strokes n);
}

abbrev digest_first : Text → String
digest_first [] = "empty"
digest_first (c ∷ s) = "full"

chunk_text-IsChunked_example :
    IsChunked digest_first
      (codes "ab\n\ncd\n")
      (chunk_text digest_first (codes "ab\n\ncd\n") "a.py" 2 1)
chunk_text-IsChunked_example =
    chunk_text-IsChunked digest_first (codes "ab\n\ncd\n") "a.py" 2 1 (omega arith)

abbrev world : World ℕ
world = record {
  str = strokes;
  hash_text = digest_first;
  decode = λ b. b;
  digest = some digest_first;
  redact = none;
  embed = λ texts model. (1 ∷ []) ∷ [];
}

abbrev known : VectorRecord ℕ
known = record {
  id = "a.py#";
  path = "a.py";
  index = 0;
  start_byte = 0;
  end_byte = 2;
  content_hash = "full";
  file_hash = "old";
  embed_model = "m";
  dim = 1;
  vector = 1 ∷ [];
  text = codes "x\n";
}

abbrev store : LocalBackend ℕ
store = record {
  file = none;
  model = "m";
  dim = 1;
  records =
      ("a.py#", known)
      ∷ ("b.py#", record known { id = "b.py#"; path = "b.py"; file_hash = "full"; vector = 2 ∷ [] })
      ∷ [];
}

abbrev index : Index ℕ
index = record { store = store; cache = record { file = none; model = "m"; mem = [] } }

store-IsKeyed : IsKeyed strokes store.records
unfolding chunk_id
store-IsKeyed = (refl, (refl, tt))

query-IsRanked_example : IsRanked whole none store (3 ∷ []) 1 0
query-IsRanked_example = query-IsRanked whole none store (3 ∷ []) 1 0 whole-IsOrder

get_many-put_many_example :
    Dict.get
      (get_many (open_cache (put_many index.cache (("h", 1 ∷ []) ∷ [])).file "m") ("h" ∷ []))
      "h"
    ≡ some (1 ∷ [])
unfolding Sets.member
get_many-put_many_example = get_many-put_many index.cache "h" (1 ∷ []) [] "m" ("h" ∷ []) "h"

abbrev bytes : Text
bytes = codes "y\n"

abbrev piece : String → Chunk
piece path = record {
  path = path;
  index = 0;
  start_byte = 0;
  end_byte = 2;
  text = bytes;
  content_hash = "full";
}

no_chunks : chunk_file digest_first (some []) "a.py" 60 10 ≡ some []
unfolding chunk_file
no_chunks = refl

at_path-index_file_example :
    (ix' : Index ℕ) × (r : IndexResult) × (index_file world index
        (some [])
        "/w/a.py"
        "a.py"
        "m"
        true
      ≡ some (ix', r))
    × (at_path ix'.store.records "a.py" ≡ at_path index.store.records "a.py")
at_path-index_file_example =
    at_path-index_file world strokes-IsDecimal index (some []) "/w/a.py" "a.py" "m" store-IsKeyed
      (λ e. ground (arith, e, eq_iff "a.py" "/w/a.py")) no_chunks

abbrev dense : Text → ℕ → Option (List (ℕ × VectorRecord ℕ))
dense task n =
    some ((2, known) ∷ (5, record known { start_byte = 7; text = codes "xyz" }) ∷ (1, known) ∷ [])

context-IsPacked_example :
    let capsule = context whole dense strokes (codes "x") 3 1 4 in
    (capsule.used ≡ total_bytes capsule.chunks)
    × (capsule.used ≤ 4)
    × IsDistinct strokes capsule.chunks
    × (left : List (Hit ℕ)) × (firsts strokes (search whole dense (codes "x") 3 1)
        ≡ capsule.chunks ++ left)
    × IsFull strokes 4 capsule.used left
context-IsPacked_example = context-IsPacked whole dense strokes (codes "x") 3 1 4
