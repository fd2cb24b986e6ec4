-- ===== src/Retrieval/Indexer/Records.antt =====
-- The records of a file's chunks, and the store's keys and hashes around them.
use the_soverign_imperia_cit.Base.{
  ℕ, suc, String, ◌≡◌, ◌≢◌, refl, List, [], ◌∷◌, ◌++◌, Option, none, some, map, arith, str_eq,
  eq_iff, Bool-cases, inl, inr,
}
use the_soverign_imperia_cit.Base.Dict.{Dict}
use the_soverign_imperia_cit.Base.Text.{Text, same}
use the_soverign_imperia_cit.Retrieval.Chunker.{Chunk}
use the_soverign_imperia_cit.Retrieval.Chunker.Numbered
use the_soverign_imperia_cit.Retrieval.Embeddings.{redact_chunks}
use the_soverign_imperia_cit.Retrieval.Indexer.{record_of}
use the_soverign_imperia_cit.Retrieval.Vectors.{
  VectorRecord, Records, LocalBackend, first_hash, save, delete_by_path, remove_all, victims,
  is_nil,
}
use the_soverign_imperia_cit.Retrieval.Vectors.Entries.{at_path, elsewhere, entries, IsKeyed}
use the_soverign_imperia_cit.Retrieval.Vectors.Ids.{IsDecimal}
use the_soverign_imperia_cit.Retrieval.Vectors.Replaced

masked-IsNumbered :
    (hash_text : Text → String) (redact : Text → Text) (path : String) (n : ℕ) (cs : List Chunk)
    → Numbered.IsNumbered path n cs
    → Numbered.IsNumbered path n (redact_chunks hash_text (some redact) cs)
unfolding redact_chunks
masked-IsNumbered hash_text redact path n [] h = tt
masked-IsNumbered hash_text redact path n (c ∷ cs) (p, le, h) =
    elim (Bool-cases (same (redact c.text) c.text)) [
      | inl e ↦ rw e (p, le, masked-IsNumbered hash_text redact path (suc c.index) cs h)
      | inr e ↦ rw e (p, le, masked-IsNumbered hash_text redact path (suc c.index) cs h)
    ]

-- Redaction keeps the paths and the indices.
pub redact_chunks-IsNumbered :
    (hash_text : Text → String) (redact : Option (Text → Text)) (path : String) (n : ℕ)
    (cs : List Chunk)
    → Numbered.IsNumbered path n cs
    → Numbered.IsNumbered path n (redact_chunks hash_text redact cs)
unfolding redact_chunks
redact_chunks-IsNumbered hash_text none path n cs h = h
redact_chunks-IsNumbered hash_text (some redact) path n cs h =
    masked-IsNumbered hash_text redact path n cs h

module _ {F : Type 0} where
  pub record_of-IsNumbered :
      (str : ℕ → String) (fhash model path : String) (dim : ℕ) (cached : Dict (List F))
      (dec : IsDecimal str) (n : ℕ) (cs : List Chunk)
      → Numbered.IsNumbered path n cs
      → Replaced.IsNumbered {F = F} str dec path n (map (record_of str fhash model dim cached) cs)
  unfolding record_of
  record_of-IsNumbered str fhash model path dim cached dec n [] h = tt
  record_of-IsNumbered str fhash model path dim cached dec n (c ∷ cs) (p, le, h) =
      (refl, p, le, record_of-IsNumbered str fhash model path dim cached dec (suc c.index) cs h)

  pub records-delete_by_path :
      (b : LocalBackend F) (path : String)
      → (delete_by_path b path).0.records ≡ remove_all b.records (victims b.records path)
  unfolding delete_by_path save
  records-delete_by_path b path = elim (Bool-cases (is_nil (victims b.records path))) [
    | inl e ↦ rw e refl
    | inr e ↦ rw e refl
  ]

  pub entries-IsKeyed :
      (str : ℕ → String) (dec : IsDecimal str) (path : String) (n : ℕ) (rs : List (VectorRecord F))
      → Replaced.IsNumbered str dec path n rs
      → IsKeyed str (entries rs)
  entries-IsKeyed str dec path n [] h = tt
  entries-IsKeyed str dec path n (r ∷ rs) (e, p, le, h) =
      (e, entries-IsKeyed str dec path (suc r.index) rs h)

  pub elsewhere-IsKeyed :
      (str : ℕ → String) (path : String) (d : Records F)
      → IsKeyed str d
      → IsKeyed str (elsewhere d path)
  elsewhere-IsKeyed str path [] h = h
  elsewhere-IsKeyed str path ((rid, rec) ∷ d) (e, h) = elim (Bool-cases (str_eq rec.path path)) [
    | inl s ↦ rw s (elsewhere-IsKeyed str path d h)
    | inr s ↦ rw s (e, elsewhere-IsKeyed str path d h)
  ]

  pub first_hash-elsewhere :
      (d e : Records F) (path : String)
      → first_hash (elsewhere d path ++ e) path ≡ first_hash e path
  unfolding first_hash
  first_hash-elsewhere [] e path = refl
  first_hash-elsewhere ((rid, rec) ∷ d) e path = elim (Bool-cases (str_eq rec.path path)) [
    | inl s ↦ rw s (first_hash-elsewhere d e path)
    | inr s ↦ rw (s, s) (first_hash-elsewhere d e path)
  ]

  pub at_path-elsewhere :
      (d : Records F) (path other : String)
      → path ≢ other
      → at_path (elsewhere d other) path ≡ at_path d path
  at_path-elsewhere [] path other ne = refl
  at_path-elsewhere ((rid, rec) ∷ d) path other ne =
      ground
        (arith, at_path-elsewhere d path other ne, eq_iff rec.path path, eq_iff rec.path other, ne)
