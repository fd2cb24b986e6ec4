-- ===== src/Retrieval/Indexer/Replaces.antt =====
-- What indexing a file does to the store.
use the_soverign_imperia_cit.Base.{String, ◌≡◌, List, ◌++◌, false, Option, some, map}
use the_soverign_imperia_cit.Base.Dict.{Dict}
use the_soverign_imperia_cit.Base.Text.{Text}
use the_soverign_imperia_cit.Retrieval.Chunker.{Chunk}
use the_soverign_imperia_cit.Retrieval.Chunker.Numbered
use the_soverign_imperia_cit.Retrieval.Embeddings.{get_many}
use the_soverign_imperia_cit.Retrieval.Indexer.{
  World, Index, IndexResult, file_hash, embed_misses, misses_of, dim_of, record_of,
}
use the_soverign_imperia_cit.Retrieval.Vectors.{VectorRecord, stored_file_hash}
use the_soverign_imperia_cit.Retrieval.Vectors.Entries.{elsewhere, entries, IsKeyed}
use the_soverign_imperia_cit.Retrieval.Vectors.Replaced

module _ {F : Type 0} where
  -- The records that indexing makes of the chunks of a file.
  abbrev pub records_of :
      World F → Index F → Option Text → String → List Chunk → List (VectorRecord F)
  records_of w ix file model chunks =
      let cached =
        (embed_misses w ix.cache (get_many ix.cache (map (λ c. c.content_hash) chunks)) model
          (misses_of ix.cache chunks)).1 in
      map (record_of w.str (file_hash w.digest file) model (dim_of cached ix.store.dim) cached)
        chunks

  -- The path has the new records, every other path what it had, and the keys stay right.
  abbrev pub IsReplaced :
      World F → Index F → Index F → Option Text → String → String → List Chunk → Type 0
  IsReplaced w ix ix' file rel model chunks =
      (ix'.store.records
        ≡ elsewhere ix.store.records rel ++ entries (records_of w ix file model chunks))
      × IsKeyed w.str ix'.store.records
      × (stored_file_hash ix'.store rel ≡ some (file_hash w.digest file))

  -- Indexing gives a result that is not a skip, and the path has its new records.
  abbrev pub IsIndexed :
      World F
      → Index F
      → Option Text
      → String
      → String
      → List Chunk
      → Option (Index F × IndexResult)
      → Type 0
  IsIndexed w ix file rel model chunks out =
      (ix' : Index F) × (r : IndexResult) × (out ≡ some (ix', r))
      × (r.skipped_fresh ≡ false)
      × IsReplaced w ix ix' file rel model chunks
