-- ===== src/Retrieval/Indexer.antt =====
-- src/citadel/services/retrieval/indexer.py: one file into the vector store, and the dense search. The
-- embedding engine, the digests, the decoding of a file's bytes and the redaction are parameters of
-- a `World`. The file is read at one moment; the store is the local one.
pub mod Fresh
pub mod Records
pub mod Replaces
use the_soverign_imperia_cit.Base.{
  ℕ, zero, suc, String, List, [], ◌∷◌, Bool, true, false, not, ◌&&◌, Option, none, some, map,
  str_eq, length, select, if◌then◌else◌,
}
use the_soverign_imperia_cit.Base.Dict
use the_soverign_imperia_cit.Base.Dict.{Dict}
use the_soverign_imperia_cit.Base.Text.{Text}
use the_soverign_imperia_cit.Retrieval.Chunker.{Chunk, chunk_file}
use the_soverign_imperia_cit.Retrieval.Embeddings.{
  EmbedCache, get_many, update, put_many, redact_chunks,
}
use the_soverign_imperia_cit.Retrieval.Vectors
use the_soverign_imperia_cit.Retrieval.Vectors.{
  Floats, Numpy, VectorRecord, LocalBackend, Scored, chunk_id, upsert, delete_by_path,
  stored_file_hash, query,
}
use the_soverign_imperia_cit.Tools.Oracle

-- A tool that does not load is `none`.
pub record World (F : Type 0) : Type 0 where
  pub str : ℕ → String
  pub hash_text : Text → String
  pub decode : Text → Text
  pub digest : Option (Text → String)
  pub redact : Option (Text → Text)
  pub embed : List Text → String → List (List F)

unfoldable pub file_hash : Option (Text → String) → Option Text → String
unfolding Oracle.content_hash
file_hash none file = ""
file_hash (some digest) file = Oracle.content_hash digest file

abbrev pub stale_against : Option (Text → String) → Option Text → Option String → Bool
stale_against digest file none = true
stale_against none file (some stored) = true
stale_against (some digest) file (some stored) =
    if str_eq stored "" then true else not (Oracle.is_fresh digest file stored)

unfoldable pub is_stale :
    {F : Type 0} → Option (Text → String) → LocalBackend F → Option Text → String → Bool
unfolding stored_file_hash Oracle.is_fresh
is_stale digest store file rel_path = stale_against digest file (stored_file_hash store rel_path)

pub record IndexResult : Type 0 where
  pub path : String
  pub chunks : ℕ
  pub embedded : ℕ
  pub skipped_fresh : Bool

-- The store and the cache.
pub record Index (F : Type 0) : Type 0 where
  pub store : LocalBackend F
  pub cache : EmbedCache F

-- `c.content_hash not in cached`
abbrev pub lacks : {V : Type 0} → Dict V → Chunk → Bool
lacks cached c = elim (Dict.get cached c.content_hash) [ none ↦ true | some v ↦ false ]

-- `{c.content_hash: vec for c, vec in zip(misses, fresh)}`
unfoldable pub pair_vectors : {V : Type 0} → List Chunk → List V → Dict V → Dict V
pair_vectors [] fresh made = made
pair_vectors (c ∷ misses) [] made = made
pair_vectors (c ∷ misses) (v ∷ fresh) made =
    pair_vectors misses fresh (Dict.put made c.content_hash v)

-- The cache and the vectors after `if misses:`.
unfoldable pub embed_misses :
    {F : Type 0}
    → World F
    → EmbedCache F
    → Dict (List F)
    → String
    → List Chunk
    → EmbedCache F × Dict (List F)
unfolding put_many update pair_vectors
embed_misses w cache cached model [] = (cache, cached)
embed_misses w cache cached model (c ∷ misses) =
    let fresh = w.embed (map (λ m. m.text) (c ∷ misses)) model in
    let new_vectors = pair_vectors (c ∷ misses) fresh [] in
    (put_many cache new_vectors, update cached new_vectors)

abbrev pub dim_of : {F : Type 0} → Dict (List F) → ℕ → ℕ
dim_of [] dim = dim
dim_of ((h, v) ∷ cached) dim = length v

abbrev vector_or_empty : {F : Type 0} → Option (List F) → List F
vector_or_empty none = []
vector_or_empty (some v) = v

unfoldable pub record_of :
    {F : Type 0} → (ℕ → String) → String → String → ℕ → Dict (List F) → Chunk → VectorRecord F
unfolding chunk_id
record_of str fhash model dim cached c = record {
  id = chunk_id str c.path c.index;
  path = c.path;
  index = c.index;
  start_byte = c.start_byte;
  end_byte = c.end_byte;
  content_hash = c.content_hash;
  file_hash = fhash;
  embed_model = model;
  dim = dim;
  vector = vector_or_empty (Dict.get cached c.content_hash);
  text = c.text;
}

abbrev pub misses_of : {F : Type 0} → EmbedCache F → List Chunk → List Chunk
misses_of cache chunks = select (lacks (get_many cache (map (λ c. c.content_hash) chunks))) chunks

-- From the embedding to the end of `index_file`.
unfoldable pub store_chunks :
    {F : Type 0}
    → World F
    → Index F
    → Option Text
    → String
    → String
    → List Chunk
    → Index F × IndexResult
unfolding get_many embed_misses file_hash record_of upsert delete_by_path
store_chunks w ix file rel model chunks =
    let misses = misses_of ix.cache chunks in
    let (cache, cached) =
      embed_misses w ix.cache (get_many ix.cache (map (λ c. c.content_hash) chunks)) model misses in
    let records =
      map (record_of w.str (file_hash w.digest file) model (dim_of cached ix.store.dim) cached)
        chunks in
    (
      record { store = (upsert (delete_by_path ix.store rel).0 records).0; cache = cache },
      record {
        path = rel;
        chunks = length chunks;
        embedded = length misses;
        skipped_fresh = false;
      },
    )

-- `chunks[0].path if chunks else` the absolute path.
abbrev pub rel_of : List Chunk → String → String
rel_of [] abs_path = abs_path
rel_of (c ∷ cs) abs_path = c.path

abbrev pub drop_path : {F : Type 0} → Index F → String → Index F × IndexResult
drop_path ix rel = (
  record ix { store = (delete_by_path ix.store rel).0 },
  record { path = rel; chunks = 0; embedded = 0; skipped_fresh = false },
)

abbrev pub rebuild :
    {F : Type 0}
    → World F
    → Index F
    → Option Text
    → String
    → String
    → List Chunk
    → Index F × IndexResult
rebuild w ix file rel model [] = drop_path ix rel
rebuild w ix file rel model (c ∷ cs) = store_chunks w ix file rel model (c ∷ cs)

unfoldable pub index_chunks :
    {F : Type 0}
    → World F
    → Index F
    → Option Text
    → String
    → String
    → Bool
    → List Chunk
    → Index F × IndexResult
unfolding is_stale store_chunks
index_chunks w ix file abs_path model force chunks =
    let rel = rel_of chunks abs_path in
    if not force && not (is_stale w.digest ix.store file rel)
    then (ix, record { path = rel; chunks = length chunks; embedded = 0; skipped_fresh = true })
    else rebuild w ix file rel model chunks

abbrev pub decoded : (Text → Text) → Option Text → Option Text
decoded decode none = none
decoded decode (some bytes) = some (decode bytes)

abbrev pub with_chunks : {A : Type 0} → (List Chunk → A) → Option (List Chunk) → Option A
with_chunks f none = none
with_chunks f (some chunks) = some (f chunks)

-- `index_file`; the path under the root and the absolute path are arguments, `none` is the fuel of the
-- chunker.
unfoldable pub index_file :
    {F : Type 0}
    → World F
    → Index F
    → Option Text
    → String
    → String
    → String
    → Bool
    → Option (Index F × IndexResult)
unfolding index_chunks chunk_file redact_chunks
index_file w ix file abs_path rel_path model force =
    with_chunks
      (λ chunks.
        index_chunks w ix file abs_path model force (redact_chunks w.hash_text w.redact chunks))
      (chunk_file w.hash_text (decoded w.decode file) rel_path 60 10)

-- What a query finds for the vectors of one text.
abbrev pub search_with :
    {F : Type 0}
    → Floats F
    → Option (Numpy F)
    → LocalBackend F
    → ℕ
    → F
    → List (List F)
    → List (Scored F)
search_with fl np store top_k min_score [] = []
search_with fl np store top_k min_score ([] ∷ vecs) = []
search_with fl np store top_k min_score ((x ∷ v) ∷ vecs) = query fl np store (x ∷ v) top_k min_score

unfoldable pub search :
    {F : Type 0}
    → Floats F
    → Option (Numpy F)
    → World F
    → LocalBackend F
    → Text
    → String
    → ℕ
    → F
    → List (Scored F)
unfolding query
search fl np w store text model top_k min_score =
    search_with fl np store top_k min_score (w.embed (text ∷ []) model)
