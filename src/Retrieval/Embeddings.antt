-- ===== src/Retrieval/Embeddings.antt =====
-- src/citadel/services/retrieval/embed_cache.py over its file, and redact_gate.py.
pub mod Stored
use the_soverign_imperia_cit.Base.{
  String, List, [], ◌∷◌, Bool, true, false, Option, none, some, str_eq, if◌then◌else◌,
}
use the_soverign_imperia_cit.Base.Dict
use the_soverign_imperia_cit.Base.Dict.{Dict}
use the_soverign_imperia_cit.Base.Text.{Text, same}
use the_soverign_imperia_cit.Retrieval.Chunker.{Chunk}

-- The payload of the file.
pub record Saved (F : Type 0) : Type 0 where
  pub model : String
  pub vectors : Dict (List F)

pub record EmbedCache (F : Type 0) : Type 0 where
  pub file : Option (Saved F)
  pub model : String
  pub mem : Dict (List F)

abbrev loaded : {F : Type 0} → Option (Saved F) → String → Dict (List F)
loaded none model = []
loaded (some saved) model = if str_eq saved.model model then saved.vectors else []

unfoldable pub open_cache : {F : Type 0} → Option (Saved F) → String → EmbedCache F
open_cache file model = record { file = file; model = model; mem = loaded file model }

abbrev hit : {V : Type 0} → Dict V → String → Option V → Dict V
hit found h none = found
hit found h (some v) = Dict.put found h v

-- The comprehension of `get_many`.
unfoldable pub collect : {V : Type 0} → Dict V → List String → Dict V → Dict V
collect mem [] found = found
collect mem (h ∷ hashes) found = collect mem hashes (hit found h (Dict.get mem h))

unfoldable pub get_many : {F : Type 0} → EmbedCache F → List String → Dict (List F)
unfolding collect
get_many c hashes = collect c.mem hashes []

-- `d.update(e)`
unfoldable pub update : {V : Type 0} → Dict V → Dict V → Dict V
update d [] = d
update d ((h, v) ∷ e) = update (Dict.put d h v) e

abbrev save : {F : Type 0} → EmbedCache F → EmbedCache F
save c = record c { file = some (record { model = c.model; vectors = c.mem }) }

unfoldable pub put_many : {F : Type 0} → EmbedCache F → Dict (List F) → EmbedCache F
unfolding update
put_many c [] = c
put_many c (v ∷ vectors) = save (record c { mem = update c.mem (v ∷ vectors) })

-- One round of the loop of `redact_chunks`.
abbrev pub masked : (Text → String) → Chunk → Text → Chunk
masked hash_text c t =
    if same t c.text then c else record c { text = t; content_hash = hash_text t }

abbrev mask_chunks : (Text → String) → (Text → Text) → List Chunk → List Chunk
mask_chunks hash_text redact [] = []
mask_chunks hash_text redact (c ∷ cs) =
    masked hash_text c (redact c.text) ∷ mask_chunks hash_text redact cs

-- `none` is a tool that does not load.
unfoldable pub redact_chunks : (Text → String) → Option (Text → Text) → List Chunk → List Chunk
redact_chunks hash_text none chunks = chunks
redact_chunks hash_text (some redact) chunks = mask_chunks hash_text redact chunks
