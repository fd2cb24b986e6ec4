-- ===== src/Retrieval/Indexer/Fresh.antt =====
-- Indexing a file again, and indexing a file without chunks.
use mathlib.Core.Path.{subst}
use the_soverign_imperia_cit.Base.{
  String, ◌≡◌, ◌≢◌, refl, ap, ◌∙◌, List, [], ◌∷◌, true, false, Option, none, some, length, arith,
  eq_iff,
}
use the_soverign_imperia_cit.Base.Text.{Text}
use the_soverign_imperia_cit.Retrieval.Chunker.{Chunk, chunk_file}
use the_soverign_imperia_cit.Retrieval.Chunker.Numbered
use the_soverign_imperia_cit.Retrieval.Embeddings.{redact_chunks}
use the_soverign_imperia_cit.Retrieval.Indexer.{
  World, Index, IndexResult, is_stale, index_chunks, decoded, index_file,
}
use the_soverign_imperia_cit.Retrieval.Indexer.Records.{
  redact_chunks-IsNumbered, records-delete_by_path, at_path-elsewhere,
}
use the_soverign_imperia_cit.Retrieval.Vectors.{LocalBackend, stored_file_hash, delete_by_path}
use the_soverign_imperia_cit.Retrieval.Vectors.Entries.{at_path, IsKeyed, remove_all-victims}
use the_soverign_imperia_cit.Retrieval.Vectors.Ids.{IsDecimal}
use the_soverign_imperia_cit.Tools.Oracle

-- What a skip gives.
abbrev pub skipped : String → List Chunk → IndexResult
skipped rel chunks = record {
  path = rel;
  chunks = length chunks;
  embedded = 0;
  skipped_fresh = true;
}

redact_chunks-nil :
    (hash_text : Text → String) (redact : Option (Text → Text))
    → redact_chunks hash_text redact [] ≡ []
unfolding redact_chunks
redact_chunks-nil hash_text none = refl
redact_chunks-nil hash_text (some redact) = refl

module _ {F : Type 0} where
  is_stale-stored :
      (digest : Text → String) (store : LocalBackend F) (file : Option Text) (rel : String)
      → stored_file_hash store rel ≡ some (Oracle.content_hash digest file)
      → Oracle.content_hash digest file ≢ ""
      → is_stale (some digest) store file rel ≡ false
  unfolding is_stale Oracle.is_fresh
  is_stale-stored digest store file rel e ne = rw e (
      ground (
        arith,
        eq_iff (Oracle.content_hash digest file) "",
        eq_iff (Oracle.content_hash digest file) (Oracle.content_hash digest file),
        ne,
      ))

  skip_chunks :
      (w : World F) (ix : Index F) (file : Option Text) (abs_path model rel : String) (c : Chunk)
      (cs : List Chunk)
      → c.path ≡ rel
      → is_stale w.digest ix.store file rel ≡ false
      → index_chunks w ix file abs_path model false (c ∷ cs) ≡ (ix, skipped rel (c ∷ cs))
  unfolding index_chunks
  skip_chunks w ix file abs_path model rel c cs p =
      subst
        (λ q.
          is_stale w.digest ix.store file q ≡ false
          → index_chunks w ix file abs_path model false (c ∷ cs) ≡ (ix, skipped q (c ∷ cs)))
        p (λ fresh. rw fresh refl)

  -- Let the oracle be there, let the stored hash of the path be the digest of the file, which is not
  -- empty, and let the file have the chunks `c ∷ cs` after redaction. Then indexing it without force
  -- embeds nothing and leaves the store and the cache as they are.
  pub index_file-skips :
      (w : World F) (ix : Index F) (digest : Text → String) (file : Option Text)
      (abs_path rel model : String) (found : List Chunk) (c : Chunk) (cs : List Chunk)
      → w.digest ≡ some digest
      → stored_file_hash ix.store rel ≡ some (Oracle.content_hash digest file)
      → Oracle.content_hash digest file ≢ ""
      → chunk_file w.hash_text (decoded w.decode file) rel 60 10 ≡ some found
      → redact_chunks w.hash_text w.redact found ≡ c ∷ cs
      → index_file w ix file abs_path rel model false ≡ some (ix, skipped rel (c ∷ cs))
  unfolding index_file
  index_file-skips w ix digest file abs_path rel model found c cs d stored ne e masks =
      let numbered =
        redact_chunks-IsNumbered w.hash_text w.redact rel 0 found
          (Numbered.chunk_file-IsNumbered w.hash_text (decoded w.decode file) rel 60 10 found e) in
      let own : Numbered.IsNumbered rel 0 (c ∷ cs) =
        subst (Numbered.IsNumbered rel 0) masks numbered in
      rw (e, masks)
        (ap some (
          skip_chunks w ix file abs_path model rel c cs own.0 (
            ap (λ o. is_stale o ix.store file rel) d
            ∙ is_stale-stored digest ix.store file rel stored ne)))

  drop_chunks :
      (w : World F) (ix : Index F) (file : Option Text) (abs_path model : String)
      → (index_chunks w ix file abs_path model true []).0.store
        ≡ (delete_by_path ix.store abs_path).0
  unfolding index_chunks
  drop_chunks w ix file abs_path model = refl

  -- Let each key of the store be the identity of its record. A file that gives no chunks, as an emptied
  -- one does, is indexed under its absolute path: even with force, the records under its path in the
  -- repository stay, when that is another path.
  pub at_path-index_file :
      (w : World F) (dec : IsDecimal w.str) (ix : Index F) (file : Option Text)
      (abs_path rel model : String)
      → IsKeyed w.str ix.store.records
      → rel ≢ abs_path
      → chunk_file w.hash_text (decoded w.decode file) rel 60 10 ≡ some []
      → (ix' : Index F) × (r : IndexResult) × (index_file w ix file abs_path rel model true
          ≡ some (ix', r))
        × (at_path ix'.store.records rel ≡ at_path ix.store.records rel)
  unfolding index_file
  at_path-index_file w dec ix file abs_path rel model keyed ne e =
      let out = index_chunks w ix file abs_path model true [] in
      rw (e, redact_chunks-nil w.hash_text w.redact)
        (
          out.0,
          out.1,
          refl,
          ap (λ b. at_path b.records rel) (drop_chunks w ix file abs_path model)
              ∙ ap (λ d. at_path d rel)
                  (records-delete_by_path ix.store abs_path
                    ∙ remove_all-victims w.str dec abs_path ix.store.records keyed)
              ∙ at_path-elsewhere ix.store.records rel abs_path ne,
        )
