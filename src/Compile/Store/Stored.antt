-- ===== src/Compile/Store/Stored.antt =====
-- Honest stores, and the units that they have.
use the_soverign_imperia_cit.Base.{
  String, ◌≡◌, refl, ap, ◌∙◌, true, some, ◌⊎◌, inl, inr, arith, eq_iff,
}
use the_soverign_imperia_cit.Base.Dict
use the_soverign_imperia_cit.Base.Dict.{get-put}
use the_soverign_imperia_cit.Base.Text.{Text}
use the_soverign_imperia_cit.Compile.Store.{
  LegionStore, Tools, write_mirror, count_hit, serve, probe, look, get,
}
use the_soverign_imperia_cit.Compile.Unit.{
  LegionUnit, LoadError, stale, key_error, conversion_error, compute_keys, compile, dumps, loads,
}
use the_soverign_imperia_cit.Compile.Unit.Loaded.{IsReadBack, loads-dumps}
use the_soverign_imperia_cit.Tools.Bloom
use the_soverign_imperia_cit.Tools.Bloom.{BloomFilter}

module _ (t : Tools) where
  abbrev pub key_of : String → Text → String
  key_of relpath source_bytes = (compute_keys t.compiler relpath source_bytes).1

  -- No other path or content has the key of the source.
  abbrev pub IsCollisionFree : String → Text → Type 0
  IsCollisionFree relpath source_bytes =
      (r : String) (b : Text)
      → key_of relpath source_bytes ≡ key_of r b
      → (relpath ≡ r) × (source_bytes ≡ b)

  -- A refusal as stale, or the unit.
  abbrev pub IsSound : LoadError ⊎ LegionUnit → LegionUnit → Type 0
  IsSound (inl (stale e)) u = Unit
  IsSound (inl key_error) u = ⊥
  IsSound (inl conversion_error) u = ⊥
  IsSound (inr v) u = v ≡ u

  -- Each file of facts is refused as stale or holds what compiling the source with its key gives.
  abbrev pub IsHonest : LegionStore → Type 0
  IsHonest st =
      (relpath : String) (source_bytes : Text) (blob : Text)
      → Dict.get st.facts (key_of relpath source_bytes) ≡ some blob
      → IsSound (loads t.marshal blob (some (key_of relpath source_bytes)))
          (compile t.compiler relpath source_bytes)

  -- The unit of a source is in the filter and in its file.
  abbrev pub IsStored : LegionStore → String → Text → Type 0
  IsStored st relpath source_bytes =
      (Bloom.contains t.halves st.bloom (key_of relpath source_bytes) ≡ some true)
      × (blob : Text) × (Dict.get st.facts (key_of relpath source_bytes) ≡ some blob)
      × (loads t.marshal blob (some (key_of relpath source_bytes))
          ≡ inr (compile t.compiler relpath source_bytes))

  pub get-IsStored :
      (st : LegionStore) (repo relpath : String) (source_bytes : Text)
      → IsStored st relpath source_bytes
      → get t st repo relpath source_bytes
        ≡ some (
          write_mirror (count_hit st) repo relpath (key_of relpath source_bytes),
          compile t.compiler relpath source_bytes,
        )
  unfolding get
  get-IsStored st repo relpath source_bytes (seen, blob, file, e) =
      let key = key_of relpath source_bytes in
      ap (look t st repo relpath source_bytes key) seen
      ∙ ap (probe t st repo relpath source_bytes key) file
      ∙ ap (serve t st repo relpath source_bytes key) e

  compiled_key :
      (relpath : String) (source_bytes : Text)
      → (compile t.compiler relpath source_bytes).cache_key ≡ key_of relpath source_bytes
  unfolding compile
  compiled_key relpath source_bytes = refl

  pub loads-compile :
      (relpath : String) (source_bytes : Text)
      → IsReadBack t.marshal (compile t.compiler relpath source_bytes)
      → loads t.marshal
          (dumps t.marshal (compile t.compiler relpath source_bytes))
          (some (key_of relpath source_bytes))
        ≡ inr (compile t.compiler relpath source_bytes)
  loads-compile relpath source_bytes m =
      let u = compile t.compiler relpath source_bytes in
      let key = key_of relpath source_bytes in
      (loads-dumps t.marshal u key m).1
      ∙ ground (arith, eq_iff u.cache_key key, compiled_key relpath source_bytes)
