-- ===== src/Compile/Store/Served.antt =====
-- What the store gives.
use mathlib.Core.Path.{subst}
use the_soverign_imperia_cit.Base.{
  suc, String, ◌≡◌, ◌≢◌, refl, sym, ap, ◌∙◌, Bool, true, false, Option, none, some, ◌⊎◌, inl, inr,
  arith, str_eq, eq_iff, Bool-cases, Option-cases,
}
use the_soverign_imperia_cit.Base.Dict
use the_soverign_imperia_cit.Base.Dict.{get-put}
use the_soverign_imperia_cit.Base.Text.{Text}
use the_soverign_imperia_cit.Compile.Store.{
  LegionStore, Tools, write_mirror, count_hit, count_compile, count_stale, remember, finish,
  compile_into, serve, probe, look, get,
}
use the_soverign_imperia_cit.Compile.Unit.{
  LegionUnit, LoadError, stale, key_error, conversion_error, compile, dumps, loads,
}
use the_soverign_imperia_cit.Compile.Unit.Loaded.{IsReadBack}
use the_soverign_imperia_cit.Tools.Bloom
use the_soverign_imperia_cit.Tools.Bloom.{BloomFilter}
use the_soverign_imperia_cit.Tools.Bloom.Kept.{IsSized, add-IsAdded, contains-total}
use the_soverign_imperia_cit.Compile.Store.Stored.{
  key_of, IsCollisionFree, IsSound, IsHonest, IsStored, get-IsStored, loads-compile,
}

module _ (t : Tools) where
  remember-IsAdded :
      (st : LegionStore) (key : String) (b : BloomFilter)
      → Bloom.add t.halves st.bloom key ≡ some b
      → Bloom.fits b ≡ true
      → remember t st key ≡ some (record st { bloom = b; bloom_file = some (Bloom.encoded b) })
  unfolding remember Bloom.save
  remember-IsAdded st key b e f = rw (remember, e, f) refl

  -- The unit of the source is given, and the store is honest, has room in its filter, and has the unit.
  abbrev pub IsServed : String → Text → Option (LegionStore × LegionUnit) → Type 0
  IsServed relpath source_bytes out =
      (st' : LegionStore) × (out ≡ some (st', compile t.compiler relpath source_bytes))
      × IsHonest t st'
      × IsSized st'.bloom
      × IsStored t st' relpath source_bytes

  module _ (relpath : String) (source_bytes : Text)
      (m : IsReadBack t.marshal (compile t.compiler relpath source_bytes))
      (free : IsCollisionFree t relpath source_bytes) where
    put-IsHonest :
        (st st' : LegionStore)
        → IsHonest t st
        → st'.facts
          ≡ Dict.put st.facts
              (key_of t relpath source_bytes)
              (dumps t.marshal (compile t.compiler relpath source_bytes))
        → IsHonest t st'
    put-IsHonest st st' h f r b blob g =
        let key = key_of t relpath source_bytes in
        let made = dumps t.marshal (compile t.compiler relpath source_bytes) in
        let g' = ap (λ d. Dict.get d (key_of t r b)) (sym f) ∙ g in
        elim (Bool-cases (str_eq key (key_of t r b))) [
          | inr s ↦ h r b blob (ground (arith, g', get-put st.facts key (key_of t r b) made, s))
          | inl s ↦
              let same : key ≡ key_of t r b = ground (arith, s, eq_iff key (key_of t r b)) in
              let (r_eq, b_eq) = free r b same in
              let blob_eq : made ≡ blob =
                ground (arith, g', get-put st.facts key (key_of t r b) made, s) in
              let e : loads t.marshal blob (some (key_of t r b))
                  ≡ inr (compile t.compiler relpath source_bytes) =
                ap (λ x. loads t.marshal blob (some x)) (sym same)
                ∙ ap (λ x. loads t.marshal x (some key)) (sym blob_eq)
                ∙ loads-compile t relpath source_bytes m in
              subst (λ x. IsSound t x (compile t.compiler r b)) (sym e) (rw (r_eq, b_eq) refl)
        ]

    compile_into-IsServed :
        (st : LegionStore) (repo : String)
        → IsHonest t st
        → IsSized st.bloom
        → Bloom.fits (record st.bloom { count = suc st.bloom.count }) ≡ true
        → IsServed relpath source_bytes (compile_into t st repo relpath source_bytes)
    unfolding compile_into write_mirror
    compile_into-IsServed st repo h sized f =
        let key = key_of t relpath source_bytes in
        let u = compile t.compiler relpath source_bytes in
        let made = dumps t.marshal u in
        let grown = record st { facts = Dict.put st.facts key made } in
        let (b, e, sized', sizes, has, kept) = add-IsAdded t.halves st.bloom key sized in
        let r = remember-IsAdded grown key b e (sizes ∙ f) in
        let after = record grown { bloom = b; bloom_file = some (Bloom.encoded b) } in
        let final = write_mirror (count_compile after) repo relpath key in
        (
          final,
          ap (λ x. finish x repo relpath key u) r,
          put-IsHonest st final h refl,
          sized',
          (
            has,
            made,
            ground (arith, get-put st.facts key key made, eq_iff key key),
            loads-compile t relpath source_bytes m,
          ),
        )

    serve-IsServed :
        (st : LegionStore) (repo : String) (blob : Text)
        → IsHonest t st
        → IsSized st.bloom
        → Bloom.fits (record st.bloom { count = suc st.bloom.count }) ≡ true
        → Bloom.contains t.halves st.bloom (key_of t relpath source_bytes) ≡ some true
        → Dict.get st.facts (key_of t relpath source_bytes) ≡ some blob
        → IsServed relpath source_bytes (
            serve t st repo relpath source_bytes
              (key_of t relpath source_bytes)
              (loads t.marshal blob (some (key_of t relpath source_bytes))))
    unfolding write_mirror
    serve-IsServed st repo blob h sized f has file =
        let key = key_of t relpath source_bytes in split (loads t.marshal blob (some key)) refl
      where
        split :
            (x : LoadError ⊎ LegionUnit)
            → loads t.marshal blob (some (key_of t relpath source_bytes)) ≡ x
            → IsServed relpath source_bytes
                (serve t st repo relpath source_bytes (key_of t relpath source_bytes) x)
        split (inl (stale e)) l = compile_into-IsServed (count_stale st) repo h sized f
        split (inl key_error) l =
            elim (subst (λ x. IsSound t x (compile t.compiler relpath source_bytes)) l
              (h relpath source_bytes blob file)) [ ]
        split (inl conversion_error) l =
            elim (subst (λ x. IsSound t x (compile t.compiler relpath source_bytes)) l
              (h relpath source_bytes blob file)) [ ]
        split (inr u) l =
            let e : u ≡ compile t.compiler relpath source_bytes =
              subst (λ x. IsSound t x (compile t.compiler relpath source_bytes)) l
                (h relpath source_bytes blob file) in
            (
              write_mirror (count_hit st) repo relpath (key_of t relpath source_bytes),
              ap
                  (λ x.
                    some
                      (write_mirror (count_hit st) repo relpath (key_of t relpath source_bytes), x))
                  e,
              h,
              sized,
              (has, blob, file, l ∙ ap inr e),
            )

    look-IsServed :
        (st : LegionStore) (repo : String) (x : Option Bool)
        → Bloom.contains t.halves st.bloom (key_of t relpath source_bytes) ≡ x
        → x ≢ none
        → IsHonest t st
        → IsSized st.bloom
        → Bloom.fits (record st.bloom { count = suc st.bloom.count }) ≡ true
        → IsServed relpath source_bytes
            (look t st repo relpath source_bytes (key_of t relpath source_bytes) x)
    look-IsServed st repo none e ne h sized f = absurd (ne refl)
    look-IsServed st repo (some false) e ne h sized f = compile_into-IsServed st repo h sized f
    look-IsServed st repo (some true) e ne h sized f =
        elim (Option-cases (Dict.get st.facts (key_of t relpath source_bytes))) [
          | inl n ↦
              subst
                (λ y.
                  IsServed relpath source_bytes
                    (probe t st repo relpath source_bytes (key_of t relpath source_bytes) y))
                (sym n) (compile_into-IsServed st repo h sized f)
          | inr (blob, n) ↦
              subst
                (λ y.
                  IsServed relpath source_bytes
                    (probe t st repo relpath source_bytes (key_of t relpath source_bytes) y))
                (sym n) (serve-IsServed st repo blob h sized f e n)
        ]

-- Let marshal read back what it makes of the unit of a source, and let no other path or content have the key
-- of this source. On a store in which each file of a unit is refused as stale or holds what compiling the
-- source with its key gives, whose filter has room, and whose count can still be saved, `get` gives for this
-- source the unit that compiling it would give, whether its file is there, missing, stale or corrupt, and
-- leaves such a store; asked again for the same source, it gives the unit from its file and compiles nothing.
pub get-IsServed :
    (t : Tools) (st : LegionStore) (repo relpath : String) (source_bytes : Text)
    → IsReadBack t.marshal (compile t.compiler relpath source_bytes)
    → IsCollisionFree t relpath source_bytes
    → IsHonest t st
    → IsSized st.bloom
    → Bloom.fits (record st.bloom { count = suc st.bloom.count }) ≡ true
    → (st' : LegionStore) × (get t st repo relpath source_bytes
        ≡ some (st', compile t.compiler relpath source_bytes))
      × IsHonest t st'
      × IsSized st'.bloom
      × (get t st' repo relpath source_bytes
          ≡ some (
            write_mirror (count_hit st') repo relpath (key_of t relpath source_bytes),
            compile t.compiler relpath source_bytes,
          ))
unfolding get
get-IsServed t st repo relpath source_bytes m free h sized f =
    let (st', e, honest, room, stored) =
      look-IsServed t relpath source_bytes m free st repo
        (Bloom.contains t.halves st.bloom (key_of t relpath source_bytes)) refl
        (contains-total t.halves st.bloom (key_of t relpath source_bytes) sized) h sized f in
    (st', e, honest, room, get-IsStored t st' repo relpath source_bytes stored)
