-- ===== src/Compile/Store.antt =====
-- src/citadel/services/compile/store.py: the store of compiled units under their keys, behind a Bloom
-- filter. The files of the facts are a dictionary from keys to bytes, the mirror one from its paths to
-- keys. `none` is an exception of the filter or
-- of a file that is no unit.
pub mod Served
pub mod Stored
use the_soverign_imperia_cit.Base.{
  ℕ, suc, String, Bool, true, false, Option, none, some, ◌⊎◌, inl, inr, if◌then◌else◌,
}
use the_soverign_imperia_cit.Base.Dict
use the_soverign_imperia_cit.Base.Dict.{Dict}
use the_soverign_imperia_cit.Base.Text.{Text, append}
use the_soverign_imperia_cit.Compile.Unit.{
  LegionUnit, Marshal, Compiler, LoadError, stale, key_error, conversion_error, compute_keys,
  compile, dumps, loads,
}
use the_soverign_imperia_cit.Tools.Bloom
use the_soverign_imperia_cit.Tools.Bloom.{BloomFilter, Bytes}

pub record CompileStats : Type 0 where
  pub hits : ℕ
  pub compiles : ℕ
  pub stale : ℕ

pub record LegionStore : Type 0 where
  pub facts : Dict Text
  pub mirror : Dict String
  pub stats : CompileStats
  pub bloom : BloomFilter
  pub bloom_file : Option Bytes

-- What the store calls.
pub record Tools : Type 0 where
  pub compiler : Compiler
  pub marshal : Marshal
  pub halves : String → ℕ × ℕ

-- The constructor; a file of the filter that is absent is `none`.
unfoldable pub open_store :
    Bloom.Rates → Dict Text → Dict String → Option Bytes → BloomFilter → Option LegionStore
unfolding Bloom.load
open_store rates facts mirror none fresh = some (record {
  facts = facts;
  mirror = mirror;
  stats = record { hits = 0; compiles = 0; stale = 0 };
  bloom = fresh;
  bloom_file = none;
})
open_store rates facts mirror (some file) fresh = elim (Bloom.load rates file) [
  | none ↦ none
  | some bloom ↦ some (record {
    facts = facts;
    mirror = mirror;
    stats = record { hits = 0; compiles = 0; stale = 0 };
    bloom = bloom;
    bloom_file = some file;
  })
]

abbrev pub mirror_path : String → String → String
mirror_path repo relpath = append repo (append "/" (append relpath ".ptr"))

unfoldable pub write_mirror : LegionStore → String → String → String → LegionStore
write_mirror st repo relpath key = record st {
  mirror = Dict.put st.mirror (mirror_path repo relpath) key;
}

abbrev pub count_hit : LegionStore → LegionStore
count_hit st = record st { stats = record st.stats { hits = suc st.stats.hits } }

abbrev pub count_compile : LegionStore → LegionStore
count_compile st = record st { stats = record st.stats { compiles = suc st.stats.compiles } }

abbrev pub count_stale : LegionStore → LegionStore
count_stale st = record st { stats = record st.stats { stale = suc st.stats.stale } }

-- The filter with a key, and its file.
unfoldable pub remember : Tools → LegionStore → String → Option LegionStore
unfolding Bloom.add Bloom.save
remember t st key = elim (Bloom.add t.halves st.bloom key) [
  | none ↦ none
  | some bloom ↦ elim (Bloom.save bloom) [
    | none ↦ none
    | some file ↦ some (record st { bloom = bloom; bloom_file = some file })
  ]
]

abbrev pub finish :
    Option LegionStore → String → String → String → LegionUnit → Option (LegionStore × LegionUnit)
finish none repo relpath key u = none
finish (some st) repo relpath key u = some (write_mirror (count_compile st) repo relpath key, u)

-- The part of `get` from the compilation on.
unfoldable pub compile_into :
    Tools → LegionStore → String → String → Text → Option (LegionStore × LegionUnit)
unfolding compute_keys compile dumps remember write_mirror
compile_into t st repo relpath source_bytes =
    let key = (compute_keys t.compiler relpath source_bytes).1 in
    let u = compile t.compiler relpath source_bytes in
    finish (remember t (record st { facts = Dict.put st.facts key (dumps t.marshal u) }) key) repo
      relpath key u

-- What a file of facts gives; only `StaleUnit` is caught.
abbrev pub serve :
    Tools
    → LegionStore
    → String
    → String
    → Text
    → String
    → LoadError ⊎ LegionUnit
    → Option (LegionStore × LegionUnit)
serve t st repo relpath source_bytes key (inr u) =
    some (write_mirror (count_hit st) repo relpath key, u)
serve t st repo relpath source_bytes key (inl (stale e)) =
    compile_into t (count_stale st) repo relpath source_bytes
serve t st repo relpath source_bytes key (inl key_error) = none
serve t st repo relpath source_bytes key (inl conversion_error) = none

abbrev pub probe :
    Tools
    → LegionStore
    → String
    → String
    → Text
    → String
    → Option Text
    → Option (LegionStore × LegionUnit)
probe t st repo relpath source_bytes key none = compile_into t st repo relpath source_bytes
probe t st repo relpath source_bytes key (some blob) =
    serve t st repo relpath source_bytes key (loads t.marshal blob (some key))

abbrev pub look :
    Tools
    → LegionStore
    → String
    → String
    → Text
    → String
    → Option Bool
    → Option (LegionStore × LegionUnit)
look t st repo relpath source_bytes key none = none
look t st repo relpath source_bytes key (some maybe_seen) =
    probe t st repo relpath source_bytes key (if maybe_seen then Dict.get st.facts key else none)

unfoldable pub get :
    Tools → LegionStore → String → String → Text → Option (LegionStore × LegionUnit)
unfolding compile_into loads Bloom.contains
get t st repo relpath source_bytes =
    let key = (compute_keys t.compiler relpath source_bytes).1 in
    look t st repo relpath source_bytes key (Bloom.contains t.halves st.bloom key)

abbrev found : Option (LegionStore × LegionUnit) → Option (LegionStore × Option LegionUnit)
found none = none
found (some (st, u)) = some (st, some u)

-- `get_path` on what reading the file gives; the inner `none` is an unreadable file.
unfoldable pub get_path :
    Tools → LegionStore → String → String → Option Text → Option (LegionStore × Option LegionUnit)
unfolding get
get_path t st repo relpath none = some (st, none)
get_path t st repo relpath (some source_bytes) = found (get t st repo relpath source_bytes)
