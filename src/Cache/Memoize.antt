-- ===== src/Cache/Memoize.antt =====
-- src/citadel/services/cache/memoize.py: results kept under their key in the cache in memory and, when
-- a directory is configured, in files. The pickling of values is a parameter; the files are a
-- dictionary from their names to blobs, where a key is taken to have no separator of paths. Each `none` of a state is the fuel of the cache.
pub mod Remembered
use Prim.Native.Char.{code}
use the_soverign_imperia_cit.Base.{ℕ, String, List, Option, none, some, ◌==◌, if◌then◌else◌}
use the_soverign_imperia_cit.Base.Dict
use the_soverign_imperia_cit.Base.Dict.{Dict}
use the_soverign_imperia_cit.Base.Text.{Text, append}
use the_soverign_imperia_cit.Cache.Ram
use the_soverign_imperia_cit.Cache.Ram.{RamCache}

pub record Memo : Type 0 where
  pub hot : RamCache
  pub disk : Option (Dict Text)

pub record Pickle (V : Type 0) : Type 0 where
  pub dumps : V → Text
  pub loads : Text → V

-- `key.replace(':', '__')`, which names the file.
unfoldable pub disk_name : String → String
unfolding append
disk_name String.[] = ""
disk_name (String.◌∷◌ c key) =
    let rest = disk_name key in if code c == b':' then append "__" rest else String.◌∷◌ c rest

abbrev pub disk_get : Option (Dict Text) → String → Option Text
disk_get none key = none
disk_get (some files) key = Dict.get files (disk_name key)

abbrev pub disk_put : Option (Dict Text) → String → Text → Option (Dict Text)
disk_put none key blob = none
disk_put (some files) key blob = some (Dict.put files (disk_name key) blob)

abbrev pub with_hot : Memo → Option RamCache → Option Memo
with_hot m none = none
with_hot m (some hot) = some (record m { hot = hot })

-- The blob under a key: from memory, or from its file, which then goes into memory. The second
-- `none` is the sentinel of a miss.
unfoldable pub get_blob : Memo → String → Option Memo × Option Text
get_blob m key = elim (Ram.get m.hot key).1 [
  | some blob ↦ (some (record m { hot = (Ram.get m.hot key).0 }), some blob)
  | none ↦ elim (disk_get m.disk key) [
    | none ↦ (some (record m { hot = (Ram.get m.hot key).0 }), none)
    | some blob ↦ (with_hot m (Ram.put (Ram.get m.hot key).0 key blob), some blob)
  ]
]

unfoldable pub put_blob : Memo → String → Text → Option Memo
put_blob m key blob =
    with_hot (record m { disk = disk_put m.disk key blob }) (Ram.put m.hot key blob)

abbrev pub keep_result : {V : Type 0} → Option Memo → V → Option (Memo × V)
keep_result none result = none
keep_result (some m) result = some (m, result)

abbrev pub put_result : {V : Type 0} → Pickle V → Option Memo → String → V → Option (Memo × V)
put_result p none key result = none
put_result p (some m) key result = keep_result (put_blob m key (p.dumps result)) result

-- `cached_call` for a key and the value that the function would compute.
unfoldable pub cached_call : {V : Type 0} → Pickle V → Memo → String → V → Option (Memo × V)
unfolding get_blob put_blob
cached_call p m key computed = elim (get_blob m key).1 [
  | some blob ↦ keep_result (get_blob m key).0 (p.loads blob)
  | none ↦ put_result p (get_blob m key).0 key computed
]
