-- ===== src/Compile/Unit.antt =====
-- src/citadel/services/compile/unit.py and compiler.py: the compiled unit, its bytes and how a source
-- becomes one. marshal, the digest, the parts that pathlib gives and the extractors are parameters.
pub mod Fields
pub mod Loaded
use the_soverign_imperia_cit.Base.{
  ℕ, suc, String, List, [], ◌∷◌, ◌++◌, Bool, true, false, not, ◌&&◌, Option, none, some, ◌⊎◌, inl,
  inr, map, str_eq, ◌==◌, take, drop, if◌then◌else◌,
}
use the_soverign_imperia_cit.Base.Text.{Text, codes, same, append}

pub record Symbol : Type 0 where
  pub repo : String
  pub path : String
  pub qualname : String
  pub kind : String
  pub start_line : ℕ
  pub end_line : ℕ

-- A symbol without its repository.
pub record Fact : Type 0 where
  pub path : String
  pub qualname : String
  pub kind : String
  pub start_line : ℕ
  pub end_line : ℕ

pub record LegionUnit : Type 0 where
  pub source_sha : String
  pub cache_key : String
  pub relpath : String
  pub module_name : Option String
  pub imports : List String
  pub features : List String
  pub line_count : ℕ
  pub symbols : List Fact

unfoldable pub symbols_for : LegionUnit → String → List Symbol
symbols_for u repo =
    map
      (λ s. record {
        repo = repo;
        path = u.relpath;
        qualname = s.qualname;
        kind = s.kind;
        start_line = s.start_line;
        end_line = s.end_line;
      })
      u.symbols

-- A value of a dictionary that `list` or `int` converts, where it may raise a TypeError or a ValueError.
pub data Field (A : Type 0) : Type 0 where
  absent : Field A
  usable : A → Field A
  unusable : Field A

-- The dictionary that is marshalled; a key that it does not have is `none` or absent.
pub record Payload : Type 0 where
  pub v : Option ℕ
  pub py : Option String
  pub sha : Option String
  pub key : Option String
  pub relpath : Option String
  pub module_name : Option String
  pub imports : Field (List String)
  pub features : Field (List String)
  pub line_count : Field ℕ
  pub symbols : Field (List Fact)

-- `none` of `loads` is an exception, and the second one a value that is no dictionary.
pub record Marshal : Type 0 where
  pub py_tag : String
  pub dumps : Payload → Text
  pub loads : Text → Option (Option Payload)

abbrev pub schema_version : ℕ
schema_version = 1

abbrev pub magic : Text
magic = codes "LGN1"

abbrev pub payload : Marshal → LegionUnit → Payload
payload m u = record {
  v = some schema_version;
  py = some m.py_tag;
  sha = some u.source_sha;
  key = some u.cache_key;
  relpath = some u.relpath;
  module_name = u.module_name;
  imports = usable u.imports;
  features = usable u.features;
  line_count = usable u.line_count;
  symbols = usable u.symbols;
}

unfoldable pub dumps : Marshal → LegionUnit → Text
dumps m u = magic ++ m.dumps (payload m u)

pub data StaleUnit : Type 0 where
  bad_magic : StaleUnit
  corrupt_payload : StaleUnit
  not_a_dict : StaleUnit
  other_schema : StaleUnit
  other_interpreter : StaleUnit
  key_mismatch : StaleUnit

-- What `loads` raises: a StaleUnit, or an exception of building the unit that nothing turns into one.
pub data LoadError : Type 0 where
  stale : StaleUnit → LoadError
  key_error : LoadError
  conversion_error : LoadError

-- `payload.get(...) == value`
abbrev pub is_number : Option ℕ → ℕ → Bool
is_number none n = false
is_number (some v) n = v == n

abbrev pub is_text : Option String → String → Bool
is_text none s = false
is_text (some v) s = str_eq v s

abbrev pub key_differs : Option String → Option String → Bool
key_differs none key = false
key_differs (some expected) key = not (is_text key expected)

-- `list(payload.get(..., default))`, and `int` in the same way.
abbrev pub converted : {A : Type 0} → Field A → A → Option A
converted absent default = some default
converted (usable x) default = some x
converted unusable default = none

-- The unit from the values of its fields.
unfoldable pub unit_of :
    Option String
    → Option String
    → Option String
    → Option String
    → Option (List String)
    → Option (List String)
    → Option ℕ
    → Option (List Fact)
    → LoadError ⊎ LegionUnit
unit_of none key relpath m imports features n symbols = inl key_error
unit_of (some sha) none relpath m imports features n symbols = inl key_error
unit_of (some sha) (some key) none m imports features n symbols = inl key_error
unit_of (some sha) (some key) (some relpath) m none features n symbols = inl conversion_error
unit_of (some sha) (some key) (some relpath) m (some imports) none n symbols = inl conversion_error
unit_of (some sha) (some key) (some relpath) m (some imports) (some features) none symbols =
    inl conversion_error
unit_of (some sha) (some key) (some relpath) m (some imports) (some features) (some n) none =
    inl conversion_error
unit_of (some sha) (some key) (some relpath) m (some imports) (some features) (some n)
      (some symbols) =
    inr (record {
      source_sha = sha;
      cache_key = key;
      relpath = relpath;
      module_name = m;
      imports = imports;
      features = features;
      line_count = n;
      symbols = symbols;
    })

abbrev pub built : Payload → LoadError ⊎ LegionUnit
built p =
    unit_of p.sha p.key p.relpath p.module_name (converted p.imports []) (converted p.features [])
      (converted p.line_count 0) (converted p.symbols [])

unfoldable pub checked : Marshal → Option String → Option (Option Payload) → LoadError ⊎ LegionUnit
unfolding unit_of
checked m expected_key none = inl (stale corrupt_payload)
checked m expected_key (some none) = inl (stale not_a_dict)
checked m expected_key (some (some p)) =
    if not (is_number p.v schema_version)
    then inl (stale other_schema)
    else if not (is_text p.py m.py_tag)
    then inl (stale other_interpreter)
    else if key_differs expected_key p.key
    then inl (stale key_mismatch)
    else built p

unfoldable pub loads : Marshal → Text → Option String → LoadError ⊎ LegionUnit
unfolding checked
loads m blob expected_key =
    if same (take 4 blob) magic
    then checked m expected_key (m.loads (drop 4 blob))
    else inl (stale bad_magic)

-- What compiling calls. `none` of `decode` is a UnicodeDecodeError.
pub record Compiler : Type 0 where
  pub sha256_hex : Text → String
  pub decode : Text → Option Text
  pub parts : String → List String
  pub extract_symbols : Text → String → List Symbol
  pub extract_imports : Text → String → List String

unfoldable pub compute_keys : Compiler → String → Text → String × String
compute_keys c relpath source_bytes =
    let source_sha = c.sha256_hex source_bytes in
    (source_sha, c.sha256_hex (codes source_sha ++ codes "::" ++ codes relpath))

abbrev drop_init : List String → List String
drop_init [] = []
drop_init (p ∷ []) = if str_eq p "__init__" then [] else p ∷ []
drop_init (p ∷ q ∷ ps) = p ∷ drop_init (q ∷ ps)

abbrev dotted : List String → Option String
dotted [] = none
dotted (p ∷ []) = some p
dotted (p ∷ q ∷ ps) = elim (dotted (q ∷ ps)) [
  | none ↦ some p
  | some rest ↦ some (append p (append "." rest))
]

unfoldable pub module_from_relpath : Compiler → String → Option String
unfolding append
module_from_relpath c relpath = dotted (drop_init (c.parts relpath))

unfoldable pub newlines : Text → ℕ
newlines [] = 0
newlines (c ∷ s) = let rest = newlines s in if c == 10 then suc rest else rest

abbrev line_count_of : Text → ℕ
line_count_of [] = 0
line_count_of (c ∷ s) = suc (newlines (c ∷ s))

abbrev or_empty_text : Option Text → Text
or_empty_text none = []
or_empty_text (some s) = s

abbrev or_empty : Option String → String
or_empty none = ""
or_empty (some s) = s

abbrev untagged : Symbol → Fact
untagged s = record {
  path = s.path;
  qualname = s.qualname;
  kind = s.kind;
  start_line = s.start_line;
  end_line = s.end_line;
}

-- `LegionCompiler.compile`; the extractor gives the imports sorted.
unfoldable pub compile : Compiler → String → Text → LegionUnit
unfolding compute_keys module_from_relpath newlines
compile c relpath source_bytes =
    let source = or_empty_text (c.decode source_bytes) in
    let module_name = module_from_relpath c relpath in
    record {
      source_sha = (compute_keys c relpath source_bytes).0;
      cache_key = (compute_keys c relpath source_bytes).1;
      relpath = relpath;
      module_name = module_name;
      imports = c.extract_imports source (or_empty module_name);
      features = [];
      line_count = line_count_of source;
      symbols = map untagged (c.extract_symbols source relpath);
    }
