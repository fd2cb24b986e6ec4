-- ===== src/Examples/Compiled.antt =====
-- The compiled units, their store and the filter at concrete inputs
-- (src/citadel/services/compile, tools/_content_address.py).
use the_soverign_imperia_cit.Base.{
  ℕ, String, ◌≡◌, refl, ◌↔◌, [], ◌∷◌, ◌++◌, true, none, some, if◌then◌else◌, ◌⊎◌, inl, inr,
  Bool-cases, ◌≢◌, arith, eq_iff, take, drop,
}
use the_soverign_imperia_cit.Base.Dict
use the_soverign_imperia_cit.Base.Text.{Text, codes, same}
use the_soverign_imperia_cit.Compile.Store.{LegionStore, Tools, get, write_mirror, count_hit}
use the_soverign_imperia_cit.Compile.Store.Served.{get-IsServed}
use the_soverign_imperia_cit.Compile.Store.Stored.{key_of, IsCollisionFree, IsHonest}
use the_soverign_imperia_cit.Compile.Unit.{
  LegionUnit, Marshal, Compiler, compute_keys, compile, loads, magic, key_error, usable,
}
use the_soverign_imperia_cit.Compile.Unit.Loaded.{
  IsReadBack, IsCurrentWith, IsOf, IsLacking, loads_iff,
}
use the_soverign_imperia_cit.Tools.Bloom
use the_soverign_imperia_cit.Tools.Bloom.{BloomFilter, Bytes, Rates}
use the_soverign_imperia_cit.Tools.Bloom.Kept.{IsSized, AreAdded, add_all, add_all-AreAdded}
use the_soverign_imperia_cit.Tools.Bloom.Saved.{rated, load-save}

abbrev halves : String → ℕ × ℕ
halves item = (3, 5)

abbrev filter : BloomFilter
filter = record {
  capacity = 4;
  fp_rate = 1;
  n_bits = 20;
  n_hashes = 2;
  bits = 0 ∷ 0 ∷ 0 ∷ [];
  count = 0;
}

filter-IsSized : IsSized filter
filter-IsSized = record { some_bits = omega arith; room = omega arith }

add_all-AreAdded_example :
    AreAdded halves filter ("a" ∷ "b" ∷ []) (add_all halves (some filter) ("a" ∷ "b" ∷ []))
add_all-AreAdded_example = add_all-AreAdded halves filter ("a" ∷ "b" ∷ []) filter-IsSized

filter-saved : Bloom.save filter ≡ some (Bloom.encoded filter)
unfolding Bloom.save
filter-saved = refl

abbrev rates : Rates
rates = record {
  in_range = λ r. true;
  bits = λ c r. 20;
  hashes = λ n c. 2;
  optimal_fp_rate = λ n c h. 7;
}

load-save_example :
    (Bloom.load rates (Bloom.encoded filter) ≡ some (rated rates filter))
    × ((halves : String → ℕ × ℕ) (item : String)
        → Bloom.contains halves (rated rates filter) item ≡ Bloom.contains halves filter item)
load-save_example = load-save rates filter (Bloom.encoded filter) filter-saved

-- A digest that tells the empty text and the text of the key of the empty source from all others.
abbrev digest : Text → String
digest [] = "a"
digest (c ∷ []) = "x"
digest (c ∷ d ∷ []) = "x"
digest (c ∷ d ∷ e ∷ []) = if same (c ∷ d ∷ e ∷ []) (codes "a::") then "b" else "x"
digest (c ∷ d ∷ e ∷ f ∷ s) = "x"

abbrev compiler : Compiler
compiler = record {
  sha256_hex = digest;
  decode = λ b. some b;
  parts = λ p. p ∷ [];
  extract_symbols = λ s p. [];
  extract_imports = λ s p. [];
}

abbrev empty_unit : LegionUnit
empty_unit = record {
  source_sha = "a";
  cache_key = "b";
  relpath = "";
  module_name = some "";
  imports = [];
  features = [];
  line_count = 0;
  symbols = [];
}

abbrev marshal : Marshal
marshal = record {
  py_tag = "py";
  dumps = λ p. [];
  loads = λ b. some (
      some (record {
        v = some 1;
        py = some "py";
        sha = some "a";
        key = some "b";
        relpath = some "";
        module_name = some "";
        imports = usable [];
        features = usable [];
        line_count = usable 0;
        symbols = usable [];
      }));
}

abbrev tools : Tools
tools = record { compiler = compiler; marshal = marshal; halves = halves }

abbrev store : LegionStore
store = record {
  facts = [];
  mirror = [];
  stats = record { hits = 0; compiles = 0; stale = 0 };
  bloom = filter;
  bloom_file = none;
}

reads_back : IsReadBack marshal (compile compiler "" [])
unfolding compile same
reads_back = refl

digest-cons : (c : ℕ) (b : Text) → (digest (c ∷ b) ≡ "x") ⊎ (digest (c ∷ b) ≡ "b")
digest-cons c [] = inl refl
digest-cons c (d ∷ []) = inl refl
digest-cons c (d ∷ e ∷ []) = elim (Bool-cases (same (c ∷ d ∷ e ∷ []) (codes "a::"))) [
  | inl s ↦ inr (rw s refl)
  | inr s ↦ inl (rw s refl)
]
digest-cons c (d ∷ e ∷ f ∷ s) = inl refl

abbrev key_text : String → String → Text
key_text sha r = codes sha ++ codes "::" ++ codes r

other_key : (sha r : String) → (sha ≡ "x") ⊎ (sha ≡ "b") → "b" ≢ digest (key_text sha r)
unfolding same
other_key sha String.[] (inl e) = rw e (λ p. ground (arith, p, eq_iff "b" "x"))
other_key sha String.[] (inr e) = rw e (λ p. ground (arith, p, eq_iff "b" "x"))
other_key sha (String.◌∷◌ c s) (inl e) = rw e (λ p. ground (arith, p, eq_iff "b" "x"))
other_key sha (String.◌∷◌ c s) (inr e) = rw e (λ p. ground (arith, p, eq_iff "b" "x"))

free : IsCollisionFree tools "" []
unfolding compute_keys same
free String.[] [] e = (refl, refl)
free (String.◌∷◌ c s) [] e = absurd (ground (arith, e, eq_iff "b" "x"))
free r (c ∷ b) e = absurd (other_key (digest (c ∷ b)) r (digest-cons c b) e)

store-IsHonest : IsHonest tools store
unfolding Dict.get
store-IsHonest relpath source_bytes blob g = absurd (ground (arith, g))

filter-fits : Bloom.fits (record filter { count = 1 }) ≡ true
unfolding Bloom.fits
filter-fits = refl

get-IsServed_example :
    (st' : LegionStore) × (get tools store "r" "" [] ≡ some (st', compile compiler "" []))
    × IsHonest tools st'
    × IsSized st'.bloom
    × (get tools st' "r" "" []
        ≡ some (write_mirror (count_hit st') "r" "" (key_of tools "" []), compile compiler "" []))
get-IsServed_example =
    get-IsServed tools store "r" "" [] reads_back free store-IsHonest filter-IsSized filter-fits

loads_iff_example :
    ((loads marshal (codes "LGN1") (some "b") ≡ inr empty_unit) ↔ (
      (take 4 (codes "LGN1") ≡ magic)
      × IsCurrentWith marshal "b" (marshal.loads (drop 4 (codes "LGN1"))) (λ p. IsOf p empty_unit)))
    × ((loads marshal (codes "LGN1") (some "b") ≡ inl key_error) ↔ (
        (take 4 (codes "LGN1") ≡ magic)
        × IsCurrentWith marshal "b" (marshal.loads (drop 4 (codes "LGN1"))) IsLacking))
loads_iff_example = loads_iff marshal (codes "LGN1") "b" empty_unit
