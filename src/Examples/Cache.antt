-- ===== src/Examples/Cache.antt =====
-- The cache in memory at concrete inputs (src/citadel/services/cache/ram_cache.py).
use the_soverign_imperia_cit.Base.{ℕ, ◌≡◌, ◌<◌, refl, List, [], ◌∷◌, Option, none, some, inl}
use the_soverign_imperia_cit.Cache.Ram.{RamCache, sieve, lru, init, find, get, put}
use the_soverign_imperia_cit.Cache.Ram.Evict.{value_of}
use the_soverign_imperia_cit.Cache.Ram.Methods
use the_soverign_imperia_cit.Cache.Ram.Methods.{IsValid, PutView}
use the_soverign_imperia_cit.Cache.Ram.Calls
use the_soverign_imperia_cit.Cache.Ram.Calls.{Call, get_call, put_call, run, Honest}

-- Two entries and ten bytes.
abbrev empty : RamCache
empty = record {
  max_entries = 2;
  max_bytes = 10;
  policy = sieve;
  nodes = [];
  hand = none;
  bytes = 0;
  hits = 0;
  misses = 0;
  evictions = 0;
}

made : init 2 10 "sieve" ≡ some empty
unfolding init
made = refl

empty-IsValid : IsValid empty
empty-IsValid = (Calls.init-IsValid 2 10 "sieve" empty made).0

abbrev script : List Call
script =
    put_call "a" (1 ∷ [])
    ∷ put_call "b" (2 ∷ [])
    ∷ get_call "a"
    ∷ put_call "c" (3 ∷ [])
    ∷ get_call "a"
    ∷ get_call "b"
    ∷ get_call "c"
    ∷ []

abbrev answers_of : Option (RamCache × List (Option (List ℕ))) → List (Option (List ℕ))
answers_of none = []
answers_of (some r) = r.1

-- The scan spares the entry that was read.
sieve_test :
    answers_of (run empty script) ≡ some (1 ∷ []) ∷ some (1 ∷ []) ∷ none ∷ some (3 ∷ []) ∷ []
unfolding run get put
sieve_test = refl

lru_test :
    answers_of (run (record empty { policy = lru }) script)
    ≡ some (1 ∷ []) ∷ some (1 ∷ []) ∷ none ∷ some (3 ∷ []) ∷ []
unfolding run get put
lru_test = refl

init-IsValid_example : IsValid empty × (0 < empty.max_entries) × (0 < empty.max_bytes)
init-IsValid_example = Calls.init-IsValid 2 10 "sieve" empty made

put-IsValid_example :
    (c' : RamCache) × (put empty "a" (1 ∷ []) ≡ some c')
    × IsValid c'
    × (c'.max_entries ≡ 2)
    × (c'.max_bytes ≡ 10)
    × PutView empty "a" (1 ∷ []) c'
put-IsValid_example = Methods.put-IsValid empty "a" (1 ∷ []) empty-IsValid

run-Honest_example :
    (c' : RamCache) × (answers : List (Option (List ℕ))) × (run empty script ≡ some (c', answers))
    × IsValid c'
    × Honest (λ k. none) script answers
unfolding find value_of
run-Honest_example = Calls.run-Honest (λ k. none) empty script empty-IsValid (λ k. inl refl)
