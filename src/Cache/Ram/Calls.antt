-- ===== src/Cache/Ram/Calls.antt =====
-- A run of calls against the dictionary that forgets nothing.
use the_soverign_imperia_cit.Base.{
  ℕ, ◌<◌, String, ◌≡◌, ◌⊎◌, refl, ◌∙◌, List, [], ◌∷◌, Option, none, some, str_eq, arith,
  if◌then◌else◌, inl,
}
use the_soverign_imperia_cit.Cache.Ram.{RamCache, init, get, put, delete, clear}
use the_soverign_imperia_cit.Cache.Ram.Nodes.{total}
use the_soverign_imperia_cit.Cache.Ram.Evict.{view}
use the_soverign_imperia_cit.Cache.Ram.Methods.{IsValid, put-IsValid}
use the_soverign_imperia_cit.Cache.Ram.Reads.{get_lem, delete_lem, clear-IsValid, view-clear}

pub data Call : Type 0 where
  get_call : String → Call
  put_call : String → List ℕ → Call
  delete_call : String → Call
  clear_call : Call

-- The loop over the calls; each `get` adds its answer.
unfoldable pub run : RamCache → List Call → Option (RamCache × List (Option (List ℕ)))
run c [] = some (c, [])
run c (get_call k ∷ calls) =
    let (c', answer) = get c k in
    elim (run c' calls) [ none ↦ none | some (d, answers) ↦ some (d, answer ∷ answers) ]
run c (put_call k v ∷ calls) = elim (put c k v) [ none ↦ none | some c' ↦ run c' calls ]
run c (delete_call k ∷ calls) = run (delete c k).0 calls
run c (clear_call ∷ calls) = run (clear c) calls

-- What a dictionary that nothing is evicted from shows.
abbrev Store : Type 0
Store = String → Option (List ℕ)

unfoldable pub note : Store → Call → Store
note s (get_call k) = s
note s (put_call k v) = λ j. if str_eq k j then some v else s j
note s (delete_call k) = λ j. if str_eq k j then none else s j
note s clear_call = λ j. none

-- The answers that a cache over the store may give: the stored value, or nothing.
unfoldable pub Honest : Store → List Call → List (Option (List ℕ)) → Type 0
Honest s [] [] = Unit
Honest s [] (a ∷ answers) = ⊥
Honest s (get_call k ∷ calls) [] = ⊥
Honest s (get_call k ∷ calls) (a ∷ answers) = ((a ≡ none) ⊎ (a ≡ s k)) × Honest s calls answers
Honest s (put_call k v ∷ calls) answers = Honest (note s (put_call k v)) calls answers
Honest s (delete_call k ∷ calls) answers = Honest (note s (delete_call k)) calls answers
Honest s (clear_call ∷ calls) answers = Honest (note s clear_call) calls answers

-- The cache shows a part of the store.
abbrev pub Covers : Store → RamCache → Type 0
Covers s c = (j : String) → (view c.nodes j ≡ none) ⊎ (view c.nodes j ≡ s j)

run-put :
    (c d : RamCache) (k : String) (value : List ℕ) (calls : List Call)
    → put c k value ≡ some d
    → run c (put_call k value ∷ calls) ≡ run d calls
unfolding run
run-put c d k value calls h = ground arith

run-get :
    (c d : RamCache) (k : String) (calls : List Call) (answers : List (Option (List ℕ)))
    → run (get c k).0 calls ≡ some (d, answers)
    → run c (get_call k ∷ calls) ≡ some (d, (get c k).1 ∷ answers)
unfolding run
run-get c d k calls answers h = ground arith

-- Every run of calls from a valid cache ends in a valid cache, and every `get` on the way answers
-- with nothing or with the value that the last call on its key left: never with a stale one.
pub run-Honest :
    (s : Store) (c : RamCache) (calls : List Call)
    → IsValid c
    → Covers s c
    → (c' : RamCache) × (answers : List (Option (List ℕ))) × (run c calls ≡ some (c', answers))
      × IsValid c'
      × Honest s calls answers
unfolding run Honest
run-Honest s c [] v h = (c, [], refl, v, tt)
run-Honest s c (get_call k ∷ calls) v h =
    let (answer, same) = get_lem c k v in
    let (c', answers, done, v', honest) =
      run-Honest s (get c k).0 calls same.valid (λ j. ground (arith, h j, same.views j)) in
    (
      c',
      (get c k).1 ∷ answers,
      run-get c c' k calls answers done,
      v',
      (ground (arith, h k), honest),
    )
run-Honest s c (put_call k value ∷ calls) v h =
    let (d, stored, vd, e1, e2, views) = put-IsValid c k value v in
    let (c', answers, done, v', honest) =
      run-Honest (note s (put_call k value)) d calls vd
        (unfold note in λ j. ground (arith, h j, views j)) in
    (c', answers, run-put c d k value calls stored ∙ done, v', honest)
run-Honest s c (delete_call k ∷ calls) v h =
    run-Honest (note s (delete_call k)) (delete c k).0 calls (delete_lem c k k v).1
      (unfold note in λ j. ground (arith, h j, (delete_lem c k j v).2))
run-Honest s c (clear_call ∷ calls) v h =
    run-Honest (note s clear_call) (clear c) calls (clear-IsValid c) (λ j. inl (view-clear c j))

-- A new cache is valid, whatever its budgets and its policy.
pub init-IsValid :
    (max_entries max_bytes : ℕ) (policy : String) (c : RamCache)
    → init max_entries max_bytes policy ≡ some c
    → IsValid c × (0 < c.max_entries) × (0 < c.max_bytes)
unfolding init total
init-IsValid max_entries max_bytes policy c h = ground arith
