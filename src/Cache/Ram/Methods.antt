-- ===== src/Cache/Ram/Methods.antt =====
-- What the methods of the cache promise.
use the_soverign_imperia_cit.Base.{
  ℕ, suc, ◌+◌, ◌≤◌, String, ◌≡◌, ◌≢◌, ◌⊎◌, refl, ap, ◌∙◌, List, [], ◌∷◌, true, false, Option, none,
  some, length, str_eq, eq_iff, arith, if◌then◌else◌, Bool-cases, inl, inr, ltb,
}
use the_soverign_imperia_cit.Cache.Ram.{
  Node, RamCache, find, has, without, unlink, link_at_head, drop, over_budget, evict, replace, put,
}
use the_soverign_imperia_cit.Cache.Ram.Nodes.{
  total, length-without, find-without_ne, has-without_self,
}
use the_soverign_imperia_cit.Cache.Ram.Victim.{HandInside}
use the_soverign_imperia_cit.Cache.Ram.Evict.{IsSound, view, value_of, drop-IsSound, evict_lem}

-- A cache between two calls: sound, and within both budgets.
pub record IsValid (c : RamCache) : Type 0 where
  pub sound : IsSound c
  pub entries_fit : length c.nodes ≤ c.max_entries
  pub bytes_fit : c.bytes ≤ c.max_bytes

over_budget-false :
    (c : RamCache)
    → over_budget c ≡ false
    → (length c.nodes ≤ c.max_entries) × (c.bytes ≤ c.max_bytes)
unfolding over_budget
over_budget-false c h = ground arith

pub replace-IsSound : (c : RamCache) (k : String) → IsSound c → IsSound (replace c k)
unfolding replace
replace-IsSound c k s = elim (Bool-cases (has c.nodes k)) [
  | inl h ↦ rw h (drop-IsSound c k s)
  | inr h ↦ rw h s
]

replace-absent : (c : RamCache) (k : String) → IsSound c → has (replace c k).nodes k ≡ false
unfolding replace drop unlink
replace-absent c k s = elim (Bool-cases (has c.nodes k)) [
  | inl h ↦ rw h (has-without_self c.nodes k s.distinct)
  | inr h ↦ rw h h
]

-- What taking the old node off leaves.
pub replace_smaller :
    (c : RamCache) (k : String)
    → (length (replace c k).nodes ≤ length c.nodes)
      × ((replace c k).bytes ≤ c.bytes)
      × ((replace c k).max_entries ≡ c.max_entries)
      × ((replace c k).max_bytes ≡ c.max_bytes)
unfolding replace drop unlink
replace_smaller c k = elim (Bool-cases (has c.nodes k)) [
  | inl h ↦ rw h (omega (arith, length-without c.nodes k h), omega arith, refl, refl)
  | inr h ↦ rw h (omega arith, omega arith, refl, refl)
]

pub view-absent : (ns : List Node) (k : String) → has ns k ≡ false → view ns k ≡ none
unfolding value_of find
view-absent [] k h = refl
view-absent (n ∷ ns) k h = ground (arith, view-absent ns k)

pub view-without_ne : (ns : List Node) (k j : String) → k ≢ j → view (without ns k) j ≡ view ns j
view-without_ne ns k j ne = ap value_of (find-without_ne ns k j ne)

pub view-replace :
    (c : RamCache) (k j : String)
    → IsSound c
    → view (replace c k).nodes j ≡ (if str_eq k j then none else view c.nodes j)
view-replace c k j s = elim (Bool-cases (str_eq k j)) [
  | inl e ↦
      rw e (rw (← (eq_iff k j).0 e) (view-absent (replace c k).nodes k (replace-absent c k s)))
  | inr e ↦ rw e (other (λ p. ground (arith, eq_iff k j)) (Bool-cases (has c.nodes k)))
]
  where
    other :
        k ≢ j
        → (has c.nodes k ≡ true) ⊎ (has c.nodes k ≡ false)
        → view (replace c k).nodes j ≡ view c.nodes j
    other ne (inl h) = unfold replace drop unlink in rw h (view-without_ne c.nodes k j ne)
    other ne (inr h) = unfold replace in rw h refl

-- The views after a put: the key shows the new value or nothing, every other key its old value or
-- nothing.
abbrev pub PutView : RamCache → String → List ℕ → RamCache → Type 0
PutView c k value c' =
    (j : String)
    → (view c'.nodes j ≡ none)
      ⊎ (view c'.nodes j ≡ (if str_eq k j then some value else view c.nodes j))

-- The cache that the eviction loop starts from.
abbrev linked : RamCache → String → List ℕ → RamCache
linked c k value =
    let l =
      link_at_head (replace c k)
        (record { key = k; value = value; size = length value; visited = false }) in
    record l { bytes = l.bytes + length value }

linked-IsSound :
    (c : RamCache) (k : String) (value : List ℕ) → IsSound c → IsSound (linked c k value)
unfolding link_at_head total
linked-IsSound c k value s =
    let r = replace-IsSound c k s in
    record {
      distinct = (replace-absent c k s, r.distinct);
      hand_inside = grown (replace c k).hand r.hand_inside;
      counted = omega (arith, r.counted);
    }
  where
    grown :
        (hand : Option String)
        → HandInside hand (replace c k).nodes
        → HandInside hand (linked c k value).nodes
    grown none i = tt
    grown (some h) i = ground arith

view-linked :
    (c : RamCache) (k j : String) (value : List ℕ)
    → IsSound c
    → view (linked c k value).nodes j ≡ (if str_eq k j then some value else view c.nodes j)
unfolding link_at_head find value_of
view-linked c k j value s = ground (arith, view-replace c k j s)

linked_same :
    (c : RamCache) (k : String) (value : List ℕ)
    → ((linked c k value).max_entries ≡ c.max_entries)
      × ((linked c k value).max_bytes ≡ c.max_bytes)
unfolding link_at_head
linked_same c k value = let sm = replace_smaller c k in (sm.2, sm.3)

put_too_big :
    (c : RamCache) (k : String) (value : List ℕ)
    → ltb (replace c k).max_bytes (length value) ≡ true
    → put c k value ≡ some (replace c k)
unfolding put
put_too_big c k value h = rw h

put_fits :
    (c : RamCache) (k : String) (value : List ℕ)
    → ltb (replace c k).max_bytes (length value) ≡ false
    → put c k value ≡ evict (suc (length (linked c k value).nodes)) (linked c k value)
unfolding put
put_fits c k value h = rw h

-- A put into a valid cache ends and leaves it valid, within the entry and the byte budget, which do
-- not change. Afterwards the key shows the new value or nothing, and every other key shows what it
-- showed before or nothing: no stale value is left under the key.
pub put-IsValid :
    (c : RamCache) (k : String) (value : List ℕ)
    → IsValid c
    → (c' : RamCache) × (put c k value ≡ some c')
      × IsValid c'
      × (c'.max_entries ≡ c.max_entries)
      × (c'.max_bytes ≡ c.max_bytes)
      × PutView c k value c'
put-IsValid c k value v = elim (Bool-cases (ltb (replace c k).max_bytes (length value))) [
  | inl big ↦
      let sm = replace_smaller c k in
      (
        replace c k,
        put_too_big c k value big,
        record {
          sound = replace-IsSound c k v.sound;
          entries_fit = omega (arith, v.entries_fit);
          bytes_fit = omega (arith, v.bytes_fit);
        },
        sm.2,
        sm.3,
        λ j. ground (arith, view-replace c k j v.sound),
      )
  | inr fits ↦
      let (c', done, got) =
        evict_lem (suc (length (linked c k value).nodes)) (linked c k value) (omega arith)
          (linked-IsSound c k value v.sound) in
      let within = over_budget-false c' got.within in
      (
        c',
        put_fits c k value fits ∙ done,
        record { sound = got.sound; entries_fit = within.0; bytes_fit = within.1 },
        got.same_entries ∙ (linked_same c k value).0,
        got.same_bytes ∙ (linked_same c k value).1,
        λ j. ground (arith, got.part j, view-linked c k j value v.sound),
      )
]
