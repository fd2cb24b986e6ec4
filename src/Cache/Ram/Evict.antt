-- ===== src/Cache/Ram/Evict.antt =====
-- The eviction loop: it ends, within the budget, and keeps the cache sound.
use the_soverign_imperia_cit.Base.{
  ℕ, zero, suc, ◌<◌, String, ◌≡◌, ◌≢◌, ◌⊎◌, refl, ap, sym, ◌∙◌, List, [], ◌∷◌, true, false, Option,
  none, some, length, str_eq, eq_iff, arith, if◌then◌else◌, Bool-cases, inl, inr,
}
use the_soverign_imperia_cit.Cache.Ram.{
  Node, RamCache, find, has, newer, without, is_at, unlink, drop, over_budget, evict,
  count_eviction, pick_victim,
}
use the_soverign_imperia_cit.Cache.Ram.Nodes.{
  total, stored, IsDistinct, length-without, total-without, has-without_ne, find-without_ne,
  without-IsDistinct, newer_lem, length-stored, total-stored, has-without_self,
}
use the_soverign_imperia_cit.Cache.Ram.Victim.{HandInside, Chosen, choose, IsDistinct-stored_eq}

-- What holds of the list, the hand and the byte count between any two statements that matter.
pub record IsSound (c : RamCache) : Type 0 where
  pub distinct : IsDistinct c.nodes
  pub hand_inside : HandInside c.hand c.nodes
  pub counted : c.bytes ≡ total c.nodes

-- The value under a key.
unfoldable pub value_of : Option Node → Option (List ℕ)
value_of none = none
value_of (some n) = some n.value

abbrev pub view : List Node → String → Option (List ℕ)
view ns k = value_of (find ns k)

pub view-stored : (ns : List Node) (k : String) → view (stored ns) k ≡ view ns k
unfolding value_of find
view-stored [] k = refl
view-stored (n ∷ ns) k = ground (arith, view-stored ns k)

-- A part of a cache: each key has its old value or none.
abbrev pub IsPart : List Node → List Node → Type 0
IsPart ms ns = (k : String) → (view ms k ≡ none) ⊎ (view ms k ≡ view ns k)

find-none : (ns : List Node) (k : String) → has ns k ≡ false → find ns k ≡ none
unfolding find
find-none [] k h = refl
find-none (n ∷ ns) k h = ground (arith, find-none ns k)

view-without : (ns : List Node) (k : String) → IsDistinct ns → IsPart (without ns k) ns
unfolding value_of
view-without ns k d j = elim (Bool-cases (str_eq k j)) [
  | inl e ↦ inl (ground (arith, eq_iff k j, find-none (without ns k) k (has-without_self ns k d)))
  | inr e ↦ inr (ap value_of (find-without_ne ns k j (λ p. ground (arith, eq_iff k j))))
]

HandInside-without :
    (ns : List Node) (h k : String) → h ≢ k → has ns h ≡ true → has (without ns k) h ≡ true
HandInside-without ns h k ne i = has-without_ne ns k h (λ e. ne (sym e)) ∙ i

pub unlink-HandInside :
    (hand : Option String) (ns : List Node) (k : String)
    → IsDistinct ns
    → HandInside hand ns
    → HandInside (if is_at hand k then newer ns k else hand) (without ns k)
unlink-HandInside none ns k d i = tt
unlink-HandInside (some h) ns k d i = elim (Bool-cases (str_eq h k)) [
  | inl e ↦ rw e (stepped (newer ns k) refl)
  | inr e ↦ rw e (HandInside-without ns h k (λ p. ground (arith, eq_iff h k)) i)
]
  where
    stepped : (o : Option String) → newer ns k ≡ o → HandInside o (without ns k)
    stepped none q = tt
    stepped (some g) q =
        let (inside, ne) = newer_lem ns k g d q in
        HandInside-without ns g k (λ e. ne (sym e)) inside

-- A node leaves a sound cache: one entry and its bytes less.
pub drop-IsSound : (c : RamCache) (k : String) → IsSound c → IsSound (drop c k)
unfolding drop unlink
drop-IsSound c k s = record {
  distinct = without-IsDistinct c.nodes k s.distinct;
  hand_inside = unlink-HandInside c.hand c.nodes k s.distinct s.hand_inside;
  counted = omega (arith, s.counted, total-without c.nodes k);
}

-- What an eviction loop promises of its result.
pub record Evicted (c c' : RamCache) : Type 0 where
  pub sound : IsSound c'
  pub within : over_budget c' ≡ false
  pub part : IsPart c'.nodes c.nodes
  pub same_entries : c'.max_entries ≡ c.max_entries
  pub same_bytes : c'.max_bytes ≡ c.max_bytes

stop : (fuel : ℕ) (c : RamCache) → over_budget c ≡ false → evict (suc fuel) c ≡ some c
unfolding evict
stop fuel c h = ground arith

go_on :
    (fuel : ℕ) (c c' : RamCache) (k : String)
    → over_budget c ≡ true
    → pick_victim c ≡ some (c', some k)
    → evict (suc fuel) c ≡ evict fuel (count_eviction (drop c' k))
unfolding evict
go_on fuel c c' k h p = ground arith

Chosen-IsSound :
    (c : RamCache) (s : IsSound c) (ch : Chosen c)
    → IsSound (record c { nodes = ch.nodes; hand = ch.hand })
Chosen-IsSound c s ch = record {
  distinct = IsDistinct-stored_eq ch.nodes c.nodes ch.kept s.distinct;
  hand_inside = ch.hand_inside;
  counted = s.counted ∙ sym (total-stored c.nodes) ∙ ap total (sym ch.kept) ∙ total-stored ch.nodes;
}

-- An over-full sound cache has a node.
has_node :
    (c : RamCache) (ns : List Node)
    → c.nodes ≡ ns
    → IsSound c
    → over_budget c ≡ true
    → (n : Node) × (ms : List Node) × (ns ≡ n ∷ ms)
unfolding over_budget total
has_node c [] e s o = absurd (ground (arith, ap length e, ap total e, s.counted))
has_node c (n ∷ ms) e s o = (n, ms, refl)

IsPart-trans : (a b c : List Node) → IsPart a b → IsPart b c → IsPart a c
IsPart-trans a b c p q k = ground (arith, p k, q k)

IsPart-stored_eq : (ms ns : List Node) → stored ms ≡ stored ns → IsPart ms ns
IsPart-stored_eq ms ns e k = inr (sym (view-stored ms k) ∙ ap (λ l. view l k) e ∙ view-stored ns k)

-- The cache after one round of the loop.
abbrev after_round : (c : RamCache) → Chosen c → RamCache
after_round c ch = count_eviction (drop (record c { nodes = ch.nodes; hand = ch.hand }) ch.victim)

round-IsSound : (c : RamCache) (s : IsSound c) (ch : Chosen c) → IsSound (after_round c ch)
round-IsSound c s ch =
    let d =
      drop-IsSound (record c { nodes = ch.nodes; hand = ch.hand }) ch.victim
        (Chosen-IsSound c s ch) in
    record { distinct = d.distinct; hand_inside = d.hand_inside; counted = d.counted }

round-IsPart :
    (c : RamCache) (s : IsSound c) (ch : Chosen c) → IsPart (after_round c ch).nodes c.nodes
unfolding drop unlink
round-IsPart c s ch =
    IsPart-trans (without ch.nodes ch.victim) ch.nodes c.nodes
      (view-without ch.nodes ch.victim (Chosen-IsSound c s ch).distinct)
      (IsPart-stored_eq ch.nodes c.nodes ch.kept)

length-round :
    (c : RamCache) (ch : Chosen c) → suc (length (after_round c ch).nodes) ≡ length c.nodes
unfolding drop unlink
length-round c ch =
    length-without ch.nodes ch.victim ch.inside
    ∙ sym (length-stored ch.nodes)
    ∙ ap length ch.kept
    ∙ length-stored c.nodes

round_same :
    (c : RamCache) (ch : Chosen c)
    → ((after_round c ch).max_entries ≡ c.max_entries)
      × ((after_round c ch).max_bytes ≡ c.max_bytes)
unfolding drop unlink
round_same c ch = (refl, refl)

-- With more fuel than there are nodes the loop ends by its test.
pub evict_lem :
    (fuel : ℕ) (c : RamCache)
    → length c.nodes < fuel
    → IsSound c
    → (c' : RamCache) × (evict fuel c ≡ some c') × Evicted c c'
evict_lem zero c lt s = absurd (omega arith)
evict_lem (suc fuel) c lt s = elim (Bool-cases (over_budget c)) [
  | inr o ↦ (
    c,
    stop fuel c o,
    record { sound = s; within = o; part = λ k. inr refl; same_entries = refl; same_bytes = refl },
  )
  | inl o ↦
      let (n, ms, e) = has_node c c.nodes refl s o in
      let ch = choose c n ms e s.distinct s.hand_inside in
      let (c', done, got) =
        evict_lem fuel (after_round c ch) (omega (arith, length-round c ch))
          (round-IsSound c s ch) in
      let same = round_same c ch in
      (
        c',
        go_on fuel c (record c { nodes = ch.nodes; hand = ch.hand }) ch.victim o ch.returned ∙ done,
        record {
          sound = got.sound;
          within = got.within;
          part =
              IsPart-trans c'.nodes (after_round c ch).nodes c.nodes got.part (round-IsPart c s ch);
          same_entries = got.same_entries ∙ same.0;
          same_bytes = got.same_bytes ∙ same.1;
        },
      )
]
