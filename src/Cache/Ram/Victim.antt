-- ===== src/Cache/Ram/Victim.antt =====
-- The choice of a victim: it ends, names a node of the cache, and changes visited bits and the hand
-- only.
use mathlib.Core.Bool.{false≢true}
use the_soverign_imperia_cit.Base.{
  ℕ, zero, suc, ◌≤◌, ◌<◌, String, ◌≡◌, refl, ap, sym, ◌∙◌, List, [], ◌∷◌, true, false, Option, none,
  some, length, str_eq, arith, if◌then◌else◌, Bool-cases, Option-cases, inl, inr,
}
use the_soverign_imperia_cit.Cache.Ram.{
  Node, Policy, RamCache, sieve, lru, find, has, newer, tail, set_visited, or_else, advance,
  pick_victim,
}
use the_soverign_imperia_cit.Cache.Ram.Nodes.{
  stored, IsDistinct, find-has, newer_lem, tail_lem, stored-set_visited, has-stored,
  stored-IsDistinct, IsDistinct-stored,
}

-- The number of visited nodes.
unfoldable pub count_visited : List Node → ℕ
count_visited [] = 0
count_visited (n ∷ ns) = if n.visited then suc (count_visited ns) else count_visited ns

count_visited-le : (ns : List Node) → count_visited ns ≤ length ns
unfolding count_visited
count_visited-le [] = omega arith
count_visited-le (n ∷ ns) = ground (arith, count_visited-le ns)

-- A visited node that loses its bit leaves fewer.
count_visited-set_visited :
    (ns : List Node) (k : String) (n : Node)
    → find ns k ≡ some n
    → n.visited ≡ true
    → suc (count_visited (set_visited ns k false)) ≡ count_visited ns
unfolding count_visited set_visited find
count_visited-set_visited [] k n f v = absurd (cc)
count_visited-set_visited (m ∷ ns) k n f v = elim (Bool-cases (str_eq m.key k)) [
  | inl e ↦ ground arith
  | inr e ↦ ground (arith, count_visited-set_visited ns k n)
]

pub has_of_stored :
    (ms ns : List Node) (k : String) → stored ms ≡ stored ns → has ns k ≡ true → has ms k ≡ true
has_of_stored ms ns k e h = sym (has-stored ms k) ∙ ap (λ l. has l k) e ∙ has-stored ns k ∙ h

pub IsDistinct-stored_eq :
    (ms ns : List Node) → stored ms ≡ stored ns → IsDistinct ns → IsDistinct ms
IsDistinct-stored_eq ms ns e d = IsDistinct-stored ms (rw e (stored-IsDistinct ns d))

-- Where the scan goes on is in the list.
next_lem :
    (ns : List Node) (k : String)
    → IsDistinct ns
    → has ns k ≡ true
    → (h : String) × (or_else (newer ns k) (tail ns) ≡ some h) × (has ns h ≡ true)
next_lem [] k d h = absurd (false≢true h)
next_lem (n ∷ ns) k d h = elim (Option-cases (newer (n ∷ ns) k)) [
  | inl e ↦ let (t, f, i) = tail_lem n ns in (t, rw e f, i)
  | inr (m, e) ↦ (m, rw e, (newer_lem (n ∷ ns) k m d e).0)
]

-- What a choice from a list promises.
pub record Picked (ns : List Node) (found : Option (List Node × Option String)) : Type 0 where
  pub nodes : List Node
  pub victim : String
  pub returned : found ≡ some (nodes, some victim)
  pub kept : stored nodes ≡ stored ns
  pub inside : has nodes victim ≡ true

advance_stops :
    (fuel : ℕ) (ns : List Node) (k : String) (n : Node)
    → find ns k ≡ some n
    → n.visited ≡ false
    → advance (suc fuel) ns (some k) ≡ some (ns, some k)
unfolding advance
advance_stops fuel ns k n f v = ground arith

advance_goes_on :
    (fuel : ℕ) (ns : List Node) (k : String) (n : Node) (h : String)
    → find ns k ≡ some n
    → n.visited ≡ true
    → or_else (newer ns k) (tail ns) ≡ some h
    → advance (suc fuel) ns (some k) ≡ advance fuel (set_visited ns k false) (some h)
unfolding advance
advance_goes_on fuel ns k n h f v e = ground arith

-- With more fuel than there are visited nodes the scan ends at a node of the list.
pub advance_lem :
    (fuel : ℕ) (ns : List Node) (k : String)
    → count_visited ns < fuel
    → IsDistinct ns
    → has ns k ≡ true
    → Picked ns (advance fuel ns (some k))
advance_lem zero ns k lt d i = absurd (omega arith)
advance_lem (suc fuel) ns k lt d i =
    let (n, f) = find-has ns k i in
    let (h, e, j) = next_lem ns k d i in
    let ms : List Node = set_visited ns k false in
    let same : stored ms ≡ stored ns = stored-set_visited ns k false in
    elim (Bool-cases n.visited) [
      | inr v ↦ record {
        nodes = ns;
        victim = k;
        returned = advance_stops fuel ns k n f v;
        kept = refl;
        inside = i;
      }
      | inl v ↦
          let p =
            advance_lem fuel ms h (omega (arith, count_visited-set_visited ns k n f v))
              (IsDistinct-stored_eq ms ns same d) (has_of_stored ms ns h same j) in
          record {
            nodes = p.nodes;
            victim = p.victim;
            returned = advance_goes_on fuel ns k n h f v e ∙ p.returned;
            kept = p.kept ∙ same;
            inside = p.inside;
          }
    ]

-- The hand is off the list or on a node of it.
abbrev pub HandInside : Option String → List Node → Type 0
HandInside none ns = Unit
HandInside (some h) ns = has ns h ≡ true

-- What the choice of a victim promises.
pub record Chosen (c : RamCache) : Type 0 where
  pub nodes : List Node
  pub hand : Option String
  pub victim : String
  pub returned : pick_victim c ≡ some (record c { nodes = nodes; hand = hand }, some victim)
  pub kept : stored nodes ≡ stored c.nodes
  pub inside : has nodes victim ≡ true
  pub hand_inside : HandInside hand nodes

tail_of :
    (l : List Node) (n : Node) (ns : List Node)
    → l ≡ n ∷ ns
    → (h : String) × (tail l ≡ some h) × (has l h ≡ true)
tail_of l n ns e = rw e (tail_lem n ns)

start_lem :
    (hand : Option String) (l : List Node) (n : Node) (ns : List Node)
    → l ≡ n ∷ ns
    → HandInside hand l
    → (h : String) × (or_else hand (tail l) ≡ some h) × (has l h ≡ true)
start_lem none l n ns e i = tail_of l n ns e
start_lem (some h) l n ns e i = (h, refl, i)

newer-HandInside : (ns : List Node) (k : String) → IsDistinct ns → HandInside (newer ns k) ns
newer-HandInside ns k d = elim (Option-cases (newer ns k)) [
  | inl e ↦ rw e tt
  | inr (h, e) ↦ rw e (newer_lem ns k h d e).0
]

pick_victim-sieve :
    (c : RamCache) (h k : String) (ns : List Node)
    → c.policy ≡ sieve
    → or_else c.hand (tail c.nodes) ≡ some h
    → advance (suc (length c.nodes)) c.nodes (some h) ≡ some (ns, some k)
    → pick_victim c ≡ some (record c { nodes = ns; hand = newer ns k }, some k)
unfolding pick_victim
pick_victim-sieve c h k ns p s a = ground arith

pick_victim-lru :
    (c : RamCache) (k : String)
    → c.policy ≡ lru
    → tail c.nodes ≡ some k
    → pick_victim c ≡ some (c, some k)
unfolding pick_victim
pick_victim-lru c k p t = ground arith

choose_sieve :
    (c : RamCache) (n : Node) (ns : List Node)
    → c.policy ≡ sieve
    → c.nodes ≡ n ∷ ns
    → IsDistinct c.nodes
    → HandInside c.hand c.nodes
    → Chosen c
choose_sieve c n ns p shape d i =
    let (h, e, j) = start_lem c.hand c.nodes n ns shape i in
    let got =
      advance_lem (suc (length c.nodes)) c.nodes h (omega (arith, count_visited-le c.nodes)) d j in
    let d' = IsDistinct-stored_eq got.nodes c.nodes got.kept d in
    record {
      nodes = got.nodes;
      hand = newer got.nodes got.victim;
      victim = got.victim;
      returned = pick_victim-sieve c h got.victim got.nodes p e got.returned;
      kept = got.kept;
      inside = got.inside;
      hand_inside = newer-HandInside got.nodes got.victim d';
    }

choose_lru :
    (c : RamCache) (n : Node) (ns : List Node)
    → c.policy ≡ lru
    → c.nodes ≡ n ∷ ns
    → HandInside c.hand c.nodes
    → Chosen c
choose_lru c n ns p shape i =
    let (k, e, j) = tail_of c.nodes n ns shape in
    record {
      nodes = c.nodes;
      hand = c.hand;
      victim = k;
      returned = pick_victim-lru c k p e;
      kept = refl;
      inside = j;
      hand_inside = i;
    }

choose_by :
    (q : Policy) (c : RamCache) (n : Node) (ns : List Node)
    → c.policy ≡ q
    → c.nodes ≡ n ∷ ns
    → IsDistinct c.nodes
    → HandInside c.hand c.nodes
    → Chosen c
choose_by sieve c n ns p shape d i = choose_sieve c n ns p shape d i
choose_by lru c n ns p shape d i = choose_lru c n ns p shape i

-- From a cache with a node `_pick_victim` ends and names a node of the cache.
pub choose :
    (c : RamCache) (n : Node) (ns : List Node)
    → c.nodes ≡ n ∷ ns
    → IsDistinct c.nodes
    → HandInside c.hand c.nodes
    → Chosen c
choose c n ns = choose_by c.policy c n ns refl
