-- ===== src/Cache/Ram.antt =====
-- src/citadel/services/cache/ram_cache.py. The linked list is the list of its nodes, the newest
-- first, and a pointer to a node is the node's key; the dictionary holds exactly the nodes of the
-- list, so a lookup in it is a search. The lock makes each method one step.
pub mod Nodes
pub mod Victim
pub mod Evict
pub mod Methods
pub mod Reads
pub mod Calls
use the_soverign_imperia_cit.Base.{
  ℕ, zero, suc, ◌+◌, ◌-◌, String, List, [], ◌∷◌, Bool, true, false, ◌||◌, Option, none, some, ltb,
  ◌==◌, length, any, str_eq, if◌then◌else◌,
}

pub data Policy : Type 0 where
  sieve lru : Policy

pub record Node : Type 0 where
  pub key : String
  pub value : List ℕ
  pub size : ℕ
  pub visited : Bool

pub record RamCache : Type 0 where
  pub max_entries : ℕ
  pub max_bytes : ℕ
  pub policy : Policy
  pub nodes : List Node
  pub hand : Option String
  pub bytes : ℕ
  pub hits : ℕ
  pub misses : ℕ
  pub evictions : ℕ

unfoldable pub parse_policy : String → Option Policy
parse_policy s = if str_eq s "sieve" then some sieve else if str_eq s "lru" then some lru else none

-- `none` is the ValueError of the constructor.
unfoldable pub init : ℕ → ℕ → String → Option RamCache
unfolding parse_policy
init max_entries max_bytes policy =
    if max_entries == 0 || max_bytes == 0 then none else elim (parse_policy policy) [
      | none ↦ none
      | some p ↦ some (record {
        max_entries = max_entries;
        max_bytes = max_bytes;
        policy = p;
        nodes = [];
        hand = none;
        bytes = 0;
        hits = 0;
        misses = 0;
        evictions = 0;
      })
    ]

-- `self._nodes.get(key)`
unfoldable pub find : List Node → String → Option Node
find [] k = none
find (n ∷ ns) k = if str_eq n.key k then some n else find ns k

-- `key in self._nodes`
abbrev pub has : List Node → String → Bool
has ns k = any (λ n. str_eq n.key k) ns

-- `node.newer`
unfoldable pub newer : List Node → String → Option String
newer [] k = none
newer (n ∷ []) k = none
newer (n ∷ m ∷ ns) k = if str_eq m.key k then some n.key else newer (m ∷ ns) k

-- `self._tail`
unfoldable pub tail : List Node → Option String
tail [] = none
tail (n ∷ []) = some n.key
tail (n ∷ m ∷ ns) = tail (m ∷ ns)

-- The list without a node.
unfoldable pub without : List Node → String → List Node
without [] k = []
without (n ∷ ns) k = let rest = without ns k in if str_eq n.key k then ns else n ∷ rest

-- `node.visited = b`
unfoldable pub set_visited : List Node → String → Bool → List Node
set_visited [] k b = []
set_visited (n ∷ ns) k b =
    let rest = set_visited ns k b in
    if str_eq n.key k then record n { visited = b } ∷ ns else n ∷ rest

abbrev pub or_else : Option String → Option String → Option String
or_else none b = b
or_else (some a) b = some a

abbrev pub is_at : Option String → String → Bool
is_at none k = false
is_at (some h) k = str_eq h k

unfoldable pub link_at_head : RamCache → Node → RamCache
link_at_head c n = record c { nodes = n ∷ c.nodes }

-- The hand steps off a node that leaves.
unfoldable pub unlink : RamCache → String → RamCache
unfolding newer without
unlink c k = record c {
  hand = if is_at c.hand k then newer c.nodes k else c.hand;
  nodes = without c.nodes k;
}

unfoldable pub move_to_head : RamCache → Node → RamCache
unfolding unlink link_at_head
move_to_head c n = elim c.nodes [
  | [] ↦ link_at_head (unlink c n.key) n
  | m ∷ ms ↦ if str_eq m.key n.key then c else link_at_head (unlink c n.key) n
]

-- The loop of `_pick_victim` from a node: visited nodes lose their bit until one without is met.
-- The first `none` means that the fuel ran out.
unfoldable pub advance : ℕ → List Node → Option String → Option (List Node × Option String)
unfolding find newer tail set_visited
advance zero ns at_node = none
advance (suc fuel) ns none = some (ns, none)
advance (suc fuel) ns (some k) = elim (find ns k) [
  | none ↦ some (ns, none)
  | some n ↦
      let next = advance fuel (set_visited ns k false) (or_else (newer ns k) (tail ns)) in
      if n.visited then next else some (ns, some k)
]

abbrev pub newer_of : List Node → Option String → Option String
newer_of ns none = none
newer_of ns (some k) = newer ns k

-- `_pick_victim`: each round of the loop clears one bit, so one round more than there are nodes is
-- enough.
unfoldable pub pick_victim : RamCache → Option (RamCache × Option String)
unfolding advance
pick_victim c = elim c.policy [
  | lru ↦ some (c, tail c.nodes)
  | sieve ↦ elim (advance (suc (length c.nodes)) c.nodes (or_else c.hand (tail c.nodes))) [
    | none ↦ none
    | some (ns, none) ↦ some (record c { nodes = ns }, none)
    | some (ns, some k) ↦ some (record c { nodes = ns; hand = newer ns k }, some k)
  ]
]

abbrev pub size_of : Option Node → ℕ
size_of none = 0
size_of (some n) = n.size

-- The removal of a node from the bytes, the dictionary and the list.
unfoldable pub drop : RamCache → String → RamCache
unfolding unlink find
drop c k = unlink (record c { bytes = c.bytes - size_of (find c.nodes k) }) k

unfoldable pub over_budget : RamCache → Bool
over_budget c = ltb c.max_entries (length c.nodes) || ltb c.max_bytes c.bytes

abbrev pub count_eviction : RamCache → RamCache
count_eviction c = record c { evictions = c.evictions + 1 }

unfoldable pub evict : ℕ → RamCache → Option RamCache
unfolding pick_victim drop over_budget
evict zero c = none
evict (suc fuel) c = elim (over_budget c) [
  | false ↦ some c
  | true ↦ elim (pick_victim c) [
    | none ↦ none
    | some (c', none) ↦ some c'
    | some (c', some k) ↦ evict fuel (count_eviction (drop c' k))
  ]
]

unfoldable pub get : RamCache → String → RamCache × Option (List ℕ)
unfolding find set_visited move_to_head
get c k = elim (find c.nodes k) [
  | none ↦ (record c { misses = c.misses + 1 }, none)
  | some n ↦
      let hit = record c { hits = c.hits + 1 } in
      (
        elim c.policy [
          | sieve ↦ record hit { nodes = set_visited c.nodes k true }
          | lru ↦ move_to_head hit n
        ],
        some n.value,
      )
]

-- What stood under the key goes first.
unfoldable pub replace : RamCache → String → RamCache
unfolding drop
replace c k = if has c.nodes k then drop c k else c

-- `none` means that the eviction loop ran out of fuel; each of its rounds removes a node.
unfoldable pub put : RamCache → String → List ℕ → Option RamCache
unfolding replace link_at_head evict
put c k value =
    let size : ℕ = length value in
    let c' = replace c k in
    if ltb c'.max_bytes size
    then some c'
    else let node : Node = record { key = k; value = value; size = size; visited = false } in
      let linked = link_at_head c' node in
      evict (suc (length linked.nodes)) (record linked { bytes = linked.bytes + size })

unfoldable pub delete : RamCache → String → RamCache × Bool
unfolding drop
delete c k = if has c.nodes k then (drop c k, true) else (c, false)

unfoldable pub clear : RamCache → RamCache
clear c = record c { nodes = []; hand = none; bytes = 0 }
