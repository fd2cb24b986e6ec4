-- ===== src/Cache/Ram/Reads.antt =====
-- The methods of the cache that store nothing: `get`, `delete` and `clear`.
use the_soverign_imperia_cit.Base.{
  ℕ, suc, ◌+◌, String, ◌≡◌, ◌⊎◌, refl, ap, sym, ◌∙◌, List, [], ◌∷◌, true, Option, none, some,
  length, str_eq, eq_iff, arith, if◌then◌else◌, Bool-cases, Option-cases, inl, inr,
}
use the_soverign_imperia_cit.Cache.Ram.{
  Node, Policy, sieve, lru, RamCache, find, has, without, set_visited, unlink, link_at_head,
  move_to_head, replace, get, size_of, delete, clear,
}
use the_soverign_imperia_cit.Cache.Ram.Nodes.{
  total, stored, length-without, total-without, without-IsDistinct, length-stored, total-stored,
  has-without_self, stored-set_visited,
}
use the_soverign_imperia_cit.Cache.Ram.Victim.{HandInside, IsDistinct-stored_eq, has_of_stored}
use the_soverign_imperia_cit.Cache.Ram.Evict.{view, view-stored, value_of, unlink-HandInside}
use the_soverign_imperia_cit.Cache.Ram.Methods.{
  IsValid, view-without_ne, replace-IsSound, replace_smaller, view-replace,
}

-- A cache that shows under every key what another shows, as valid and as large.
pub record IsSame (c c' : RamCache) : Type 0 where
  pub valid : IsValid c'
  pub views : (j : String) → view c'.nodes j ≡ view c.nodes j
  pub same_length : length c'.nodes ≡ length c.nodes

find-key :
    (ns : List Node) (k : String) (n : Node) → find ns k ≡ some n → (n.key ≡ k) × (has ns k ≡ true)
unfolding find
find-key [] k n f = absurd (cc)
find-key (m ∷ ns) k n f = elim (Bool-cases (str_eq m.key k)) [
  | inl e ↦ ground (arith, eq_iff m.key k)
  | inr e ↦ let (p, q) = find-key ns k n (rw e at f) in (p, rw e q)
]

HandInside-stored :
    (hand : Option String) (ms ns : List Node)
    → stored ms ≡ stored ns
    → HandInside hand ns
    → HandInside hand ms
HandInside-stored none ms ns e i = tt
HandInside-stored (some h) ms ns e i = has_of_stored ms ns h e i

marked-IsSame :
    (c : RamCache) (ms : List Node) (hits : ℕ)
    → stored ms ≡ stored c.nodes
    → IsValid c
    → IsSame c (record c { nodes = ms; hits = hits })
marked-IsSame c ms hits e v =
    let len = sym (length-stored ms) ∙ ap length e ∙ length-stored c.nodes in
    record {
      valid = record {
        sound = record {
          distinct = IsDistinct-stored_eq ms c.nodes e v.sound.distinct;
          hand_inside = HandInside-stored c.hand ms c.nodes e v.sound.hand_inside;
          counted =
              v.sound.counted ∙ sym (total-stored c.nodes) ∙ ap total (sym e) ∙ total-stored ms;
        };
        entries_fit = omega (arith, len, v.entries_fit);
        bytes_fit = v.bytes_fit;
      };
      views = λ j. sym (view-stored ms j) ∙ ap (λ l. view l j) e ∙ view-stored c.nodes j;
      same_length = len;
    }

hit_again-IsSame : (c : RamCache) (hits : ℕ) → IsValid c → IsSame c (record c { hits = hits })
hit_again-IsSame c hits v = marked-IsSame c c.nodes hits refl v

grown-HandInside :
    (hand : Option String) (n : Node) (ns : List Node)
    → HandInside hand ns
    → HandInside hand (n ∷ ns)
grown-HandInside none n ns i = tt
grown-HandInside (some h) n ns i = ground arith

view-moved :
    (n : Node) (ns : List Node) (j : String)
    → find ns n.key ≡ some n
    → view (n ∷ without ns n.key) j ≡ view ns j
unfolding find value_of
view-moved n ns j f = elim (Bool-cases (str_eq n.key j)) [
  | inl e ↦ ground (arith, eq_iff n.key j)
  | inr e ↦ rw e (view-without_ne ns n.key j (λ p. ground (arith, eq_iff n.key j)))
]

-- The node of a key goes to the front.
moved-IsSame :
    (c : RamCache) (n : Node) (hits : ℕ)
    → find c.nodes n.key ≡ some n
    → IsValid c
    → IsSame c (link_at_head (unlink (record c { hits = hits }) n.key) n)
unfolding link_at_head unlink total
moved-IsSame c n hits f v =
    let d = v.sound.distinct in
    let len : suc (length (without c.nodes n.key)) ≡ length c.nodes =
      length-without c.nodes n.key (find-key c.nodes n.key n f).1 in
    let size : total (without c.nodes n.key) + n.size ≡ total c.nodes =
      ap (λ o. total (without c.nodes n.key) + size_of o) (sym f) ∙ total-without c.nodes n.key in
    record {
      valid = record {
        sound = record {
          distinct = (has-without_self c.nodes n.key d, without-IsDistinct c.nodes n.key d);
          hand_inside =
              grown-HandInside _ n (without c.nodes n.key)
                (unlink-HandInside c.hand c.nodes n.key d v.sound.hand_inside);
          counted = omega (arith, v.sound.counted, size);
        };
        entries_fit = omega (arith, len, v.entries_fit);
        bytes_fit = v.bytes_fit;
      };
      views = λ j. view-moved n c.nodes j f;
      same_length = len;
    }

move_to_head-cases :
    (c : RamCache) (n : Node)
    → (move_to_head c n ≡ c) ⊎ (move_to_head c n ≡ link_at_head (unlink c n.key) n)
unfolding move_to_head
move_to_head-cases c n = ground arith

move_to_head-IsSame :
    (c : RamCache) (n : Node) (hits : ℕ)
    → find c.nodes n.key ≡ some n
    → IsValid c
    → IsSame c (move_to_head (record c { hits = hits }) n)
move_to_head-IsSame c n hits f v = elim (move_to_head-cases (record c { hits = hits }) n) [
  | inl e ↦ rw e (hit_again-IsSame c hits v)
  | inr e ↦ rw e (moved-IsSame c n hits f v)
]

-- What a `get` promises: the value under the key, and a cache that shows the same.
abbrev GetLem : RamCache → String → RamCache × Option (List ℕ) → Type 0
GetLem c k r = (r.1 ≡ view c.nodes k) × IsSame c r.0

get_miss :
    (c : RamCache) (k : String)
    → find c.nodes k ≡ none
    → get c k ≡ (record c { misses = c.misses + 1 }, none)
unfolding get
get_miss c k f = ground arith

get_sieve :
    (c : RamCache) (k : String) (n : Node)
    → find c.nodes k ≡ some n
    → c.policy ≡ sieve
    → get c k ≡ (record c { nodes = set_visited c.nodes k true; hits = c.hits + 1 }, some n.value)
unfolding get
get_sieve c k n f p = ground arith

get_lru :
    (c : RamCache) (k : String) (n : Node)
    → find c.nodes k ≡ some n
    → c.policy ≡ lru
    → get c k ≡ (move_to_head (record c { hits = c.hits + 1 }) n, some n.value)
unfolding get
get_lru c k n f p = ground arith

view_of_find :
    (ns : List Node) (k : String) (o : Option Node) → find ns k ≡ o → value_of o ≡ view ns k
view_of_find ns k o f = ap value_of (sym f)

get_hit :
    (q : Policy) (c : RamCache) (k : String) (n : Node)
    → c.policy ≡ q
    → find c.nodes k ≡ some n
    → IsValid c
    → GetLem c k (get c k)
unfolding value_of
get_hit sieve c k n p f v = rw (get_sieve c k n f p) (
  view_of_find c.nodes k (some n) f,
  marked-IsSame c (set_visited c.nodes k true) (c.hits + 1) (stored-set_visited c.nodes k true) v,
)
get_hit lru c k n p f v = rw (get_lru c k n f p) (
  view_of_find c.nodes k (some n) f,
  move_to_head-IsSame c n (c.hits + 1) (ap (find c.nodes) (find-key c.nodes k n f).0 ∙ f) v,
)

missed-IsSame : (c : RamCache) → IsValid c → IsSame c (record c { misses = c.misses + 1 })
missed-IsSame c v = record {
  valid = record {
    sound = record {
      distinct = v.sound.distinct;
      hand_inside = v.sound.hand_inside;
      counted = v.sound.counted;
    };
    entries_fit = v.entries_fit;
    bytes_fit = v.bytes_fit;
  };
  views = λ j. refl;
  same_length = refl;
}

-- Under both policies a `get` returns what stands under the key, and leaves a valid cache that shows
-- the same under every key and has as many entries.
pub get_lem :
    (c : RamCache) (k : String) → IsValid c → ((get c k).1 ≡ view c.nodes k) × IsSame c (get c k).0
unfolding value_of
get_lem c k v = elim (Option-cases (find c.nodes k)) [
  | inl f ↦ rw (get_miss c k f) (view_of_find c.nodes k none f, missed-IsSame c v)
  | inr (n, f) ↦ get_hit c.policy c k n refl f v
]

delete-replace : (c : RamCache) (k : String) → delete c k ≡ (replace c k, has c.nodes k)
unfolding delete replace
delete-replace c k = elim (Bool-cases (has c.nodes k)) [ inl h ↦ rw h | inr h ↦ rw h ]

replace-IsValid : (c : RamCache) (k : String) → IsValid c → IsValid (replace c k)
replace-IsValid c k v =
    let sm = replace_smaller c k in
    record {
      sound = replace-IsSound c k v.sound;
      entries_fit = omega (arith, v.entries_fit);
      bytes_fit = omega (arith, v.bytes_fit);
    }

-- A `delete` says whether the key was there, and leaves a valid cache that shows nothing under the
-- key and the same under every other.
pub delete_lem :
    (c : RamCache) (k j : String)
    → IsValid c
    → ((delete c k).1 ≡ has c.nodes k)
      × IsValid (delete c k).0
      × (view (delete c k).0.nodes j ≡ (if str_eq k j then none else view c.nodes j))
delete_lem c k j v =
    rw (delete-replace c k) (refl, replace-IsValid c k v, view-replace c k j v.sound)

pub clear-IsValid : (c : RamCache) → IsValid (clear c)
unfolding clear total
clear-IsValid c = record {
  sound = record { distinct = tt; hand_inside = tt; counted = refl };
  entries_fit = omega arith;
  bytes_fit = omega arith;
}

pub view-clear : (c : RamCache) (j : String) → view (clear c).nodes j ≡ none
unfolding clear find value_of
view-clear c j = refl
