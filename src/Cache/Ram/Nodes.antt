-- ===== src/Cache/Ram/Nodes.antt =====
-- Lists of nodes: what unlinking and clearing a bit leave as it was.
use the_soverign_imperia_cit.Base.{
  ℕ, suc, ◌+◌, String, ◌≡◌, ◌≢◌, refl, ap, List, [], ◌∷◌, Bool, true, false, some, length, str_eq,
  eq_iff, arith, Bool-cases, inl, inr,
}
use mathlib.Core.Bool.{false≢true}
use the_soverign_imperia_cit.Cache.Ram.{Node, find, has, newer, tail, without, set_visited, size_of}

-- The bytes of a list.
unfoldable pub total : List Node → ℕ
total [] = 0
total (n ∷ ns) = n.size + total ns

-- The list without its visited bits.
abbrev pub stored : List Node → List Node
stored [] = []
stored (n ∷ ns) = record n { visited = false } ∷ stored ns

-- No key stands twice.
abbrev pub IsDistinct : List Node → Type 0
IsDistinct [] = Unit
IsDistinct (n ∷ ns) = (has ns n.key ≡ false) × IsDistinct ns

pub find-has : (ns : List Node) (k : String) → has ns k ≡ true → (n : Node) × (find ns k ≡ some n)
unfolding find
find-has [] k h = absurd (false≢true h)
find-has (n ∷ ns) k h = elim (Bool-cases (str_eq n.key k)) [
  | inl e ↦ (n, rw e)
  | inr e ↦ let (m, f) = find-has ns k (rw e at h) in (m, rw (e, f))
]

pub length-without :
    (ns : List Node) (k : String) → has ns k ≡ true → suc (length (without ns k)) ≡ length ns
unfolding without
length-without [] k h = absurd (false≢true h)
length-without (n ∷ ns) k h = ground (arith, length-without ns k)

pub total-without :
    (ns : List Node) (k : String) → total (without ns k) + size_of (find ns k) ≡ total ns
unfolding total without find
total-without [] k = omega arith
total-without (n ∷ ns) k = ground (arith, total-without ns k)

pub has-without_ne : (ns : List Node) (k j : String) → k ≢ j → has (without ns k) j ≡ has ns j
unfolding without
has-without_ne [] k j h = refl
has-without_ne (n ∷ ns) k j h =
    ground (arith, has-without_ne ns k j, eq_iff n.key k, eq_iff n.key j)

pub find-without_ne : (ns : List Node) (k j : String) → k ≢ j → find (without ns k) j ≡ find ns j
unfolding without find
find-without_ne [] k j h = refl
find-without_ne (n ∷ ns) k j h =
    ground (arith, find-without_ne ns k j, eq_iff n.key k, eq_iff n.key j)

pub has-without_self : (ns : List Node) (k : String) → IsDistinct ns → has (without ns k) k ≡ false
unfolding without
has-without_self [] k d = refl
has-without_self (n ∷ ns) k d = ground (arith, has-without_self ns k, eq_iff n.key k)

has-without-false :
    (ns : List Node) (k j : String) → has ns j ≡ false → has (without ns k) j ≡ false
unfolding without
has-without-false [] k j h = refl
has-without-false (n ∷ ns) k j h = ground (arith, has-without-false ns k j)

pub without-IsDistinct : (ns : List Node) (k : String) → IsDistinct ns → IsDistinct (without ns k)
unfolding without
without-IsDistinct [] k d = tt
without-IsDistinct (n ∷ ns) k d = elim (Bool-cases (str_eq n.key k)) [
  | inl e ↦ rw e d.1
  | inr e ↦ rw e (has-without-false ns k n.key d.0, without-IsDistinct ns k d.1)
]

-- The hand never falls on the node that it leaves, nor off the list.
pub newer_lem :
    (ns : List Node) (k h : String)
    → IsDistinct ns
    → newer ns k ≡ some h
    → (has ns h ≡ true) × (k ≢ h)
unfolding newer
newer_lem [] k h d e = absurd (cc)
newer_lem (n ∷ []) k h d e = absurd (cc)
newer_lem (n ∷ m ∷ ns) k h d e = elim (Bool-cases (str_eq m.key k)) [
  | inl s ↦ ground (arith, eq_iff m.key k, eq_iff n.key h, eq_iff m.key n.key)
  | inr s ↦ let r = newer_lem (m ∷ ns) k h d.1 (rw s at e) in (ground arith, r.1)
]

-- A list with a node has a tail in it.
pub tail_lem :
    (n : Node) (ns : List Node) → (h : String) × (tail (n ∷ ns) ≡ some h) × (has (n ∷ ns) h ≡ true)
unfolding tail
tail_lem n [] = (n.key, refl, ground (arith, eq_iff n.key n.key))
tail_lem n (m ∷ ns) = let (h, e, i) = tail_lem m ns in (h, e, ground arith)

pub stored-set_visited :
    (ns : List Node) (k : String) (b : Bool) → stored (set_visited ns k b) ≡ stored ns
unfolding set_visited
stored-set_visited [] k b = refl
stored-set_visited (n ∷ ns) k b = ground (arith, stored-set_visited ns k b)

-- The bits play no part in these.
pub has-stored : (ns : List Node) (k : String) → has (stored ns) k ≡ has ns k
has-stored [] k = refl
has-stored (n ∷ ns) k = rw (has-stored ns k)

pub total-stored : (ns : List Node) → total (stored ns) ≡ total ns
unfolding total
total-stored [] = refl
total-stored (n ∷ ns) = rw (total-stored ns)

pub length-stored : (ns : List Node) → length (stored ns) ≡ length ns
length-stored [] = refl
length-stored (n ∷ ns) = ap suc (length-stored ns)

pub stored-IsDistinct : (ns : List Node) → IsDistinct ns → IsDistinct (stored ns)
stored-IsDistinct [] d = tt
stored-IsDistinct (n ∷ ns) d = (rw (has-stored ns n.key) d.0, stored-IsDistinct ns d.1)

pub IsDistinct-stored : (ns : List Node) → IsDistinct (stored ns) → IsDistinct ns
IsDistinct-stored [] d = tt
IsDistinct-stored (n ∷ ns) d = (rw (has-stored ns n.key) at d.0, IsDistinct-stored ns d.1)
