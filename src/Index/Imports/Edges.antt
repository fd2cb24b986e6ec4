-- ===== src/Index/Imports/Edges.antt =====
-- Membership in what is seen and queued, and the edges that are left.
use mathlib.Core.Path.{subst}
use the_soverign_imperia_cit.Base.{
  ℕ, ◌+◌, ◌≤◌, String, ◌≡◌, refl, sym, ap, ◌∙◌, ◌⊎◌, inl, inr, List, [], ◌∷◌, ◌++◌, true, false,
  length, arith, str_eq, eq_iff, Bool-cases, if◌then◌else◌,
}
use the_soverign_imperia_cit.Base.Dict
use the_soverign_imperia_cit.Base.Sets
use the_soverign_imperia_cit.Base.Sets.{member-add}
use the_soverign_imperia_cit.Index.Imports.{Adjacency, neighbors, edge_count, unseen}

abbrev pub In : String → List String → Type 0
In n xs = Sets.member xs n ≡ true

pub member-append : (xs ys : List String) (n : String) → In n (xs ++ ys) → In n xs ⊎ In n ys
unfolding Sets.member
member-append [] ys n h = inr h
member-append (x ∷ xs) ys n h = elim (Bool-cases (str_eq x n)) [
  | inl e ↦ inl (rw e refl)
  | inr e ↦ elim (member-append xs ys n (ground (arith, h, e))) [
    | inl a ↦ inl (ground (arith, a))
    | inr b ↦ inr b
  ]
]

member-left : (xs ys : List String) (n : String) → In n xs → In n (xs ++ ys)
unfolding Sets.member
member-left [] ys n h = absurd (ground (arith, h))
member-left (x ∷ xs) ys n h = ground (arith, h, member-left xs ys n)

pub member-right : (xs ys : List String) (n : String) → In n ys → In n (xs ++ ys)
unfolding Sets.member
member-right [] ys n h = h
member-right (x ∷ xs) ys n h = ground (arith, member-right xs ys n h)

pub member-unseen : (seen xs : List String) (n : String) → In n (unseen seen xs) → In n xs
unfolding Sets.member
member-unseen seen [] n h = h
member-unseen seen (x ∷ xs) n h = elim (Bool-cases (Sets.member seen x)) [
  | inl e ↦ ground (arith, h, e, member-unseen seen xs n)
  | inr e ↦ ground (arith, h, e, member-unseen seen xs n)
]

kept_unseen :
    (seen xs : List String) (n : String)
    → Sets.member seen n ≡ false
    → In n xs
    → In n (unseen seen xs)
unfolding Sets.member
kept_unseen seen [] n f h = h
kept_unseen seen (x ∷ xs) n f h = elim (Bool-cases (str_eq x n)) [
  | inl e ↦
      let s : Sets.member seen x ≡ false =
        ap (Sets.member seen) (ground (arith, e, eq_iff x n)) ∙ f in
      rw s (ground (arith, e))
  | inr e ↦ elim (Bool-cases (Sets.member seen x)) [
    | inl s ↦ rw s (kept_unseen seen xs n f (ground (arith, h, e)))
    | inr s ↦ rw (s, e) (kept_unseen seen xs n f (ground (arith, h, e)))
  ]
]

-- What is not left over has been seen.
pub unseen-member :
    (seen xs : List String) (n : String) → In n xs → In n seen ⊎ In n (unseen seen xs)
unseen-member seen xs n h = elim (Bool-cases (Sets.member seen n)) [
  | inl e ↦ inl e
  | inr e ↦ inr (kept_unseen seen xs n e h)
]

-- The edges of the modules that have not been seen.
abbrev pub edges_left : List String → Adjacency → ℕ
edges_left seen [] = 0
edges_left seen ((m, targets) ∷ adj) =
    let rest = edges_left seen adj in if Sets.member seen m then rest else length targets + rest

pub edges_left-nil : (adj : Adjacency) → edges_left [] adj ≡ edge_count adj
unfolding edge_count Sets.member
edges_left-nil [] = refl
edges_left-nil ((m, targets) ∷ adj) = omega (arith, edges_left-nil adj)

edges_left-add-le :
    (seen : List String) (adj : Adjacency) (n : String)
    → edges_left (Sets.add seen n) adj ≤ edges_left seen adj
edges_left-add-le seen [] n = omega arith
edges_left-add-le seen ((m, targets) ∷ adj) n =
    ground (arith, edges_left-add-le seen adj n, member-add seen n m)

-- Seeing a module takes its edges away.
pub edges_left-add :
    (seen : List String) (adj : Adjacency) (n : String)
    → Sets.member seen n ≡ false
    → length (neighbors adj n) + edges_left (Sets.add seen n) adj ≤ edges_left seen adj
unfolding neighbors Dict.get
edges_left-add seen [] n h = omega arith
edges_left-add seen ((m, targets) ∷ adj) n h = elim (Bool-cases (str_eq m n)) [
  | inl e ↦
      let same : m ≡ n = ground (arith, e, eq_iff m n) in
      let k : Sets.member (Sets.add seen n) m ≡ true =
        ground (arith, member-add seen n m, eq_iff n m, sym same) in
      let l : Sets.member seen m ≡ false = ap (Sets.member seen) same ∙ h in
      let o : neighbors ((m, targets) ∷ adj) n ≡ targets = rw e refl in
      rw (k, l) (omega (arith, ap length o, edges_left-add-le seen adj n))
  | inr e ↦
      let o : neighbors ((m, targets) ∷ adj) n ≡ neighbors adj n = rw e refl in
      let ih = edges_left-add seen adj n h in
      ground (
        arith,
        ap length o,
        ih,
        member-add seen n m,
        edges_left-add-le seen adj n,
        eq_iff n m,
        eq_iff m n,
        e,
      )
]

head_or_tail :
    (node k : String) (queue : List String) → In k (node ∷ queue) → (node ≡ k) ⊎ In k queue
unfolding Sets.member
head_or_tail node k queue h = elim (Bool-cases (str_eq node k)) [
  | inl e ↦ inl (ground (arith, e, eq_iff node k))
  | inr e ↦ inr (ground (arith, h, e))
]

pub tail_listed : (node k : String) (queue : List String) → In k queue → In k (node ∷ queue)
unfolding Sets.member
tail_listed node k queue h = ground (arith, h)

pub head_listed : (node : String) (queue : List String) → In node (node ∷ queue)
unfolding Sets.member
head_listed node queue = ground (arith, eq_iff node node)

pub old_or_new :
    (seen : List String) (node k : String) → In k (Sets.add seen node) → (node ≡ k) ⊎ In k seen
old_or_new seen node k h = elim (Bool-cases (str_eq node k)) [
  | inl e ↦ inl (ground (arith, e, eq_iff node k))
  | inr e ↦ inr (ground (arith, h, e, member-add seen node k))
]

old_listed : (seen : List String) (node k : String) → In k seen → In k (Sets.add seen node)
old_listed seen node k h = ground (arith, h, member-add seen node k)

new_listed : (seen : List String) (node : String) → In node (Sets.add seen node)
new_listed seen node = ground (arith, member-add seen node node, eq_iff node node)

-- What was seen or queued is so after a skip, and after a visit.
pub after_skip :
    (seen queue : List String) (node k : String)
    → In node seen
    → In k seen ⊎ In k (node ∷ queue)
    → In k seen ⊎ In k queue
after_skip seen queue node k m (inl a) = inl a
after_skip seen queue node k m (inr b) = elim (head_or_tail node k queue b) [
  | inl e ↦ inl (subst (λ x. In x seen) e m)
  | inr c ↦ inr c
]

pub after_visit :
    (seen queue more : List String) (node k : String)
    → In k seen ⊎ In k (node ∷ queue)
    → In k (Sets.add seen node) ⊎ In k (queue ++ more)
after_visit seen queue more node k (inl a) = inl (old_listed seen node k a)
after_visit seen queue more node k (inr b) = elim (head_or_tail node k queue b) [
  | inl e ↦ inl (subst (λ x. In x (Sets.add seen node)) e (new_listed seen node))
  | inr c ↦ inr (member-left queue more k c)
]

pub only_seen : (seen : List String) (k : String) → In k seen ⊎ In k [] → In k seen
unfolding Sets.member
only_seen seen k (inl a) = a
only_seen seen k (inr b) = absurd (ground (arith, b))
