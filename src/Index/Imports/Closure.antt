-- ===== src/Index/Imports/Closure.antt =====
-- The closure of a module is what its imports reach.
use mathlib.Core.Path.{subst}
use the_soverign_imperia_cit.Base.{
  ℕ, zero, suc, ◌+◌, ◌≤◌, String, ◌≡◌, refl, sym, ◌↔◌, ◌⊎◌, inl, inr, List, [], ◌∷◌, ◌++◌, not,
  Option, some, length, length-append, length-select-le, arith, Bool-cases,
}
use the_soverign_imperia_cit.Base.Sets
use the_soverign_imperia_cit.Base.Sets.{member-add}
use the_soverign_imperia_cit.Index.Imports.{
  Adjacency, neighbors, edge_count, unseen, closure_loop, reachable,
}
use the_soverign_imperia_cit.Index.Imports.Edges.{
  In, member-append, member-right, member-unseen, unseen-member, edges_left, edges_left-nil,
  edges_left-add, tail_listed, head_listed, old_or_new, after_skip, after_visit, only_seen,
}

-- A module is reached by an import of the start, or by one of a module that is reached.
pub data IsReached (adj : Adjacency) (start : String) : String → Type 0 where
  direct : {n : String} → In n (neighbors adj start) → IsReached adj start n
  onward : {n k : String} → IsReached adj start n → In k (neighbors adj n) → IsReached adj start k

module _ (adj : Adjacency) (start : String) where
  -- All that is seen or queued is reached, and the imports of what is seen are seen or queued, and so are
  -- those of the start.
  record IsSearch (seen queue : List String) : Type 0 where
    seen_reached : (n : String) → In n seen → IsReached adj start n
    queue_reached : (n : String) → In n queue → IsReached adj start n
    seen_closed : (n k : String) → In n seen → In k (neighbors adj n) → In k seen ⊎ In k queue
    start_closed : (k : String) → In k (neighbors adj start) → In k seen ⊎ In k queue

  skip-IsSearch :
      (seen queue : List String) (node : String)
      → In node seen
      → IsSearch seen (node ∷ queue)
      → IsSearch seen queue
  skip-IsSearch seen queue node m s = record {
    seen_reached = s.seen_reached;
    queue_reached = λ n h. s.queue_reached n (tail_listed node n queue h);
    seen_closed = λ n k h e. after_skip seen queue node k m (s.seen_closed n k h e);
    start_closed = λ k e. after_skip seen queue node k m (s.start_closed k e);
  }

  visit-IsSearch :
      (seen queue : List String) (node : String)
      → IsSearch seen (node ∷ queue)
      → IsSearch (Sets.add seen node) (queue ++ unseen (Sets.add seen node) (neighbors adj node))
  visit-IsSearch seen queue node s =
      let seen' = Sets.add seen node in
      let more = unseen seen' (neighbors adj node) in
      let here = s.queue_reached node (head_listed node queue) in
      record {
        seen_reached = λ n h. elim (old_or_new seen node n h) [
          | inl e ↦ subst (IsReached adj start) e here
          | inr o ↦ s.seen_reached n o
        ];
        queue_reached = λ n h. elim (member-append queue more n h) [
          | inl a ↦ s.queue_reached n (tail_listed node n queue a)
          | inr b ↦ onward here (member-unseen seen' (neighbors adj node) n b)
        ];
        seen_closed = λ n k h e. elim (old_or_new seen node n h) [
          | inl p ↦
              elim (unseen-member seen' (neighbors adj node) k
                (subst (λ x. In k (neighbors adj x)) (sym p) e)) [
                  | inl a ↦ inl a
                  | inr b ↦ inr (member-right queue more k b)
                ]
          | inr o ↦ after_visit seen queue more node k (s.seen_closed n k o e)
        ];
        start_closed = λ k e. after_visit seen queue more node k (s.start_closed k e);
      }

  -- The result is what is reached.
  abbrev pub IsClosure : Option (List String) → Type 0
  IsClosure out =
      (found : List String) × (out ≡ some found)
      × ((n : String) → In n found ↔ IsReached adj start n)

  reached-In :
      (seen : List String) → IsSearch seen [] → (n : String) → IsReached adj start n → In n seen
  reached-In seen s n (direct h) = only_seen seen n (s.start_closed n h)
  reached-In seen s k (onward {n = n} r h) =
      only_seen seen k (s.seen_closed n k (reached-In seen s n r) h)

  closure_loop-IsClosure :
      (fuel : ℕ) (seen queue : List String)
      → length queue + edges_left seen adj ≤ fuel
      → IsSearch seen queue
      → IsClosure (closure_loop fuel adj seen queue)
  unfolding closure_loop
  closure_loop-IsClosure fuel seen [] le s =
      (seen, refl, λ n. (s.seen_reached n, reached-In seen s n))
  closure_loop-IsClosure zero seen (node ∷ queue) le s = absurd (omega arith)
  closure_loop-IsClosure (suc fuel) seen (node ∷ queue) le s =
      elim (Bool-cases (Sets.member seen node)) [
        | inl e ↦ rw e (
            closure_loop-IsClosure fuel seen queue (omega arith)
              (skip-IsSearch seen queue node e s))
        | inr e ↦ rw e (
            closure_loop-IsClosure fuel (Sets.add seen node)
              (queue ++ unseen (Sets.add seen node) (neighbors adj node))
              (omega (
                arith,
                length-append queue (unseen (Sets.add seen node) (neighbors adj node)),
                length-select-le (λ n. not (Sets.member (Sets.add seen node) n))
                    (neighbors adj node),
                edges_left-add seen adj node e,
              ))
              (visit-IsSearch seen queue node s))
      ]

-- On every graph, cyclic or not, the search for what a module reaches ends, and gives exactly the modules
-- that its imports reach in one step or more, among them the start itself when it is on a cycle.
pub reachable-IsClosure :
    (adj : Adjacency) (start : String) → IsClosure adj start (reachable adj start)
unfolding reachable Sets.member
reachable-IsClosure adj start =
    closure_loop-IsClosure adj start (length (neighbors adj start) + edge_count adj) []
      (neighbors adj start) (omega (arith, edges_left-nil adj))
      (record {
        seen_reached = λ n h. absurd (ground (arith, h));
        queue_reached = λ n h. direct h;
        seen_closed = λ n k h e. absurd (ground (arith, h));
        start_closed = λ k e. inr e;
      })
