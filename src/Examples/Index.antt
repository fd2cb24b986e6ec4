-- ===== src/Examples/Index.antt =====
-- The graph of imports at a concrete input (src/citadel/services/index).
use the_soverign_imperia_cit.Base.{[], ◌∷◌}
use the_soverign_imperia_cit.Index.Imports.{Adjacency, reachable}
use the_soverign_imperia_cit.Index.Imports.Closure.{IsClosure, reachable-IsClosure}

abbrev cyclic : Adjacency
cyclic = ("a", "b" ∷ "c" ∷ []) ∷ ("b", "a" ∷ []) ∷ ("c", []) ∷ []

reachable-IsClosure_example : IsClosure cyclic "a" (reachable cyclic "a")
reachable-IsClosure_example = reachable-IsClosure cyclic "a"
