-- ===== src/Index/Imports.antt =====
-- src/citadel/services/index/imports.py: the graph of a repository's internal imports, by its adjacency
-- lists, and the closure of a module.
pub mod Closure
pub mod Edges
use the_soverign_imperia_cit.Base.{
  ℕ, zero, suc, ◌+◌, String, List, [], ◌∷◌, ◌++◌, Bool, true, false, not, Option, none, some,
  length, select, if◌then◌else◌,
}
use the_soverign_imperia_cit.Base.Dict
use the_soverign_imperia_cit.Base.Dict.{Dict}
use the_soverign_imperia_cit.Base.Sets

abbrev pub Adjacency : Type 0
Adjacency = Dict (List String)

abbrev or_empty : Option (List String) → List String
or_empty none = []
or_empty (some targets) = targets

-- `self._adj.get(module, [])`
unfoldable pub neighbors : Adjacency → String → List String
neighbors adj module_name = or_empty (Dict.get adj module_name)

-- The edges of all modules.
unfoldable pub edge_count : Adjacency → ℕ
edge_count [] = 0
edge_count ((m, targets) ∷ adj) = length targets + edge_count adj

abbrev pub unseen : List String → List String → List String
unseen seen targets = select (λ n. not (Sets.member seen n)) targets

-- The loop of `reachable`; `none` means that the fuel ran out.
unfoldable pub closure_loop : ℕ → Adjacency → List String → List String → Option (List String)
unfolding neighbors
closure_loop fuel adj seen [] = some seen
closure_loop zero adj seen (node ∷ queue) = none
closure_loop (suc fuel) adj seen (node ∷ queue) =
    let skipped = closure_loop fuel adj seen queue in
    let seen' = Sets.add seen node in
    let visited = closure_loop fuel adj seen' (queue ++ unseen seen' (neighbors adj node)) in
    if Sets.member seen node then skipped else visited

-- Each edge puts one module into the queue at most, so a round for each edge and each neighbor of the
-- module is enough.
unfoldable pub reachable : Adjacency → String → Option (List String)
unfolding closure_loop edge_count
reachable adj module_name =
    let queue = neighbors adj module_name in
    closure_loop (length queue + edge_count adj) adj [] queue
