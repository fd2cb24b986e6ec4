-- ===== src/Execute/Sequencer.antt =====
-- src/citadel/services/execute/sequencer.py: blueprints grouped by a key, by default the tier.
pub mod Groups
use the_soverign_imperia_cit.Base.{String, List, [], ◌∷◌, ◌++◌, Option, none, some, if◌then◌else◌}
use the_soverign_imperia_cit.Base.Dict
use the_soverign_imperia_cit.Base.Dict.{Dict}
use the_soverign_imperia_cit.Execute.Blueprint.{Blueprint}

abbrev pub by_tier : Blueprint → String
by_tier b = b.assigned_tier

-- `groups[k]`, which is there when the loop has seen the key.
abbrev pub group_of : Option (List Blueprint) → List Blueprint
group_of none = []
group_of (some bs) = bs

-- The loop over the blueprints, on the dictionary and the order of its keys.
unfoldable pub gather :
    (Blueprint → String)
    → List Blueprint
    → Dict (List Blueprint)
    → List String
    → Dict (List Blueprint) × List String
gather key [] groups order = (groups, order)
gather key (b ∷ bs) groups order = elim (Dict.get groups (key b)) [
  | none ↦ gather key bs (Dict.put groups (key b) (b ∷ [])) (order ++ key b ∷ [])
  | some group ↦ gather key bs (Dict.put groups (key b) (group ++ b ∷ [])) order
]

-- `[groups[k] for k in order]`; `none` is the KeyError.
unfoldable pub pick_groups : Dict (List Blueprint) → List String → Option (List (List Blueprint))
pick_groups groups [] = some []
pick_groups groups (k ∷ order) = elim (Dict.get groups k) [
  | none ↦ none
  | some group ↦ elim (pick_groups groups order) [ none ↦ none | some rest ↦ some (group ∷ rest) ]
]

unfoldable pub sequence : (Blueprint → String) → List Blueprint → Option (List (List Blueprint))
unfolding gather pick_groups
sequence key bs = let (groups, order) = gather key bs [] [] in pick_groups groups order
