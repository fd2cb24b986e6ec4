-- ===== src/Base/Sets.antt =====
-- Python's `set[str]` as a list: membership, `add` and `discard`.
use Prim.Native.String.{String}
use mathlib.Core.Path.{◌≡◌}
use mathlib.Core.Bool.{Bool, true, false}
use mathlib.Core.List.{List, [], ◌∷◌}
use native.Mathlib.Omega.{arith}
use text.Mathlib.Text.{◌==◌ as str_eq}
use text.Mathlib.TextEquality.{eq_iff}
use the_soverign_imperia_cit.Base.Tests.{if◌then◌else◌}

unfoldable pub member : List String → String → Bool
member [] k = false
member (j ∷ s) k = if str_eq j k then true else member s k

unfoldable pub add : List String → String → List String
unfolding member
add s k = if member s k then s else k ∷ s

unfoldable pub discard : List String → String → List String
discard [] k = []
discard (j ∷ s) k = let rest = discard s k in if str_eq j k then rest else j ∷ rest

pub member-add :
    (s : List String) (k j : String)
    → member (add s k) j ≡ (if str_eq k j then true else member s j)
unfolding add
member-add s k j = ground (arith, eq_iff k j)

pub member-discard :
    (s : List String) (k j : String)
    → member (discard s k) j ≡ (if str_eq k j then false else member s j)
unfolding member discard
member-discard [] k j = ground arith
member-discard (i ∷ s) k j =
    ground (arith, eq_iff k j, eq_iff i k, eq_iff i j, member-discard s k j)

pub ruleset set_laws = (member-add, member-discard)
