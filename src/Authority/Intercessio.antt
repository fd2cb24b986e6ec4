-- ===== src/Authority/Intercessio.antt =====
-- src/citadel/services/authority/intercessio.py and auxilia.py: the dual gate. The reasons keep
-- their data and leave out the words around it.
pub mod Families
use Prim.Native.String.{compare}
use text.Mathlib.Text.{is_le}
use the_soverign_imperia_cit.Base.{
  ℕ, String, List, [], ◌∷◌, Bool, true, false, leb, length, if◌then◌else◌,
}
use the_soverign_imperia_cit.Base.Sets

pub record Gate : Type 0 where
  pub family : String
  pub passed : Bool

-- `GeminiFunditor.gate`: the judgement is injected.
unfoldable pub funditor_gate : {A : Type 0} → (A → Bool) → A → Gate
funditor_gate validate artifact = record { family = "gemini"; passed = validate artifact }

-- `{gate.family for gate in gates if gate.passed}`
unfoldable pub passing_families : List Gate → List String
passing_families [] = []
passing_families (g ∷ gs) =
    let rest = passing_families gs in if g.passed then Sets.add rest g.family else rest

unfoldable pub insert_sorted : String → List String → List String
insert_sorted s [] = s ∷ []
insert_sorted s (t ∷ ts) =
    let rest = insert_sorted s ts in if is_le (compare s t) then s ∷ t ∷ ts else t ∷ rest

unfoldable pub sorted : List String → List String
unfolding insert_sorted
sorted [] = []
sorted (s ∷ ss) = insert_sorted s (sorted ss)

pub data Reason : Type 0 where
  approved : List String → Reason
  only_one : String → Reason
  no_passing_gate : Reason

-- The tests on the size of the set are the patterns.
unfoldable pub judge : List String → Bool × Reason
unfolding sorted
judge [] = (false, no_passing_gate)
judge (family ∷ []) = (false, only_one family)
judge (f ∷ g ∷ families) = (true, approved (sorted (f ∷ g ∷ families)))

unfoldable pub dual_gate : List Gate → Bool × Reason
unfolding passing_families judge
dual_gate gates = judge (passing_families gates)
