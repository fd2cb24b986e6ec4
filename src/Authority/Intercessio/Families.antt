-- ===== src/Authority/Intercessio/Families.antt =====
-- The dual gate approves exactly when two passing gates are of different families.
use the_soverign_imperia_cit.Base.{
  String, ◌≡◌, ◌≢◌, ◌↔◌, refl, List, [], ◌∷◌, true, false, str_eq, eq_iff, arith, Bool-cases, inl,
  inr,
}
use mathlib.Core.Bool.{false≢true}
use the_soverign_imperia_cit.Base.Sets
use the_soverign_imperia_cit.Base.Sets.{member, member-add}
use the_soverign_imperia_cit.Authority.Intercessio.{Gate, passing_families, judge, dual_gate}

-- A gate of the family passed.
pub data HasPassed (family : String) : List Gate → Type 0 where
  here :
      {g : Gate} {gs : List Gate} → g.family ≡ family → g.passed ≡ true → HasPassed family (g ∷ gs)
  there : {g : Gate} {gs : List Gate} → HasPassed family gs → HasPassed family (g ∷ gs)

HasPassed-member :
    (f : String) (gs : List Gate) → member (passing_families gs) f ≡ true → HasPassed f gs
unfolding member passing_families
HasPassed-member f [] h = absurd (false≢true h)
HasPassed-member f (g ∷ gs) h = elim (Bool-cases g.passed) [
  | inr p ↦ there (HasPassed-member f gs (rw p at h))
  | inl p ↦ elim (Bool-cases (str_eq g.family f)) [
    | inl e ↦ here ((eq_iff g.family f).0 e) p
    | inr e ↦
        there (HasPassed-member f gs (ground (arith, member-add (passing_families gs) g.family f)))
  ]
]

member-HasPassed :
    (f : String) (gs : List Gate) → HasPassed f gs → member (passing_families gs) f ≡ true
unfolding passing_families
member-HasPassed f [] h = elim h [ ]
member-HasPassed f (g ∷ gs) (here e p) =
    ground (arith, member-add (passing_families gs) g.family f, eq_iff g.family f)
member-HasPassed f (g ∷ gs) (there h) =
    ground (arith, member-add (passing_families gs) g.family f, member-HasPassed f gs h)

-- No family stands twice.
abbrev IsDistinct : List String → Type 0
IsDistinct [] = Unit
IsDistinct (f ∷ fs) = (member fs f ≡ false) × IsDistinct fs

IsDistinct-add : (fs : List String) (f : String) → IsDistinct fs → IsDistinct (Sets.add fs f)
unfolding Sets.add
IsDistinct-add fs f d = elim (Bool-cases (member fs f)) [ inl e ↦ rw e d | inr e ↦ rw e (e, d) ]

IsDistinct-passing_families : (gs : List Gate) → IsDistinct (passing_families gs)
unfolding passing_families
IsDistinct-passing_families [] = tt
IsDistinct-passing_families (g ∷ gs) = elim (Bool-cases g.passed) [
  | inl e ↦ rw e (IsDistinct-add (passing_families gs) g.family (IsDistinct-passing_families gs))
  | inr e ↦ rw e (IsDistinct-passing_families gs)
]

-- Two different members of a set.
abbrev Two : List String → Type 0
Two fs = (f : String) × (g : String) × (f ≢ g) × (member fs f ≡ true) × (member fs g ≡ true)

judge-Two : (fs : List String) → IsDistinct fs → (judge fs).0 ≡ true → Two fs
unfolding judge member
judge-Two [] d h = absurd (false≢true h)
judge-Two (f ∷ []) d h = absurd (false≢true h)
judge-Two (f ∷ g ∷ fs) d h =
    (f, g, λ e. ground (arith, eq_iff g f), ground (arith, eq_iff f f), ground (arith, eq_iff g g))

Two-judge : (fs : List String) → Two fs → (judge fs).0 ≡ true
unfolding judge member
Two-judge [] t = absurd (false≢true t.3)
Two-judge (f ∷ []) t = absurd (t.2 (ground (arith, eq_iff f t.0, eq_iff f t.1)))
Two-judge (f ∷ g ∷ fs) t = refl

-- The dual gate approves exactly when gates of two different families have passed.
pub dual_gate_iff :
    (gates : List Gate)
    → ((dual_gate gates).0 ≡ true)
      ↔ ((f : String) × (g : String) × (f ≢ g) × HasPassed f gates × HasPassed g gates)
unfolding dual_gate
dual_gate_iff gates = (
  λ h.
      let t = judge-Two (passing_families gates) (IsDistinct-passing_families gates) h in
      (t.0, t.1, t.2, HasPassed-member t.0 gates t.3, HasPassed-member t.1 gates t.4),
  λ t.
      Two-judge (passing_families gates)
        (t.0, t.1, t.2, member-HasPassed t.0 gates t.3, member-HasPassed t.1 gates t.4),
)
