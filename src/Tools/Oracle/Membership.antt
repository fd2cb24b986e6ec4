-- ===== src/Tools/Oracle/Membership.antt =====
-- What the oracle answers after any run of its operations.
use the_soverign_imperia_cit.Base.{
  String, List, [], ◌∷◌, ◌≡◌, refl, ap, ◌∙◌, Bool, true, false, not, arith, str_eq, eq_iff,
  if◌then◌else◌,
}
use the_soverign_imperia_cit.Base.Sets
use the_soverign_imperia_cit.Base.Sets.{member-add, member-discard}
use the_soverign_imperia_cit.Tools.Oracle.{MembershipOracle, init, add, tombstone, contains, absent}

pub data Op : Type 0 where
  adding : String → Op
  removing : String → Op

abbrev pub step : MembershipOracle → Op → MembershipOracle
step o (adding key) = add o key
step o (removing key) = tombstone o key

abbrev pub run : List Op → MembershipOracle → MembershipOracle
run [] o = o
run (op ∷ ops) o = run ops (step o op)

-- Membership as a plain set would answer it.
abbrev pub expected : List Op → Bool → String → Bool
expected [] before key = before
expected (adding k ∷ ops) before key = expected ops (if str_eq k key then true else before) key
expected (removing k ∷ ops) before key = expected ops (if str_eq k key then false else before) key

contains-add :
    (o : MembershipOracle) (k j : String)
    → contains (add o k) j ≡ (if str_eq k j then true else contains o j)
unfolding contains add
contains-add o k j =
    ground (arith, member-discard o.tombstones k j, member-add o.adds k j, eq_iff k j)

contains-tombstone :
    (o : MembershipOracle) (k j : String)
    → contains (tombstone o k) j ≡ (if str_eq k j then false else contains o j)
unfolding contains tombstone
contains-tombstone o k j =
    ground (arith, member-add o.tombstones k j, member-discard o.adds k j, eq_iff k j)

contains-run :
    (ops : List Op) (o : MembershipOracle) (key : String)
    → contains (run ops o) key ≡ expected ops (contains o key) key
contains-run [] o key = refl
contains-run (adding k ∷ ops) o key = rw (contains-run ops (add o k) key, contains-add o k key) refl
contains-run (removing k ∷ ops) o key =
    rw (contains-run ops (tombstone o k) key, contains-tombstone o k key) refl

contains-init :
    (keys : List String) (key : String) → contains (init keys) key ≡ Sets.member keys key
unfolding contains init Sets.member
contains-init keys key = refl

from_keys :
    (keys : List String) (ops : List Op) (key : String)
    → contains (run ops (init keys)) key ≡ expected ops (Sets.member keys key) key
from_keys keys ops key =
    contains-run ops (init keys) key ∙ ap (λ b. expected ops b key) (contains-init keys key)

-- An oracle built from a list of keys answers `contains`, after any sequence of `add` and `tombstone`,
-- as a plain set that starts with these keys would; `absent` is the negation of that answer.
pub run-contains :
    (keys : List String) (ops : List Op) (key : String)
    → (contains (run ops (init keys)) key ≡ expected ops (Sets.member keys key) key)
      × (absent (run ops (init keys)) key ≡ not (expected ops (Sets.member keys key) key))
unfolding absent
run-contains keys ops key = (from_keys keys ops key, ap not (from_keys keys ops key))
