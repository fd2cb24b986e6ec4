-- ===== src/Authority/Trust/History.antt =====
-- The standing of a component against the history of its verdicts.
use the_soverign_imperia_cit.Base.{
  ℕ, suc, ◌+◌, String, ◌≡◌, refl, List, [], ◌∷◌, Bool, true, false, leb, str_eq, eq_iff, arith,
  if◌then◌else◌, ◌∙◌,
}
use the_soverign_imperia_cit.Base.Dict
use the_soverign_imperia_cit.Base.Dict.{get-put}
use the_soverign_imperia_cit.Base.Sets
use the_soverign_imperia_cit.Base.Sets.{member-add}
use the_soverign_imperia_cit.Authority.Trust.{
  Verdict, pass, fail, capital, other, TrustLedger, init, clean_streak, record_verdict, is_citizen,
  requires_dual_gate,
}

-- One call of `record`.
pub record Entry : Type 0 where
  pub component : String
  pub verdict : Verdict
  pub axe : Bool

unfoldable pub run : TrustLedger → List Entry → TrustLedger
run t [] = t
run t (e ∷ es) = run (record_verdict t e.component e.verdict e.axe) es

abbrev is_capital : Verdict → Bool
is_capital capital = true
is_capital _ = false

abbrev is_pass : Verdict → Bool
is_pass pass = true
is_pass _ = false

-- Some entry of the component is CAPITAL.
unfoldable pub condemned : String → List Entry → Bool
condemned c [] = false
condemned c (e ∷ es) =
    if str_eq e.component c
    then (if is_capital e.verdict then true else condemned c es)
    else condemned c es

-- The number of PASS verdicts of the component on reversible work.
unfoldable pub clean_passes : String → List Entry → ℕ
clean_passes c [] = 0
clean_passes c (e ∷ es) =
    let rest = clean_passes c es in
    if str_eq e.component c
    then (if is_pass e.verdict then (if e.axe then rest else suc rest) else rest)
    else rest

member-record_verdict :
    (t : TrustLedger) (j : String) (v : Verdict) (axe : Bool) (c : String)
    → Sets.member (record_verdict t j v axe).revoked c ≡ (
        if str_eq j c
        then (if is_capital v then true else Sets.member t.revoked c)
        else Sets.member t.revoked c)
unfolding record_verdict
member-record_verdict t j capital axe c = ground (arith, member-add t.revoked j c)
member-record_verdict t j pass axe c = ground arith
member-record_verdict t j fail axe c = ground arith
member-record_verdict t j (other s) axe c = ground arith

member-run :
    (t : TrustLedger) (es : List Entry) (c : String)
    → Sets.member (run t es).revoked c ≡ (if Sets.member t.revoked c then true else condemned c es)
unfolding run condemned
member-run t [] c = ground arith
member-run t (e ∷ es) c = ground (
  arith,
  member-record_verdict t e.component e.verdict e.axe c,
  member-run (record_verdict t e.component e.verdict e.axe) es c,
)

clean_streak-record_verdict :
    (t : TrustLedger) (j : String) (v : Verdict) (axe : Bool) (c : String)
    → clean_streak (record_verdict t j v axe) c ≡ (
        if str_eq j c
        then (if is_capital v
            then 0
            else if is_pass v
            then (if axe then clean_streak t c else suc (clean_streak t c))
            else clean_streak t c)
        else clean_streak t c)
unfolding record_verdict
clean_streak-record_verdict t j capital axe c = ground (arith, get-put t.clean j c 0)
clean_streak-record_verdict t j pass axe c =
    ground (arith, get-put t.clean j c (clean_streak t j + 1), eq_iff j c)
clean_streak-record_verdict t j fail axe c = ground arith
clean_streak-record_verdict t j (other s) axe c = ground arith

clean_streak-run :
    (t : TrustLedger) (es : List Entry) (c : String)
    → condemned c es ≡ false
    → clean_streak (run t es) c ≡ clean_streak t c + clean_passes c es
unfolding run condemned clean_passes
clean_streak-run t [] c h = omega arith
clean_streak-run t (e ∷ es) c h = ground (
  arith,
  clean_streak-record_verdict t e.component e.verdict e.axe c,
  clean_streak-run (record_verdict t e.component e.verdict e.axe) es c,
)

threshold-record_verdict :
    (t : TrustLedger) (c : String) (v : Verdict) (axe : Bool)
    → (record_verdict t c v axe).threshold ≡ t.threshold
unfolding record_verdict
threshold-record_verdict t c capital axe = refl
threshold-record_verdict t c pass axe = ground arith
threshold-record_verdict t c fail axe = refl
threshold-record_verdict t c (other s) axe = refl

is_citizen_lem :
    (t : TrustLedger) (c : String)
    → is_citizen t c
      ≡ (if Sets.member t.revoked c then false else leb t.threshold (clean_streak t c))
unfolding is_citizen
is_citizen_lem t c = refl

threshold-run : (t : TrustLedger) (es : List Entry) → (run t es).threshold ≡ t.threshold
unfolding run record_verdict
threshold-run t [] = refl
threshold-run t (e ∷ es) =
    threshold-run (record_verdict t e.component e.verdict e.axe) es
    ∙ threshold-record_verdict t e.component e.verdict e.axe

init-empty :
    (threshold : ℕ) (c : String)
    → (clean_streak (init threshold) c ≡ 0)
      × (Sets.member (init threshold).revoked c ≡ false)
      × ((init threshold).threshold ≡ threshold)
unfolding init clean_streak Dict.get Sets.member
init-empty threshold c = (refl, refl, refl)

-- After any history a component gates reversible work alone exactly when it never had a CAPITAL
-- verdict and its PASS verdicts on reversible work, whenever they came, reach the threshold.
pub is_citizen-run :
    (threshold : ℕ) (es : List Entry) (c : String)
    → is_citizen (run (init threshold) es) c
      ≡ (if condemned c es then false else leb threshold (clean_passes c es))
is_citizen-run threshold es c = ground (
  arith,
  is_citizen_lem (run (init threshold) es) c,
  member-run (init threshold) es c,
  threshold-run (init threshold) es,
  clean_streak-run (init threshold) es c,
  init-empty threshold c,
)

-- Irreversible work needs two gates after every history, and one CAPITAL verdict makes a component
-- need two gates for ever: before and after it any verdicts may stand.
pub requires_dual_gate-run :
    (t : TrustLedger) (es later : List Entry) (c : String) (capital_axe axe : Bool)
    → (requires_dual_gate (run t es) c true ≡ true)
      × (requires_dual_gate (run (record_verdict (run t es) c capital capital_axe) later) c axe
          ≡ true)
unfolding requires_dual_gate is_citizen
requires_dual_gate-run t es later c capital_axe axe = (
  refl,
  ground (
    arith,
    member-record_verdict (run t es) c capital capital_axe c,
    member-run (record_verdict (run t es) c capital capital_axe) later c,
    eq_iff c c,
  ),
)
