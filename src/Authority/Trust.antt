-- ===== src/Authority/Trust.antt =====
-- src/citadel/services/authority/trust.py: the standing of auxiliaries. Statuses are the strings of
-- verdict.py, kept as a data type whose last case is every other string.
pub mod History
use the_soverign_imperia_cit.Base.{
  ℕ, suc, ◌+◌, String, List, [], Bool, true, false, not, ◌&&◌, Option, none, some, leb,
  if◌then◌else◌,
}
use the_soverign_imperia_cit.Base.Dict
use the_soverign_imperia_cit.Base.Dict.{Dict}
use the_soverign_imperia_cit.Base.Sets

pub data Verdict : Type 0 where
  pass fail capital : Verdict
  other : String → Verdict

pub record TrustLedger : Type 0 where
  pub threshold : ℕ
  pub clean : Dict ℕ
  pub revoked : List String

unfoldable pub init : ℕ → TrustLedger
init threshold = record { threshold = threshold; clean = []; revoked = [] }

abbrev pub or_zero : Option ℕ → ℕ
or_zero none = 0
or_zero (some n) = n

unfoldable pub clean_streak : TrustLedger → String → ℕ
clean_streak t component = or_zero (Dict.get t.clean component)

unfoldable pub record_verdict : TrustLedger → String → Verdict → Bool → TrustLedger
unfolding clean_streak
record_verdict t component capital axe = record t {
  clean = Dict.put t.clean component 0;
  revoked = Sets.add t.revoked component;
}
record_verdict t component pass axe =
    if axe
    then t
    else record t { clean = Dict.put t.clean component (clean_streak t component + 1) }
record_verdict t component fail axe = t
record_verdict t component (other s) axe = t

unfoldable pub is_citizen : TrustLedger → String → Bool
unfolding clean_streak
is_citizen t component =
    if Sets.member t.revoked component then false else leb t.threshold (clean_streak t component)

unfoldable pub requires_dual_gate : TrustLedger → String → Bool → Bool
unfolding is_citizen
requires_dual_gate t component axe = if axe then true else not (is_citizen t component)
