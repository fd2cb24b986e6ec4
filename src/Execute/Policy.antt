-- ===== src/Execute/Policy.antt =====
-- src/citadel/services/execute/policy.py: the local-first route and the learned confidence. A
-- confidence is a fraction. The file of outcomes is a list of lines, already read as JSON.
pub mod Routes
pub mod Persistence
pub mod History
use the_soverign_imperia_cit.Base.{
  ℕ, ◌+◌, ◌*◌, String, List, [], ◌∷◌, ◌++◌, Bool, true, false, ◌||◌, Option, none, some, ltb, ◌==◌,
  any, str_eq, map, if◌then◌else◌,
}
use the_soverign_imperia_cit.Base.Dict
use the_soverign_imperia_cit.Base.Dict.{Dict}
use the_soverign_imperia_cit.Base.Text.{Text, codes, lower, same}
use the_soverign_imperia_cit.Execute.Blueprint.{Status, pass}

pub record Ratio : Type 0 where
  pub num : ℕ
  pub den : ℕ

abbrev pub certain : Ratio
certain = record { num = 1; den = 1 }

-- `r < 0.5`
unfoldable pub below_half : Ratio → Bool
below_half r = ltb (2 * r.num) r.den

abbrev pub cloud_first_intents : List String
cloud_first_intents = "architecture" ∷ "migration" ∷ "security" ∷ "cross_repo" ∷ []

-- `intent.lower() in _CLOUD_FIRST_INTENTS`
unfoldable pub is_cloud_first : String → Bool
is_cloud_first intent = any (λ s. same (map lower (codes intent)) (codes s)) cloud_first_intents

pub data RouteReason : Type 0 where
  escalate : Text → String → Bool → RouteReason
  confidence_too_low : Text → Ratio → RouteReason
  local_first : Text → Ratio → RouteReason

pub record ExecutionRoute : Type 0 where
  pub tier : String
  pub free : Bool
  pub reason : RouteReason

abbrev pub lowered : String → Text
lowered intent = map lower (codes intent)

unfoldable pub route : String → String → Bool → Ratio → ExecutionRoute
route intent complexity high_risk local_confidence =
    if high_risk || (is_cloud_first intent || str_eq complexity "high")
    then record {
      tier = "cloud";
      free = false;
      reason = escalate (lowered intent) complexity high_risk;
    }
    else if below_half local_confidence
    then record {
      tier = "cloud";
      free = false;
      reason = confidence_too_low (lowered intent) local_confidence;
    }
    else record {
      tier = "local";
      free = true;
      reason = local_first (lowered intent) local_confidence;
    }

-- A line of the file: blank, not JSON, or a record with the fields that `get` finds.
pub data Line : Type 0 where
  blank broken : Line
  entry : Option String → Option String → Option Status → Line

pub record LocalConfidence : Type 0 where
  pub file : Option (List Line)
  pub min_attempts : ℕ
  pub stats : Dict (ℕ × ℕ)

abbrev pub or_zeros : Option (ℕ × ℕ) → ℕ × ℕ
or_zeros none = (0, 0)
or_zeros (some p) = p

abbrev pub is_pass : Option Status → Bool
is_pass (some pass) = true
is_pass _ = false

-- One more attempt at an intent.
unfoldable pub count : Dict (ℕ × ℕ) → String → Option Status → Dict (ℕ × ℕ)
count stats intent status =
    let (passed, attempts) = or_zeros (Dict.get stats intent) in
    Dict.put stats intent ((if is_pass status then passed + 1 else passed), attempts + 1)

abbrev pub or_empty : Option String → String
or_empty none = ""
or_empty (some s) = s

abbrev pub is_local : Option String → Bool
is_local none = false
is_local (some tier) = str_eq tier "local"

-- The loop of `_load`: a line that is not JSON ends it, and what was counted stays.
unfoldable pub load_lines : List Line → Dict (ℕ × ℕ) → Dict (ℕ × ℕ)
unfolding count
load_lines [] stats = stats
load_lines (blank ∷ lines) stats = load_lines lines stats
load_lines (broken ∷ lines) stats = stats
load_lines (entry intent tier status ∷ lines) stats =
    load_lines lines (if is_local tier then count stats (or_empty intent) status else stats)

-- The constructor: `none` is no path; a path with no file reads as no lines.
unfoldable pub init : Option (List Line) → ℕ → LocalConfidence
unfolding load_lines
init none min_attempts = record { file = none; min_attempts = min_attempts; stats = [] }
init (some lines) min_attempts = record {
  file = some lines;
  min_attempts = min_attempts;
  stats = load_lines lines [];
}

abbrev pub append_line : Option (List Line) → Line → Option (List Line)
append_line none l = none
append_line (some lines) l = some (lines ++ l ∷ [])

unfoldable pub record_outcome : LocalConfidence → String → String → Status → LocalConfidence
unfolding count
record_outcome c intent tier status = record c {
  stats = if str_eq tier "local" then count c.stats intent (some status) else c.stats;
  file = append_line c.file (entry (some intent) (some tier) (some status));
}

-- `none` is a ZeroDivisionError.
unfoldable pub confidence : LocalConfidence → String → Ratio → Option Ratio
confidence c intent prior =
    let (passed, attempts) = or_zeros (Dict.get c.stats intent) in
    if ltb attempts c.min_attempts
    then some prior
    else if attempts == 0
    then none
    else some (record { num = passed; den = attempts })
