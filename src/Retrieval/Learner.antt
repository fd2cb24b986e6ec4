-- ===== src/Retrieval/Learner.antt =====
-- src/citadel/services/retrieval/learner.py: the threshold that tunes itself. Rates are fractions, and
-- the threshold, which the source rounds to four digits, the bounds and the target are ten-thousandths.
pub mod Tuned
use the_soverign_imperia_cit.Base.{
  ℕ, zero, suc, ◌+◌, ◌-◌, ◌*◌, min, max, Bool, true, false, Option, none, some, ltb, leb,
  if◌then◌else◌,
}

-- What the file holds.
pub record Saved : Type 0 where
  pub queries : ℕ
  pub hits : ℕ
  pub threshold : ℕ

pub record Learner : Type 0 where
  pub file : Option Saved
  pub target : ℕ
  pub min_samples : ℕ
  pub floor : ℕ
  pub ceil : ℕ
  pub step : ℕ
  pub queries : ℕ
  pub hits : ℕ
  pub threshold : ℕ

-- A file that is absent or does not parse is `none`; a field that is absent has its default.
unfoldable pub load : Learner → Learner
load l = elim l.file [
  | none ↦ l
  | some saved ↦ record l {
    queries = saved.queries;
    hits = saved.hits;
    threshold = saved.threshold;
  }
]

-- The constructor.
unfoldable pub init : Option Saved → ℕ → ℕ → ℕ → ℕ → ℕ → Learner
unfolding load
init file target min_samples floor ceil step = load (record {
  file = file;
  target = target;
  min_samples = min_samples;
  floor = floor;
  ceil = ceil;
  step = step;
  queries = 0;
  hits = 0;
  threshold = 5000;
})

-- `stats`, less the rate for the display.
unfoldable pub stats : Learner → Saved
stats l = record { queries = l.queries; hits = l.hits; threshold = l.threshold }

unfoldable pub save : Learner → Learner
unfolding stats
save l = record l { file = some (stats l) }

-- `rate < target`
unfoldable pub is_low : Learner → Bool
is_low l = ltb (l.hits * 10000) (l.target * l.queries)

-- `rate > target + 0.1`
unfoldable pub is_high : Learner → Bool
is_high l = ltb ((l.target + 1000) * l.queries) (l.hits * 10000)

unfoldable pub retuned : Learner → ℕ
unfolding is_low is_high
retuned l =
    if leb l.min_samples l.queries
    then (if is_low l
        then min l.ceil (l.threshold + l.step)
        else if is_high l
        then max l.floor (l.threshold - l.step)
        else l.threshold)
    else l.threshold

unfoldable pub record_hit : Learner → Bool → Learner
unfolding retuned save
record_hit l hit =
    let l' = record l { queries = suc l.queries; hits = if hit then suc l.hits else l.hits } in
    save (record l' { threshold = retuned l' })

unfoldable pub tuned_threshold : Learner → ℕ
tuned_threshold l = l.threshold
