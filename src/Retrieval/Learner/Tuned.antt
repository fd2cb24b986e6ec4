-- ===== src/Retrieval/Learner/Tuned.antt =====
-- Where the threshold goes.
use the_soverign_imperia_cit.Base.{
  ℕ, zero, suc, ◌+◌, ◌*◌, ◌≤◌, ◌<◌, min, ◌≡◌, refl, List, [], ◌∷◌, Bool, false, arith, leb,
  Bool-cases, inl, inr, if◌then◌else◌,
}
use the_soverign_imperia_cit.Retrieval.Learner.{
  Learner, load, init, stats, save, is_low, is_high, retuned, record_hit,
}

abbrev pub run : List Bool → Learner → Learner
run [] l = l
run (hit ∷ hits) l = run hits (record_hit l hit)

-- The threshold lies within its bounds, there are no more hits than queries, and the file, when it
-- has been written, holds them.
pub record IsTuned (l : Learner) : Type 0 where
  pub low : l.floor ≤ l.threshold
  pub high : l.threshold ≤ l.ceil
  pub counted : l.hits ≤ l.queries

retuned-within : (l : Learner) → IsTuned l → (l.floor ≤ retuned l) × (retuned l ≤ l.ceil)
unfolding retuned
retuned-within l h = elim (Bool-cases (leb l.min_samples l.queries)) [
  | inr e ↦ rw e (h.low, h.high)
  | inl e ↦ rw e (elim (Bool-cases (is_low l)) [
    | inl a ↦ rw a (let p = h.low in let q = h.high in (omega arith, omega arith))
    | inr a ↦ rw a (elim (Bool-cases (is_high l)) [
      | inl b ↦ rw b (let p = h.low in let q = h.high in (omega arith, omega arith))
      | inr b ↦ rw b (h.low, h.high)
    ])
  ])
]

pub record_hit-IsTuned : (l : Learner) (hit : Bool) → IsTuned l → IsTuned (record_hit l hit)
unfolding record_hit save
record_hit-IsTuned l hit h =
    let l' = record l { queries = suc l.queries; hits = if hit then suc l.hits else l.hits } in
    let c : l'.hits ≤ l'.queries = let k = h.counted in ground arith in
    let (p, q) = retuned-within l' (record { low = h.low; high = h.high; counted = c }) in
    record { low = p; high = q; counted = c }

abbrev pub misses : ℕ → List Bool
misses zero = []
misses (suc n) = false ∷ misses n

le_mul : (t q : ℕ) → 1 ≤ t → q ≤ t * q
le_mul zero q h = absurd (omega arith)
le_mul (suc t) q h = omega arith

mul_suc : (t q : ℕ) → t * suc q ≡ t * q + t
mul_suc t q = omega arith

-- The next miss raises the threshold, and so does each after it.
abbrev IsDue : Learner → Type 0
IsDue l = (l.min_samples ≤ suc l.queries) × (l.hits * 10000 < l.target * suc l.queries)

retuned-IsDue :
    (l : Learner)
    → l.min_samples ≤ l.queries
    → l.hits * 10000 < l.target * l.queries
    → retuned l ≡ min l.ceil (l.threshold + l.step)
unfolding retuned is_low
retuned-IsDue l p q = ground arith

record_hit-IsDue :
    (l : Learner)
    → IsDue l
    → IsDue (record_hit l false)
      × ((record_hit l false).threshold ≡ min l.ceil (l.threshold + l.step))
unfolding record_hit save
record_hit-IsDue l (p, q) = (
  (omega arith, omega (arith, q, mul_suc l.target (suc l.queries))),
  retuned-IsDue (record l { queries = suc l.queries }) p q,
)

run-IsDue :
    (n : ℕ) (l : Learner)
    → IsDue l
    → IsTuned l
    → 1 ≤ l.step
    → l.ceil ≤ l.threshold + n
    → (run (misses n) l).threshold ≡ l.ceil
unfolding record_hit save
run-IsDue zero l due h s e = let q = h.high in omega arith
run-IsDue (suc n) l due h s e =
    let (due', t) = record_hit-IsDue l due in
    run-IsDue n (record_hit l false) due' (record_hit-IsTuned l false h) s (omega (arith, t))

climb :
    (k n : ℕ) (l : Learner)
    → IsTuned l
    → 1 ≤ l.step
    → 1 ≤ l.target
    → l.min_samples ≤ l.queries + k
    → l.hits * 10000 ≤ l.queries + k
    → k + l.ceil ≤ n
    → (run (misses n) l).threshold ≡ l.ceil
unfolding record_hit save
climb zero n l h s t p q e =
    run-IsDue n l (omega arith, omega (arith, le_mul l.target (suc l.queries) t)) h s (omega arith)
climb (suc k) zero l h s t p q e = absurd (omega arith)
climb (suc k) (suc n) l h s t p q e =
    climb k n (record_hit l false) (record_hit-IsTuned l false h) s t (omega arith) (omega arith)
      (omega arith)

-- A learner within its bounds, with a target and a step that are not zero, reaches the upper bound of
-- its threshold by enough misses: the samples that it waits for, ten thousand for each hit so far, and
-- as many as the bound has ten-thousandths; and it stays there for all further misses.
pub threshold-misses :
    (n : ℕ) (l : Learner)
    → IsTuned l
    → 1 ≤ l.step
    → 1 ≤ l.target
    → l.min_samples + l.hits * 10000 + l.ceil ≤ n
    → (run (misses n) l).threshold ≡ l.ceil
unfolding record_hit save
threshold-misses n l h s t e =
    climb (l.min_samples + l.hits * 10000) n l h s t (omega arith) (omega arith) e

-- A run of hits and misses keeps the threshold within its bounds and the hits at most the queries, and a
-- learner made anew with the same settings from the file that the run's last step wrote has the same
-- counts and the same threshold.
pub init-record_hit :
    (l : Learner) (hits : List Bool) (hit : Bool)
    → IsTuned l
    → IsTuned (record_hit (run hits l) hit)
      × (init (record_hit (run hits l) hit).file l.target l.min_samples l.floor l.ceil l.step
          ≡ record_hit (run hits l) hit)
unfolding record_hit save init load stats
init-record_hit l [] hit h = (record_hit-IsTuned l hit h, refl)
init-record_hit l (x ∷ hits) hit h =
    init-record_hit (record_hit l x) hits hit (record_hit-IsTuned l x h)
