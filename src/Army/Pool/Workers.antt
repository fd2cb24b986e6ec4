-- ===== src/Army/Pool/Workers.antt =====
-- The number of workers of a pool (src/citadel/services/army/pool.py).
use the_soverign_imperia_cit.Base.{
  ℕ, suc, ◌≤◌, String, Option, none, List, [], ◌∷◌, length, ◌≡◌, refl, ◌∙◌, some, Option-cases, inl,
  inr, arith,
}
use the_soverign_imperia_cit.Base.Dict
use the_soverign_imperia_cit.Base.Dict.{Dict}
use the_soverign_imperia_cit.Army.Queue.{claim}
use the_soverign_imperia_cit.Army.Pool.{
  Task, PoolTools, Phase, submitted, pulling, done, holding, ran, acknowledged, died, WorkerOutcome,
  run_step, PoolState, claim_step, phase_step, schedule, run_one, submit_all,
}

count-put :
    (workers : Dict Phase) (w : String) (p p' : Phase)
    → Dict.get workers w ≡ some p
    → length (Dict.put workers w p') ≡ length workers
unfolding Dict.put Dict.get
count-put [] w p p' e = absurd (ground (arith, e))
count-put ((v, q) ∷ workers) w p p' e = ground (arith, e, count-put workers w p p')

count-claim_step :
    (s : PoolState) (w : String) (ready : List (ℕ × Task))
    → s.queue.ready ≡ ready
    → Dict.get s.workers w ≡ some pulling
    → length (claim_step s w).workers ≡ length s.workers
unfolding claim_step claim
count-claim_step s w [] r e = ground (arith, r, count-put s.workers w pulling done e)
count-claim_step s w ((msg_id, task) ∷ ready) r e =
    ground (arith, r, count-put s.workers w pulling (holding msg_id task) e)

count-run_step :
    (s : PoolState) (w : String) (msg_id : ℕ) (task : Task) (out : Option WorkerOutcome)
    → Dict.get s.workers w ≡ some (holding msg_id task)
    → length (run_step s w msg_id task out).workers ≡ length s.workers
unfolding run_step
count-run_step s w msg_id task (some o) e =
    count-put s.workers w (holding msg_id task) (ran msg_id o) e
count-run_step s w msg_id task none e =
    count-put s.workers w (holding msg_id task) (died msg_id task) e

count-phase_step :
    (t : PoolTools) (now : ℕ) (s : PoolState) (w : String) (p : Phase)
    → Dict.get s.workers w ≡ some p
    → length (phase_step t now s w p).workers ≡ length s.workers
unfolding phase_step
count-phase_step t now s w submitted e = count-put s.workers w submitted pulling e
count-phase_step t now s w pulling e = count-claim_step s w s.queue.ready refl e
count-phase_step t now s w (holding msg_id task) e =
    count-run_step s w msg_id task (run_one t s.reaper w now task) e
count-phase_step t now s w (ran msg_id o) e =
    count-put s.workers w (ran msg_id o) (acknowledged o) e
count-phase_step t now s w (acknowledged o) e = count-put s.workers w (acknowledged o) pulling e
count-phase_step t now s w done e = refl
count-phase_step t now s w (died msg_id task) e = refl

pub count-schedule :
    (t : PoolTools) (now : ℕ) (s : PoolState) (ws : List String)
    → length (schedule t now s ws).workers ≡ length s.workers
unfolding schedule
count-schedule t now s [] = refl
count-schedule t now s (w ∷ ws) = elim (Option-cases (Dict.get s.workers w)) [
  | inl e ↦ rw (e, schedule) (count-schedule t now s ws)
  | inr (p, e) ↦
      rw (e, schedule)
        (count-schedule t now (phase_step t now s w p) ws ∙ count-phase_step t now s w p e)
]

count-put-le :
    (workers : Dict Phase) (w : String) (p : Phase)
    → length (Dict.put workers w p) ≤ suc (length workers)
unfolding Dict.put
count-put-le [] w p = omega arith
count-put-le ((v, q) ∷ workers) w p = ground (arith, count-put-le workers w p)

pub count-submit_all : (ws : List String) → length (submit_all ws) ≤ length ws
unfolding submit_all
count-submit_all [] = omega arith
count-submit_all (w ∷ ws) =
    omega (arith, count-put-le (submit_all ws) w submitted, count-submit_all ws)
