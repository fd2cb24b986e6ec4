-- ===== src/Army/Pool.antt =====
-- src/citadel/services/army/pool.py: workers that drain the queue, each on a lease. A worker is a
-- machine of the steps between which others may run; the queue, the reaper and the outcomes are
-- shared. What runs and verifies a task are parameters; `now` is the one time of a run.
pub mod Conserved
pub mod Workers
use the_soverign_imperia_cit.Base.{
  ℕ, String, List, [], ◌∷◌, ◌++◌, Bool, true, false, not, ◌||◌, ◌⊎◌, inl, inr, ◌≡◌, Option, none,
  some, if◌then◌else◌,
}
use the_soverign_imperia_cit.Base.Dict
use the_soverign_imperia_cit.Base.Dict.{Dict}
use the_soverign_imperia_cit.Base.Text.{Text, append, codes}
use the_soverign_imperia_cit.Authority.Fasces.{write_file}
use the_soverign_imperia_cit.Authority.Lease.{LeaseReaper, grant, revoke, is_valid}
use the_soverign_imperia_cit.Authority.Empire.{Imperium, permits, delegate}
use the_soverign_imperia_cit.Army.Queue.{JobQueue, claim, ack}

-- The fields that `get` finds in a task, and the rest of it.
pub record Task : Type 0 where
  pub id : Option String
  pub tier : Option String
  pub payload : Text

pub record WorkerOutcome : Type 0 where
  pub task_id : String
  pub worker_id : String
  pub tier : String
  pub status : String
  pub output : Text
  pub verified : Bool

-- An exception of `run_fn` is the left side; `none` of `verify` is an exception.
pub record PoolTools : Type 0 where
  pub run_fn : Task → Text ⊎ (String × Text)
  pub verify : Option (Task → Text → Option Bool)
  pub lease_ttl : ℕ
  pub maius : Imperium

unfoldable pub lease_of : String → String
unfolding append
lease_of worker_id = append "lease-" worker_id

-- `task.get(name, default)`
abbrev pub or_default : Option String → String → String
or_default none d = d
or_default (some s) d = s

unfoldable pub is_verified : PoolTools → Task → Text → Option Bool
is_verified t task output = elim t.verify [ none ↦ some true | some check ↦ check task output ]

abbrev pub outcome : String → Task → String → Text → Bool → WorkerOutcome
outcome worker_id task status output verified = record {
  task_id = or_default task.id "?";
  worker_id = worker_id;
  tier = or_default task.tier "local";
  status = status;
  output = output;
  verified = verified;
}

-- The outcome of a run that ended, from its verification, whose exception is outside the `try`.
abbrev pub verdict : String → Task → String → Text → Option Bool → Option WorkerOutcome
verdict worker_id task status output none = none
verdict worker_id task status output (some verified) =
    some (outcome worker_id task (if verified then status else "fail") output verified)

-- What the run of a task gives, verified.
unfoldable pub judge_run : PoolTools → String → Task → Text ⊎ (String × Text) → Option WorkerOutcome
unfolding is_verified
judge_run t worker_id task (inl exc) = some (outcome worker_id task "error" exc false)
judge_run t worker_id task (inr (status, output)) =
    verdict worker_id task status output (is_verified t task output)

-- The legatus of a worker: its authority is the rod `write_file` only.
unfoldable pub legatus : PoolTools → String → Imperium
unfolding lease_of
legatus t worker_id = delegate t.maius worker_id write_file (lease_of worker_id) "legatus"

-- `none` is an exception that leaves the worker.
unfoldable pub run_one : PoolTools → LeaseReaper → String → ℕ → Task → Option WorkerOutcome
unfolding judge_run legatus lease_of
run_one t reaper worker_id now task =
    if not (is_valid reaper (lease_of worker_id) now)
      || not (permits (legatus t worker_id) write_file (codes "/task"))
    then some (outcome worker_id task "rejected" (codes "no valid lease/capability") false)
    else judge_run t worker_id task (t.run_fn task)

-- Where a worker stands between two steps.
pub data Phase : Type 0 where
  submitted pulling done : Phase
  holding : ℕ → Task → Phase
  died : ℕ → Task → Phase
  ran : ℕ → WorkerOutcome → Phase
  acknowledged : WorkerOutcome → Phase

pub record PoolState : Type 0 where
  pub queue : JobQueue Task
  pub reaper : LeaseReaper
  pub outcomes : List WorkerOutcome
  pub workers : Dict Phase

abbrev pub move : PoolState → String → Phase → PoolState
move s w p = record s { workers = Dict.put s.workers w p }

-- A claim: the message, or the end of the worker, who gives its lease back.
unfoldable pub claim_step : PoolState → String → PoolState
unfolding lease_of
claim_step s w =
    let (q, m) = claim s.queue in
    elim m [
      | none ↦ record (move s w done) { queue = q; reaper = revoke s.reaper (lease_of w) }
      | some (msg_id, task) ↦ record (move s w (holding msg_id task)) { queue = q }
    ]

-- After the run of a task: its outcome, or the end of the worker, whose `finally` gives its lease back.
unfoldable pub run_step : PoolState → String → ℕ → Task → Option WorkerOutcome → PoolState
unfolding lease_of
run_step s w msg_id task (some o) = move s w (ran msg_id o)
run_step s w msg_id task none = record (move s w (died msg_id task)) {
  reaper = revoke s.reaper (lease_of w);
}

-- One step of a worker from its phase.
unfoldable pub phase_step : PoolTools → ℕ → PoolState → String → Phase → PoolState
unfolding run_one run_step claim_step lease_of
phase_step t now s w submitted = record (move s w pulling) {
  reaper = (grant s.reaper (lease_of w) w t.lease_ttl now).0;
}
phase_step t now s w pulling = claim_step s w
phase_step t now s w (holding msg_id task) =
    run_step s w msg_id task (run_one t s.reaper w now task)
phase_step t now s w (ran msg_id o) = record (move s w (acknowledged o)) {
  queue = ack s.queue msg_id;
}
phase_step t now s w (acknowledged o) = record (move s w pulling) {
  outcomes = s.outcomes ++ o ∷ [];
}
phase_step t now s w done = s
phase_step t now s w (died msg_id task) = s

-- A schedule names the worker that takes the next step.
unfoldable pub schedule : PoolTools → ℕ → PoolState → List String → PoolState
unfolding phase_step
schedule t now s [] = s
schedule t now s (w ∷ ws) = elim (Dict.get s.workers w) [
  | none ↦ schedule t now s ws
  | some p ↦ schedule t now (phase_step t now s w p) ws
]

-- The workers of `run`, each submitted to the executor.
unfoldable pub submit_all : List String → Dict Phase
submit_all [] = []
submit_all (w ∷ ws) = Dict.put (submit_all ws) w submitted

unfoldable pub start : JobQueue Task → LeaseReaper → List String → PoolState
unfolding submit_all
start queue reaper workers = record {
  queue = queue;
  reaper = reaper;
  outcomes = [];
  workers = submit_all workers;
}
