-- ===== src/Examples/Army.antt =====
-- The army's theorems at concrete inputs.
use the_soverign_imperia_cit.Base.{ℕ, String, List, [], ◌∷◌, none, some, inr, All}
use the_soverign_imperia_cit.Authority.Lease
use the_soverign_imperia_cit.Authority.Empire.{imperium_maius}
use the_soverign_imperia_cit.Army.Queue.{JobQueue}
use the_soverign_imperia_cit.Army.Queue.Claims.{
  Call, put_task, claim_task, ack_task, purge_all, new_run, run, Rises, IsIn, claims_lem,
}
use the_soverign_imperia_cit.Army.Pool.{Task, PoolTools}

abbrev calls : List (Call ℕ)
calls = put_task 7 ∷ put_task 8 ∷ claim_task ∷ ack_task 1 ∷ claim_task ∷ claim_task ∷ purge_all ∷ []

claims_lem_example :
    Rises 0 (run new_run calls).handed (run new_run calls).queue.seq
    × All (IsIn (run new_run calls).put) (run new_run calls).handed
claims_lem_example = claims_lem calls

abbrev task : Task
task = record { id = some "t0"; tier = none; payload = [] }

abbrev two_tasks : JobQueue Task
two_tasks = record { ready = (1, task) ∷ (2, task) ∷ []; inflight = []; seq = 2 }

abbrev tools : PoolTools
tools = record {
  run_fn = λ t. inr ("pass", []);
  verify = some (λ t o. none);
  lease_ttl = 30;
  maius =
      imperium_maius
        (record {
          domi_prefixes = [];
          militiae_prefixes = (47 ∷ []) ∷ [];
          default_zone = "militiae";
        })
        "army-root" "maius";
}

abbrev turns : List String
turns = "w0" ∷ "w1" ∷ "w0" ∷ "w1" ∷ "w1" ∷ "w0" ∷ "w0" ∷ "w0" ∷ "w0" ∷ []
