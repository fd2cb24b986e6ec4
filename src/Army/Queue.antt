-- ===== src/Army/Queue.antt =====
-- src/citadel/services/army/queue.py: the job queue in memory. A message id `mem-{seq}` is its
-- number; the lock makes each method one step. `claim` is one look at the queue: the loop around it
-- only looks again until its time is over.
pub mod Claims
use the_soverign_imperia_cit.Base.{
  ℕ, ◌+◌, List, [], ◌∷◌, ◌++◌, length, Option, none, some, ◌==◌, not, select,
}

module _ {T : Type 0} where
  -- The `dict.pop(msg_id, None)` of the tasks in flight.
  unfoldable pub forget : List (ℕ × T) → ℕ → List (ℕ × T)
  forget inflight msg_id = select (λ m. not (m.0 == msg_id)) inflight

pub record JobQueue (T : Type 0) : Type 0 where
  pub ready : List (ℕ × T)
  pub inflight : List (ℕ × T)
  pub seq : ℕ

module _ {T : Type 0} where
  unfoldable pub new_queue : JobQueue T
  new_queue = record { ready = []; inflight = []; seq = 0 }

  unfoldable pub enqueue : JobQueue T → T → JobQueue T × ℕ
  enqueue q task =
      (record q { seq = q.seq + 1; ready = q.ready ++ (q.seq + 1, task) ∷ [] }, q.seq + 1)

  -- Ids do not repeat, so the entry in the dictionary is a new one.
  unfoldable pub claim : JobQueue T → JobQueue T × Option (ℕ × T)
  claim q = elim q.ready [
    | [] ↦ (q, none)
    | m ∷ ready ↦ (record q { ready = ready; inflight = q.inflight ++ m ∷ [] }, some m)
  ]

  unfoldable pub ack : JobQueue T → ℕ → JobQueue T
  unfolding forget
  ack q msg_id = record q { inflight = forget q.inflight msg_id }

  unfoldable pub pending : JobQueue T → ℕ
  pending q = length q.ready + length q.inflight

  unfoldable pub purge : JobQueue T → JobQueue T
  purge q = record q { ready = []; inflight = [] }
