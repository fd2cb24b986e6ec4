-- ===== src/Army/Queue/Claims.antt =====
-- No task is handed out twice.
use the_soverign_imperia_cit.Base.{
  ℕ, ◌+◌, ◌≤◌, ◌<◌, ◌≡◌, refl, ◌⊎◌, inl, inr, List, [], ◌∷◌, ◌++◌, Option, none, some, All,
  All-append, arith,
}
use the_soverign_imperia_cit.Army.Queue.{JobQueue, new_queue, enqueue, claim, ack, purge}

pub data Call (T : Type 0) : Type 0 where
  put_task : T → Call T
  claim_task : Call T
  ack_task : ℕ → Call T
  purge_all : Call T

abbrev pub noted : {A : Type 0} → List A → Option A → List A
noted log none = log
noted log (some m) = log ++ m ∷ []

-- The queue, what was put in it and what was handed out, each with the ids, in order.
pub record Run (T : Type 0) : Type 0 where
  pub queue : JobQueue T
  pub put : List (ℕ × T)
  pub handed : List (ℕ × T)

module _ {T : Type 0} where
  unfoldable pub step : Run T → Call T → Run T
  unfolding enqueue claim ack purge
  step r (put_task task) =
      let (q, msg_id) = enqueue r.queue task in
      record r { queue = q; put = r.put ++ (msg_id, task) ∷ [] }
  step r claim_task =
      let (q, m) = claim r.queue in record r { queue = q; handed = noted r.handed m }
  step r (ack_task msg_id) = record r { queue = ack r.queue msg_id }
  step r purge_all = record r { queue = purge r.queue }

  unfoldable pub run : Run T → List (Call T) → Run T
  unfolding step
  run r [] = r
  run r (c ∷ cs) = run (step r c) cs

  unfoldable pub new_run : Run T
  unfolding new_queue
  new_run = record { queue = new_queue; put = []; handed = [] }

  -- The ids grow strictly, from above the first bound up to the second.
  abbrev pub Rises : ℕ → List (ℕ × T) → ℕ → Type 0
  Rises low [] high = low ≤ high
  Rises low (m ∷ ms) high = (low < m.0) × Rises m.0 ms high

  -- A message is one of those put in.
  abbrev pub IsIn : List (ℕ × T) → ℕ × T → Type 0
  IsIn [] m = ⊥
  IsIn (p ∷ put) m = (p ≡ m) ⊎ IsIn put m

  IsIn-append : (put : List (ℕ × T)) (p m : ℕ × T) → IsIn put m → IsIn (put ++ p ∷ []) m
  IsIn-append [] p m h = absurd h
  IsIn-append (q ∷ put) p m (inl e) = inl e
  IsIn-append (q ∷ put) p m (inr h) = inr (IsIn-append put p m h)

  IsIn-last : (put : List (ℕ × T)) (p : ℕ × T) → IsIn (put ++ p ∷ []) p
  IsIn-last [] p = inl refl
  IsIn-last (q ∷ put) p = inr (IsIn-last put p)

  All-put : (put ms : List (ℕ × T)) (p : ℕ × T) → All (IsIn put) ms → All (IsIn (put ++ p ∷ [])) ms
  All-put put [] p h = tt
  All-put put (m ∷ ms) p h = (IsIn-append put p m h.0, All-put put ms p h.1)

  Rises-higher :
      (low high higher : ℕ) (ms : List (ℕ × T))
      → Rises low ms high
      → high ≤ higher
      → Rises low ms higher
  Rises-higher low high higher [] r h = omega arith
  Rises-higher low high higher (m ∷ ms) r h = (r.0, Rises-higher m.0 high higher ms r.1 h)

  Rises-snoc :
      (low high : ℕ) (ms : List (ℕ × T)) (m : ℕ × T)
      → Rises low ms high
      → high < m.0
      → Rises low (ms ++ m ∷ []) m.0
  Rises-snoc low high [] m r h = (omega arith, omega arith)
  Rises-snoc low high (k ∷ ms) m r h = (r.0, Rises-snoc k.0 high ms m r.1 h)

  -- Between the two lists lies an id from which on nothing was handed out.
  pub record IsOrdered (r : Run T) : Type 0 where
    pub mid : ℕ
    pub handed_rise : Rises 0 r.handed mid
    pub ready_rise : Rises mid r.queue.ready r.queue.seq
    pub handed_put : All (IsIn r.put) r.handed
    pub ready_put : All (IsIn r.put) r.queue.ready

  Rises-le : (low high : ℕ) (ms : List (ℕ × T)) → Rises low ms high → low ≤ high
  Rises-le low high [] r = r
  Rises-le low high (m ∷ ms) r = omega (arith, r.0, Rises-le m.0 high ms r.1)

  claim-IsOrdered :
      (put handed ready inflight : List (ℕ × T)) (seq : ℕ)
      → IsOrdered (record {
        queue = record { ready = ready; inflight = inflight; seq = seq };
        put = put;
        handed = handed;
      })
      → IsOrdered (
          step
            (record {
              queue = record { ready = ready; inflight = inflight; seq = seq };
              put = put;
              handed = handed;
            })
            claim_task)
  unfolding step claim
  claim-IsOrdered put handed [] inflight seq o = o
  claim-IsOrdered put handed (m ∷ ready) inflight seq o = record {
    mid = m.0;
    handed_rise = Rises-snoc 0 o.mid handed m o.handed_rise o.ready_rise.0;
    ready_rise = o.ready_rise.1;
    handed_put = All-append (IsIn put) handed (m ∷ []) o.handed_put (o.ready_put.0, tt);
    ready_put = o.ready_put.1;
  }

  step-IsOrdered : (r : Run T) (c : Call T) → IsOrdered r → IsOrdered (step r c)
  unfolding step enqueue ack purge
  step-IsOrdered r (put_task task) o = record {
    mid = o.mid;
    handed_rise = o.handed_rise;
    ready_rise =
        Rises-snoc o.mid r.queue.seq r.queue.ready (r.queue.seq + 1, task) o.ready_rise
          (omega arith);
    handed_put = All-put r.put r.handed (r.queue.seq + 1, task) o.handed_put;
    ready_put =
        All-append (IsIn (r.put ++ (r.queue.seq + 1, task) ∷ [])) r.queue.ready
          ((r.queue.seq + 1, task) ∷ [])
          (All-put r.put r.queue.ready (r.queue.seq + 1, task) o.ready_put)
          (IsIn-last r.put (r.queue.seq + 1, task), tt);
  }
  step-IsOrdered r claim_task o =
      claim-IsOrdered r.put r.handed r.queue.ready r.queue.inflight r.queue.seq o
  step-IsOrdered r (ack_task msg_id) o = record {
    mid = o.mid;
    handed_rise = o.handed_rise;
    ready_rise = o.ready_rise;
    handed_put = o.handed_put;
    ready_put = o.ready_put;
  }
  step-IsOrdered r purge_all o = record {
    mid = o.mid;
    handed_rise = o.handed_rise;
    ready_rise = Rises-le o.mid r.queue.seq r.queue.ready o.ready_rise;
    handed_put = o.handed_put;
    ready_put = tt;
  }

  run-IsOrdered : (r : Run T) (cs : List (Call T)) → IsOrdered r → IsOrdered (run r cs)
  unfolding run
  run-IsOrdered r [] o = o
  run-IsOrdered r (c ∷ cs) o = run-IsOrdered (step r c) cs (step-IsOrdered r c o)

  -- In any sequence of calls by any workers on a new queue, the ids of the messages that `claim`
  -- hands out grow strictly, so that none is handed out twice and the order is that of the puts,
  -- and each message is one that was put in, with its own id.
  pub claims_lem :
      (cs : List (Call T))
      → Rises 0 (run new_run cs).handed (run new_run cs).queue.seq
        × All (IsIn (run new_run cs).put) (run new_run cs).handed
  unfolding new_run new_queue
  claims_lem cs =
      let o = run-IsOrdered new_run cs (record {
        mid = 0;
        handed_rise = omega arith;
        ready_rise = omega arith;
        handed_put = tt;
        ready_put = tt;
      }) in
      (
        Rises-higher 0 o.mid (run new_run cs).queue.seq (run new_run cs).handed o.handed_rise
            (Rises-le o.mid (run new_run cs).queue.seq (run new_run cs).queue.ready o.ready_rise),
        o.handed_put,
      )
