-- ===== src/Army/Pool/Conserved.antt =====
-- The number of tasks in any interleaving of the workers.
use the_soverign_imperia_cit.Base.{ℕ, ◌+◌, [], ◌∷◌, length}
use the_soverign_imperia_cit.Base.Dict
use the_soverign_imperia_cit.Base.Dict.{Dict}
use the_soverign_imperia_cit.Army.Pool.{
  Phase, submitted, pulling, done, holding, ran, acknowledged, died, PoolState,
}

-- A worker between the claim of a task and its outcome has it in hand.
abbrev pub in_hand : Phase → ℕ
in_hand submitted = 0
in_hand pulling = 0
in_hand done = 0
in_hand (holding msg_id task) = 1
in_hand (ran msg_id o) = 1
in_hand (acknowledged o) = 1
in_hand (died msg_id task) = 0

-- A worker that an exception ended has lost the task that it had.
abbrev pub lost : Phase → ℕ
lost submitted = 0
lost pulling = 0
lost done = 0
lost (holding msg_id task) = 0
lost (ran msg_id o) = 0
lost (acknowledged o) = 0
lost (died msg_id task) = 1

abbrev pub hands : Dict Phase → ℕ
hands [] = 0
hands ((w, p) ∷ workers) = in_hand p + hands workers

abbrev pub losses : Dict Phase → ℕ
losses [] = 0
losses ((w, p) ∷ workers) = lost p + losses workers

abbrev pub total : PoolState → ℕ
total s = length s.queue.ready + (hands s.workers + (losses s.workers + length s.outcomes))
