-- ===== src/Server/Threads/Safe.antt =====
-- In every interleaving the queue and the threads own each job at most once, and only live jobs.
use distributed_queue_system.Base.{
  ℕ, ◌+◌, ◌^◌, ◌≤◌, ◌<◌, ◌≡◌, ◌≢◌, List, [], ◌∷◌, none, some, arith,
}
use distributed_queue_system.Queue.{unsigned_mod}
use distributed_queue_system.Queue.Invariant
use distributed_queue_system.History.{JobHistory}
use distributed_queue_system.History.Find
use distributed_queue_system.History.Find.{add_job_history-IsValid}
use distributed_queue_system.Server.{MainServer, num_queue_max}
use distributed_queue_system.Server.Owned.{Live, Distinct}
use distributed_queue_system.Server.Invariant.{IsSound, queued}
use distributed_queue_system.Server.Threads.{Thread}
use distributed_queue_system.Server.Threads.Owns.{occurs, occurs-All, owns, Routed}

-- What holds for a thread, while all others own each pointer `r` `rest r` times, and `n` more steps
-- can be made before a counter is at its limit.
pub record IsSafe (n : ℕ) (rest : ℕ → ℕ) (t : Thread) (s : MainServer) : Type 0 where
  pub queue_valid : Invariant.IsValid (s.queue 0)
  pub history_valid : Find.IsValid s.history
  pub queue_idx :
      (i : ℕ) (entry : JobHistory)
      → s.history.job_array i ≡ some entry
      → entry.queue_idx < num_queue_max
  pub queue_room : (s.queue 0).put_idx + n < unsigned_mod
  pub history_room : s.history.history_putidx + n < 2 ^ 32
  pub routed : Routed t
  pub once : (r : ℕ) → occurs r (queued s) + (owns r t + rest r) ≤ 1
  pub live : (r : ℕ) → 1 ≤ occurs r (queued s) + (owns r t + rest r) → s.heap r ≢ none

occurs-Distinct : (xs : List ℕ) → ((r : ℕ) → occurs r xs ≤ 1) → Distinct xs
unfolding occurs
occurs-Distinct [] h = tt
occurs-Distinct (x ∷ xs) h = (
  occurs-All (λ y. x ≢ y) xs (λ r le e. ground (arith, h r)),
  occurs-Distinct xs (λ r. ground (arith, h r)),
)

pub IsSafe-IsSound :
    (n : ℕ) (rest : ℕ → ℕ) (t : Thread) (s : MainServer) → IsSafe n rest t s → IsSound s
IsSafe-IsSound n rest t s v = record {
  queue_valid = v.queue_valid;
  history_valid = v.history_valid;
  owned = record {
    live = occurs-All (Live s.heap) (queued s) (λ r le. v.live r (omega arith));
    distinct = occurs-Distinct (queued s) (λ r. omega (arith, v.once r));
  };
  queue_idx = v.queue_idx;
}
