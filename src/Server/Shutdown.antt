-- ===== src/Server/Shutdown.antt =====
-- MainServerDestroy and QueueDestroy of main_server.c: what is freed when the main server stops.
-- Destroying a mutex or a condition variable is taken to succeed.
pub mod Laws
use distributed_queue_system.Base.{
  ℕ, zero, suc, ◌+◌, ◌%◌, ◌^◌, true, false, Option, none, some, ltb, if◌then◌else◌, update,
}
use distributed_queue_system.Job.{Heap, free}
use distributed_queue_system.Queue.{Queue, max_jobs_queue, unsigned_mod, count}
use distributed_queue_system.History.{JobHistory, History, job_history_max}
use distributed_queue_system.Server.{MainServer, num_queue_max}

-- `jobs[(get_idx + i) % MAX_JOBS_QUEUE]`
abbrev pub job_at : Queue → ℕ → ℕ
job_at q i = q.jobs ((q.get_idx + i) % unsigned_mod % max_jobs_queue)

-- Rounds of QueueDestroy's loop from `i` on; `none` is a block that is freed and not in use.
unfoldable pub free_jobs : ℕ → ℕ → Queue → Heap → Option Heap
free_jobs zero i q heap = some heap
free_jobs (suc rounds) i q heap = elim (heap (job_at q i)) [
  | none ↦ none
  | some job ↦ free_jobs rounds (i + 1) q (free heap (job_at q i))
]

unfoldable pub queue_destroy : Queue → Heap → Option Heap
unfolding free_jobs
queue_destroy q heap = free_jobs (count q) 0 q heap

-- The loop over the queues from `i` on.
unfoldable pub destroy_queues : ℕ → ℕ → MainServer → Option Heap
unfolding queue_destroy
destroy_queues zero i s = some s.heap
destroy_queues (suc rounds) i s = elim (queue_destroy (s.queue i) s.heap) [
  | none ↦ none
  | some heap ↦ destroy_queues rounds (i + 1) (record s { heap = heap })
]

-- The loop over the history; `free` of NULL does nothing.
unfoldable pub free_history : ℕ → ℕ → (ℕ → Option JobHistory) → ℕ → Option JobHistory
free_history zero i a = a
free_history (suc rounds) i a = free_history rounds (i + 1) (update a i none)

abbrev pub history_limit : History → ℕ
history_limit h = if ltb h.history_putidx job_history_max then h.history_putidx else job_history_max

unfoldable pub main_server_destroy : MainServer → Option MainServer
unfolding destroy_queues free_history
main_server_destroy s = elim (destroy_queues num_queue_max 0 s) [
  | none ↦ none
  | some heap ↦ some (record s {
    heap = heap;
    history = record s.history {
      job_array = free_history (history_limit s.history) 0 s.history.job_array;
    };
  })
]
