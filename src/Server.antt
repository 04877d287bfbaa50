-- ===== src/Server.antt =====
-- `MainServer_t` of main_server.h, and the critical sections of main_server.c that newJob, sendJob,
-- putJobBack and unsubmit are made of.
pub mod Reply
pub mod Owned
pub mod Invariant
pub mod Submit
pub mod Relay
pub mod Query
pub mod Unsubmit
pub mod Dispatch
pub mod Attend
pub mod Threads
pub mod Connections
pub mod Shutdown
pub mod Console
pub mod Sample
mod Tests
use distributed_queue_system.Base.{
  ℕ, ◌+◌, ◌%◌, ◌^◌, ◌≡◌, arith, Bool, true, false, Option, none, some, leb, ltb, ◌==◌,
  if◌then◌else◌, update,
}
use distributed_queue_system.Job.{Job, Heap}
use distributed_queue_system.Queue.{
  Queue, QueueState, avail, full, queue_init, put_job, take_job, remove_job,
}
use distributed_queue_system.History.{
  JobHistory, History, history_init, set_params_new_job_history, add_job_history, find_job,
  lookup_job, unchecked_job, write_entry,
}

-- NUM_QUEUE_MAX
abbrev pub num_queue_max : ℕ
num_queue_max = 1

-- `MainServer_t`, with the memory that its queues' pointers lead to.
pub record MainServer : Type 0 where
  pub history : History
  pub queue : ℕ → Queue
  pub queue2put : ℕ
  pub queue2get : ℕ
  pub heap : Heap

-- MainServerInit; `raw` is the memory that `malloc` returns for a queue's array.
unfoldable pub main_server_init : (ℕ → ℕ) → Heap → MainServer
unfolding queue_init history_init
main_server_init raw heap = record {
  history = history_init;
  queue = λ i. queue_init raw i;
  queue2put = 0;
  queue2get = 0;
  heap = heap;
}

abbrev pub set_queue : MainServer → ℕ → Queue → MainServer
set_queue s i q = record s { queue = update s.queue i q }

-- `queue2put++ % NUM_QUEUE_MAX` and `queue2get++ % NUM_QUEUE_MAX`
unfoldable pub next_put_queue : MainServer → ℕ × MainServer
next_put_queue s =
    (s.queue2put % num_queue_max, record s { queue2put = (s.queue2put + 1) % 2 ^ 32 })

unfoldable pub next_get_queue : MainServer → ℕ × MainServer
next_get_queue s =
    (s.queue2get % num_queue_max, record s { queue2get = (s.queue2get + 1) % 2 ^ 32 })

-- There is one queue.
pub next_put_queue_lem :
    (s : MainServer) → next_put_queue s ≡ (0, record s { queue2put = (s.queue2put + 1) % 2 ^ 32 })
unfolding next_put_queue
next_put_queue_lem s = ground arith

pub next_get_queue_lem :
    (s : MainServer) → next_get_queue s ≡ (0, record s { queue2get = (s.queue2get + 1) % 2 ^ 32 })
unfolding next_get_queue
next_get_queue_lem s = ground arith

-- putJob on one of the server's queues; `none` where it waits.
unfoldable pub put_section : ℕ → ℕ → MainServer → Option MainServer
put_section queue_idx p s = elim (put_job (s.queue queue_idx) p) [
  | none ↦ none
  | some q ↦ some (set_queue s queue_idx q)
]

-- The section of sendJob that takes a job; `none` where it waits.
unfoldable pub take_section : ℕ → MainServer → Option (ℕ × MainServer)
take_section queue_idx s = elim (take_job (s.queue queue_idx)) [
  | none ↦ none
  | some (p, q) ↦ some (p, set_queue s queue_idx q)
]

-- removeJob on one of the server's queues; `none` is a memory fault.
unfoldable pub remove_section : ℕ → ℕ → MainServer → Option MainServer
remove_section jobid queue_idx s = elim (remove_job jobid s.heap (s.queue queue_idx)) [
  | none ↦ none
  | some (heap, q) ↦ some (record (set_queue s queue_idx q) { heap = heap })
]
