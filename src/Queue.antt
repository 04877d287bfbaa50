-- ===== src/Queue.antt =====
-- `Queue_t` of main_server.h and the critical sections of main_server.c that work on it: QueueInit,
-- putJob, the section of sendJob that takes a job, and removeJob.
pub mod Fifo
pub mod Invariant
pub mod Refine
pub mod Steps
pub mod Remove
pub mod Wrap
mod Tests
use distributed_queue_system.Base.{
  ℕ, zero, suc, ◌+◌, ◌-◌, ◌%◌, ◌^◌, Bool, true, false, Option, none, some, ltb, ◌==◌, if◌then◌else◌,
  update,
}
use distributed_queue_system.Job.{Job, Heap, free}

-- MAX_JOBS_QUEUE
abbrev pub max_jobs_queue : ℕ
max_jobs_queue = 15

-- The modulus of `unsigned`, 32 bits wide.
abbrev pub unsigned_mod : ℕ
unsigned_mod = 2 ^ 32

-- QUEUE_STATE
pub data QueueState : Type 0 where
  avail : QueueState
  full : QueueState

-- The value of QUEUE_STATE's enumerator.
abbrev pub queue_state_code : QueueState → ℕ
queue_state_code avail = 0
queue_state_code full = 1

-- `Queue_t` without its mutex and condition variables: each function below is what one thread does
-- while it holds the mutex. `jobs` is the array of pointers.
pub record Queue : Type 0 where
  pub jobs : ℕ → ℕ
  pub put_idx : ℕ
  pub get_idx : ℕ
  pub id : ℕ
  pub state : QueueState

-- QueueInit; `raw` is what `malloc` left in the array, which is not initialised.
unfoldable pub queue_init : (ℕ → ℕ) → ℕ → Queue
queue_init raw q_id = record { jobs = raw; put_idx = 0; get_idx = 0; id = q_id; state = avail }

-- `queue->put_idx - queue->get_idx`, which wraps.
abbrev pub count : Queue → ℕ
count q = (q.put_idx + unsigned_mod - q.get_idx) % unsigned_mod

-- `put_idx++` and `get_idx++`
abbrev pub next_idx : ℕ → ℕ
next_idx i = (i + 1) % unsigned_mod

-- `put_idx--`, and `put_idx % MAX_JOBS_QUEUE - 1`
abbrev pub prev_idx : ℕ → ℕ
prev_idx i = (i + unsigned_mod - 1) % unsigned_mod

-- putJob past its loop: the state, the slot and the index.
abbrev pub stored : Queue → ℕ → Queue
stored q new_job = record q {
  state = if count q == max_jobs_queue - 1 then full else q.state;
  jobs = update q.jobs (q.put_idx % max_jobs_queue) new_job;
  put_idx = next_idx q.put_idx;
}

-- putJob; `none` where the thread waits on `put_condv`.
unfoldable pub put_job : Queue → ℕ → Option Queue
put_job q new_job = if count q == max_jobs_queue then none else some (stored q new_job)

-- `if ( queue->state == STATE_FULL ) queue->state = STATE_AVAIL;`
abbrev pub clear_full : QueueState → QueueState
clear_full avail = avail
clear_full full = avail

-- The oldest pointer, and the queue without it.
abbrev pub oldest : Queue → ℕ
oldest q = q.jobs (q.get_idx % max_jobs_queue)

abbrev pub advanced : Queue → Queue
advanced q = record q { state = clear_full q.state; get_idx = next_idx q.get_idx }

-- The section of sendJob that takes a job; `none` where the thread waits on `get_condv`.
unfoldable pub take_job : Queue → Option (ℕ × Queue)
take_job q = if count q == 0 then none else some (oldest q, advanced q)

-- The first loop of removeJob, with the rounds up to `put_idx % MAX_JOBS_QUEUE` left: the heap after
-- `free` and the index at which it stops. `none` is a read through a dangling pointer.
unfoldable pub scan : ℕ → (ℕ → ℕ) → ℕ → ℕ → Heap → Option (Heap × ℕ)
scan jobid jobs zero idx heap = some (heap, idx)
scan jobid jobs (suc rounds) idx heap =
    let rest = scan jobid jobs rounds (idx + 1) heap in
    elim (heap (jobs idx)) [
      | none ↦ none
      | some job ↦ if job.id == jobid then some (free heap (jobs idx), idx) else rest
    ]

-- The second loop of removeJob; `none` is an access past the end of the array.
unfoldable pub shift : ℕ → ℕ → (ℕ → ℕ) → Option (ℕ → ℕ)
shift zero idx jobs = some jobs
shift (suc rounds) idx jobs = elim (ltb (idx + 1) max_jobs_queue) [
  | true ↦ shift rounds (idx + 1) (update jobs idx (jobs (idx + 1)))
  | false ↦ none
]

-- What follows the first loop of removeJob.
unfoldable pub drop_slot : Queue → ℕ → Option Queue
drop_slot q idx = elim (shift (prev_idx (q.put_idx % max_jobs_queue) - idx) idx q.jobs) [
  | none ↦ none
  | some jobs ↦
      some (record q { jobs = jobs; put_idx = prev_idx q.put_idx; state = clear_full q.state })
]

-- removeJob; `none` is a memory fault in one of its loops.
unfoldable pub remove_job : ℕ → Heap → Queue → Option (Heap × Queue)
remove_job jobid heap q =
    if count q == 0
    then some (heap, q)
    else elim (scan jobid q.jobs (q.put_idx % max_jobs_queue - start) start heap) [
      | none ↦ none
      | some (heap', idx) ↦ elim (drop_slot q idx) [ none ↦ none | some q' ↦ some (heap', q') ]
    ]
  where
    start : ℕ
    start = q.get_idx % max_jobs_queue
