-- ===== src/Job.antt =====
-- `Job_t` and `JobHistory_t` of main_server.h, and the memory that holds the jobs.
use distributed_queue_system.Base.{ℕ, List, Option, none, update}

-- `Job_t`. The two arrays are the bytes that they hold.
pub record Job : Type 0 where
  pub id : ℕ
  pub port : ℕ
  pub ipaddr : ℕ
  pub exec_file : List ℕ
  pub working_dir : List ℕ

-- The blocks that `malloc` gave out for jobs, by address; `none` at an address that is not
-- allocated, so that a read there is a fault.
abbrev pub Heap : Type 0
Heap = ℕ → Option Job

-- `free(p)`
abbrev pub free : Heap → ℕ → Heap
free heap p = update heap p none
