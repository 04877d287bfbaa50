-- ===== src/Server/Sample.antt =====
-- A server with two waiting jobs, for tests: ids 0 and 1 at the addresses 100 and 101.
use distributed_queue_system.Base.{ℕ, ◌+◌, [], ◌∷◌, none, some, arith, ◌==◌, if◌then◌else◌}
use distributed_queue_system.Job.{Job, Heap}
use distributed_queue_system.Queue.{Queue, avail}
use distributed_queue_system.Queue.Invariant
use distributed_queue_system.History.{JobHistory, History}
use distributed_queue_system.History.Find
use distributed_queue_system.History.Newest.{IsRecent}
use distributed_queue_system.Server.{MainServer}
use distributed_queue_system.Server.Reply.{Env}
use distributed_queue_system.Server.Invariant.{IsSound, HasRoom}

abbrev pub job_with : ℕ → Job
job_with id = record {
  id = id;
  port = 0;
  ipaddr = 0;
  exec_file = 108 ∷ 115 ∷ [];
  working_dir = 47 ∷ [];
}

abbrev pub entry_with : ℕ → JobHistory
entry_with id = record {
  id = id;
  ipaddr = 0;
  state = 0;
  exit_status = 7;
  queue_idx = 0;
  submit_time = 1000;
  start_proc_time = 0;
  end_proc_time = 0;
}

abbrev pub two_queue : Queue
two_queue = record { jobs = λ i. 100 + i; put_idx = 2; get_idx = 0; id = 0; state = avail }

abbrev pub two_history : History
two_history = record {
  job_array =
      λ i. if i == 0 then some (entry_with 0) else if i == 1 then some (entry_with 1) else none;
  history_putidx = 2;
}

abbrev pub two_heap : Heap
two_heap p = if p == 100 then some (job_with 0) else if p == 101 then some (job_with 1) else none

abbrev pub two_jobs : MainServer
two_jobs = record {
  history = two_history;
  queue = λ i. two_queue;
  queue2put = 2;
  queue2get = 0;
  heap = two_heap;
}

abbrev pub blank : ℕ → ℕ
blank i = 0

abbrev pub env : Env
env = record {
  pkg = blank;
  now = 2000;
  history_block = entry_with 9;
  job_block = job_with 9;
  addr = 102;
}

pub two_queue-IsValid : Invariant.IsValid two_queue
two_queue-IsValid = ground arith

pub two_history-IsValid : Find.IsValid two_history
two_history-IsValid = record {
  slot = λ i job b e. ground arith;
  filled = λ i b lt. ground arith;
  unused = λ i le. ground arith;
}

pub two_history-IsRecent : IsRecent two_history
two_history-IsRecent = record { recent = λ i job b e. ground arith }

pub two_jobs-IsSound : IsSound two_jobs
two_jobs-IsSound = record {
  queue_valid = two_queue-IsValid;
  history_valid = two_history-IsValid;
  owned = record { live = ground arith; distinct = ground arith };
  queue_idx = λ i entry e. ground arith;
}

pub two_jobs-HasRoom : HasRoom two_jobs
two_jobs-HasRoom = omega arith
