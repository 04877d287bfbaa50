-- ===== src/History/Tests.antt =====
-- Tests of the history, and its theorems at a concrete one.
use distributed_queue_system.Base.{
  ℕ, ◌+◌, ◌≤◌, ◌≡◌, ◌↔◌, ◌<◌, refl, none, some, arith, leb, if◌then◌else◌,
}
use distributed_queue_system.History.{
  JobHistory, History, job_history_max, find_job, find_from, lookup_job, add_job_history,
}
use distributed_queue_system.History.Find.{IsValid}
use distributed_queue_system.History.Newest.{IsRecent, lookup_job_iff}

abbrev entry : ℕ → JobHistory
entry id = record {
  id = id;
  ipaddr = 0;
  state = 0;
  exit_status = 0;
  queue_idx = 0;
  submit_time = 50;
  start_proc_time = 0;
  end_proc_time = 0;
}

-- The history after jobs 0 to 12: slots 0 to 2 hold 10 to 12.
abbrev thirteen : History
thirteen = record {
  job_array =
      λ i. if leb 10 i then none else if leb 3 i then some (entry i) else some (entry (i + 10));
  history_putidx = 13;
}

-- The history after job 65535, with the ids 65526 to 65535.
abbrev at_id_end : History
at_id_end = record {
  job_array = λ i.
      if leb 10 i
      then none
      else if leb 6 i
      then some (entry (65520 + i))
      else some (entry (65530 + i));
  history_putidx = 65536;
}

find_job_runs : find_job 11 thirteen ≡ some 1
unfolding find_job find_from
find_job_runs = refl

find_job_gone : find_job 2 thirteen ≡ none
unfolding find_job find_from
find_job_gone = refl

add_job_history_runs : (add_job_history (entry 99) thirteen).0 ≡ 13
unfolding add_job_history
add_job_history_runs = refl

thirteen-IsValid : IsValid thirteen
thirteen-IsValid = record {
  slot = λ i job b e. ground arith;
  filled = λ i b lt. ground arith;
  unused = λ i le. ground arith;
}

thirteen-IsRecent : IsRecent thirteen
thirteen-IsRecent = record { recent = λ i job b e. ground arith }

at_id_end-IsValid : IsValid at_id_end
at_id_end-IsValid = record {
  slot = λ i job b e. ground arith;
  filled = λ i b lt. ground arith;
  unused = λ i le. ground arith;
}

lookup_job_iff_example :
    ((job : JobHistory) × (lookup_job 11 thirteen ≡ some job) × (job.id ≡ 11))
    ↔ ((11 < 13) × (13 ≤ 11 + job_history_max))
lookup_job_iff_example = lookup_job_iff 11 thirteen thirteen-IsValid thirteen-IsRecent
