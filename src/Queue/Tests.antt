-- ===== src/Queue/Tests.antt =====
-- Tests of the queue, and its theorems at concrete queues.
use distributed_queue_system.Base.{ℕ, ◌+◌, ◌-◌, ◌≡◌, ◌≢◌, refl, List, [], ◌∷◌, some, arith}
use distributed_queue_system.Job.{Job, Heap, free}
use distributed_queue_system.Queue.{
  Queue, avail, queue_init, put_job, take_job, remove_job, stored, unsigned_mod,
}
use distributed_queue_system.Queue.Fifo
use distributed_queue_system.Queue.Fifo.{Call, put, take, Reply, waits, stored as is_stored, taken}
use distributed_queue_system.Queue.Invariant.{IsValid}
use distributed_queue_system.Queue.Refine.{contents, step, run, run_refines}
use distributed_queue_system.Queue.Remove.{remove_job_hit}
use distributed_queue_system.Queue.Wrap.{put_job_wrap}

abbrev raw : ℕ → ℕ
raw i = 0

abbrev job_numbered : ℕ → Job
job_numbered id = record { id = id; port = 0; ipaddr = 0; exec_file = []; working_dir = [] }

-- Every address below 40 holds a job whose id is the address.
abbrev numbered : Heap
numbered p = some (job_numbered p)

-- Jobs 20, 21, 22 in slots 0 to 2.
abbrev three : Queue
three = record { jobs = λ i. 20 + i; put_idx = 3; get_idx = 0; id = 0; state = avail }

-- Jobs in slots 13, 14 and 0.
abbrev wrapped : Queue
wrapped = record { jobs = λ i. 20 + i; put_idx = 16; get_idx = 13; id = 0; state = avail }

-- At the last value of `put_idx`, with one job in slot 14.
abbrev at_end : Queue
at_end = record {
  jobs = λ i. 20 + i;
  put_idx = unsigned_mod - 1;
  get_idx = unsigned_mod - 2;
  id = 0;
  state = avail;
}

abbrev calls : List Call
calls = put 7 ∷ put 8 ∷ take ∷ take ∷ take ∷ []

run_fresh : run (queue_init raw 0) calls ≡ is_stored ∷ is_stored ∷ taken 7 ∷ taken 8 ∷ waits ∷ []
unfolding run step put_job take_job queue_init
run_fresh = refl

contents-wrapped : contents wrapped ≡ 33 ∷ 34 ∷ 20 ∷ []
contents-wrapped = refl

three-IsValid : IsValid three
three-IsValid = ground arith

wrapped-IsValid : IsValid wrapped
wrapped-IsValid = ground arith

run_refines_example : run three calls ≡ Fifo.run 15 (20 ∷ 21 ∷ 22 ∷ []) calls
run_refines_example = run_refines three calls three-IsValid (omega arith)

-- Job 21 is removed from between the others.
remove_job_hit_example :
    (q' : Queue) × (remove_job 21 numbered three ≡ some (free numbered 21, q'))
    × (contents q' ≡ 20 ∷ 22 ∷ [])
remove_job_hit_example =
    remove_job_hit 21 numbered three (20 ∷ []) (22 ∷ []) 21 (job_numbered 21) three-IsValid
      (omega arith) refl (record { job = job_numbered 20; live = refl; other = omega arith }, tt)
      refl refl

put_job_wrap_example :
    ((stored at_end 5).jobs 0 ≡ 5)
    × ((stored (stored at_end 5) 6).jobs 0 ≡ 6)
    × ((j : ℕ) → j ≢ 0 → (stored (stored at_end 5) 6).jobs j ≡ 20 + j)
    × ((stored (stored at_end 5) 6).put_idx ≡ 1)
unfolding put_job
put_job_wrap_example = put_job_wrap at_end 5 6 refl refl refl
