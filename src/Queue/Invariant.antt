-- ===== src/Queue/Invariant.antt =====
-- The representation invariant of `Queue_t`, up to the first 2 ^ 32 - 1 submissions.
use distributed_queue_system.Base.{ℕ, ◌+◌, ◌-◌, ◌≤◌, ◌<◌, ◌≡◌, some, arith}
use distributed_queue_system.Queue.{
  Queue, full, max_jobs_queue, unsigned_mod, queue_init, put_job, take_job, count,
}

pub record IsValid (q : Queue) : Type 0 where
  pub ordered : q.get_idx ≤ q.put_idx
  pub bounded : q.put_idx ≤ q.get_idx + max_jobs_queue
  pub no_wrap : q.put_idx < unsigned_mod
  pub state_full : q.state ≡ full → q.put_idx ≡ q.get_idx + max_jobs_queue
  pub full_state : q.put_idx ≡ q.get_idx + max_jobs_queue → q.state ≡ full

pub queue_init-IsValid : (raw : ℕ → ℕ) (q_id : ℕ) → IsValid (queue_init raw q_id)
unfolding queue_init
queue_init-IsValid raw q_id = ground arith

pub count-eq-sub : {q : Queue} → IsValid q → count q ≡ q.put_idx - q.get_idx
count-eq-sub v = omega arith

pub put_job-IsValid :
    {q : Queue} {q' : Queue} (p : ℕ)
    → IsValid q
    → q.put_idx + 1 < unsigned_mod
    → put_job q p ≡ some q'
    → IsValid q'
unfolding put_job
put_job-IsValid p v h e = ground arith

pub take_job-IsValid :
    {q : Queue} {q' : Queue} {p : ℕ} → IsValid q → take_job q ≡ some (p, q') → IsValid q'
unfolding take_job
take_job-IsValid v e = ground arith
