-- ===== src/Queue/Steps.antt =====
-- putJob and the taking section of sendJob where they wait and where they do not, for the server
-- that calls them.
use distributed_queue_system.Base.{
  ℕ, ◌+◌, ◌-◌, ◌%◌, ◌<◌, ◌≡◌, ◌≢◌, [], ◌∷◌, ◌++◌, some, none, arith, ap, ap₂, suc, ◌∙◌, update,
}
use distributed_queue_system.Queue.{
  Queue, max_jobs_queue, unsigned_mod, count, stored, oldest, advanced, put_job, take_job,
}
use distributed_queue_system.Queue.Invariant.{IsValid, put_job-IsValid}
use distributed_queue_system.Queue.Refine.{contents, window, window-update, window-cons}

pub put_job_full : (q : Queue) (p : ℕ) → count q ≡ max_jobs_queue → put_job q p ≡ none
unfolding put_job
put_job_full q p h = ground arith

-- A job that does not wait is stored behind the others.
pub record Stored (q : Queue) (p : ℕ) : Type 0 where
  pub returns : put_job q p ≡ some (stored q p)
  pub valid : IsValid (stored q p)
  pub behind : contents (stored q p) ≡ contents q ++ p ∷ []

pub put_job-Stored :
    (q : Queue) (p : ℕ)
    → IsValid q
    → count q ≢ max_jobs_queue
    → q.put_idx + 1 < unsigned_mod
    → Stored q p
unfolding put_job
put_job-Stored q p v n h = record {
  returns = ground arith;
  valid = put_job-IsValid p v h (ground arith);
  behind =
      ap (window (stored q p).jobs q.get_idx) {y = suc (q.put_idx - q.get_idx)} (omega arith)
      ∙ (ap
            (λ k.
              window (update q.jobs (k % max_jobs_queue) p) q.get_idx (suc (q.put_idx - q.get_idx)))
            {x = q.put_idx} (omega arith)
          ∙ window-update q.jobs q.get_idx (q.put_idx - q.get_idx) p (omega arith));
}

pub take_job_empty : (q : Queue) → count q ≡ 0 → take_job q ≡ none
unfolding take_job
take_job_empty q h = ground arith

-- A queue that is not empty gives its oldest job.
pub record Taken (q : Queue) : Type 0 where
  pub returns : take_job q ≡ some (oldest q, advanced q)
  pub valid : IsValid (advanced q)
  pub front : contents q ≡ oldest q ∷ contents (advanced q)

pub take_job-Taken : (q : Queue) → IsValid q → count q ≢ 0 → Taken q
unfolding take_job
take_job-Taken q v n = record {
  returns = ground arith;
  valid = ground arith;
  front =
      window-cons q.jobs q.get_idx (q.put_idx - q.get_idx) (omega arith)
      ∙ ap (◌∷◌ (oldest q)) (ap₂ (window q.jobs) (omega arith) (omega arith));
}
