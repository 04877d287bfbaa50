-- ===== src/History/Newest.antt =====
-- The history holds the ten newest jobs, until the 16-bit ids come round.
use distributed_queue_system.Base.{
  ℕ, ◌+◌, ◌%◌, ◌^◌, ◌≤◌, ◌<◌, ◌≡◌, ◌≢◌, ◌↔◌, false, none, some, arith, Option-cases, inl, inr,
}
use distributed_queue_system.History.{
  JobHistory, History, job_history_max, add_job_history, history_init, lookup_job, frees_old,
}
use distributed_queue_system.History.Find.{IsValid, direct_job, lookup_job-direct}

-- Each job that is held is among the last ten submitted.
pub record IsRecent (h : History) : Type 0 where
  pub recent :
      (i : ℕ) (job : JobHistory)
      → i < job_history_max
      → h.job_array i ≡ some job
      → (job.id < h.history_putidx) × (h.history_putidx ≤ job.id + job_history_max)

pub history_init-IsRecent : IsRecent history_init
unfolding history_init
history_init-IsRecent = record { recent = λ i job b e. cc }

pub add_job_history-IsRecent :
    (r : JobHistory) (h : History)
    → IsValid h
    → IsRecent h
    → h.history_putidx < 2 ^ 16
    → IsRecent (add_job_history r h).1
unfolding add_job_history
add_job_history-IsRecent r h v n lt = record {
  recent = λ i job b e. ground (arith, n.recent i job b, v.slot i job b);
}

-- In a valid history in which no id came round, a job id is found, with a record of that id,
-- exactly when it was given out and at most nine ids were given out after it.
pub lookup_job_iff :
    (jobid : ℕ) (h : History)
    → IsValid h
    → IsRecent h
    → ((job : JobHistory) × (lookup_job jobid h ≡ some job) × (job.id ≡ jobid))
      ↔ ((jobid < h.history_putidx) × (h.history_putidx ≤ jobid + job_history_max))
unfolding direct_job
lookup_job_iff jobid h v n = elim (Option-cases (h.job_array (jobid % job_history_max))) [
  | inl e ↦ (
    λ (job, f, i). ground (arith, d, e),
    λ b. absurd (v.filled (jobid % job_history_max) (omega arith) (omega arith) e),
  )
  | inr (job, e) ↦ (
    λ (job', f, i). ground (arith, d, e, n.recent (jobid % job_history_max) job),
    λ b. (job, ground (arith, d, e, same job e b), same job e b),
  )
]
  where
    d : lookup_job jobid h ≡ direct_job jobid h
    d = lookup_job-direct jobid h v

    same :
        (job : JobHistory)
        → h.job_array (jobid % job_history_max) ≡ some job
        → (jobid < h.history_putidx) × (h.history_putidx ≤ jobid + job_history_max)
        → job.id ≡ jobid
    same job e b = omega (
      arith,
      v.slot (jobid % job_history_max) job (omega arith) e,
      n.recent (jobid % job_history_max) job (omega arith) e,
    )

-- In a valid history, past id 65535, newJob does not free the record that it replaces in the
-- slots of ids 0 to 9.
pub add_job_history_leaks :
    (h : History)
    → IsValid h
    → 2 ^ 16 ≤ h.history_putidx
    → h.history_putidx % 2 ^ 16 < job_history_max
    → (h.job_array (h.history_putidx % 2 ^ 16 % job_history_max) ≢ none) × (frees_old h ≡ false)
add_job_history_leaks h v le lt = (
  v.filled (h.history_putidx % 2 ^ 16 % job_history_max) (omega arith) (omega arith),
  ground arith,
)
