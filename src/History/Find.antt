-- ===== src/History/Find.antt =====
-- findJob finds a job exactly when the history holds it.
use distributed_queue_system.Base.{
  ℕ, zero, suc, ◌+◌, ◌%◌, ◌≤◌, ◌<◌, ◌≡◌, ◌≢◌, refl, Option, none, some, arith, Option-cases, ◌^◌,
  inl, inr, ap, eq-or-ne, ◌==◌, if◌then◌else◌,
}
use distributed_queue_system.History.{
  JobHistory, History, job_history_max, find_from, find_job, add_job_history, history_init,
  lookup_job, unchecked_job,
}

-- Every job stands in the slot of its id, and no slot before a used one is empty.
pub record IsValid (h : History) : Type 0 where
  pub slot :
      (i : ℕ) (job : JobHistory)
      → i < job_history_max
      → h.job_array i ≡ some job
      → job.id % job_history_max ≡ i
  pub filled : (i : ℕ) → i < job_history_max → i < h.history_putidx → h.job_array i ≢ none
  pub unused : (i : ℕ) → h.history_putidx ≤ i → h.job_array i ≡ none

-- The array as a direct-mapped table: a job can stand only in the slot of its id.
unfoldable pub direct : ℕ → History → Option ℕ
direct jobid h = elim (h.job_array (jobid % job_history_max)) [
  | none ↦ none
  | some job ↦ if job.id == jobid then some (jobid % job_history_max) else none
]

module _ (jobid : ℕ) (h : History) (v : IsValid h) where
  -- Past the slot of the id nothing is found.
  find_from-none :
      (rounds i : ℕ)
      → i + rounds ≡ job_history_max
      → jobid % job_history_max < i
      → find_from jobid h.job_array rounds i ≡ none
  unfolding find_from
  find_from-none zero i e lt = refl
  find_from-none (suc rounds) i e lt = elim (Option-cases (h.job_array i)) [
    | inl n ↦ ground (arith, n)
    | inr (job, s) ↦ ground (
      arith,
      s,
      v.slot i job (omega arith) s,
      find_from-none rounds (i + 1) (omega arith) (omega arith),
    )
  ]

  find_from-direct :
      (rounds i : ℕ)
      → i + rounds ≡ job_history_max
      → i ≤ jobid % job_history_max
      → find_from jobid h.job_array rounds i ≡ direct jobid h
  unfolding find_from direct
  find_from-direct zero i e le = absurd (omega arith)
  find_from-direct (suc rounds) i e le = elim (Option-cases (h.job_array i)) [
    | inl n ↦ ground (arith, n, v.filled i (omega arith), v.unused (jobid % job_history_max))
    | inr (job, s) ↦ elim (eq-or-ne i (jobid % job_history_max)) [
      | inl here ↦
          ground (
            arith,
            s,
            ap h.job_array here,
            find_from-none rounds (i + 1) (omega arith) (omega arith),
          )
      | inr later ↦ ground (
        arith,
        s,
        v.slot i job (omega arith) s,
        find_from-direct rounds (i + 1) (omega arith) (omega arith),
      )
    ]
  ]

  -- In a valid history, findJob's search from slot 0 to the first NULL gives the slot of the id
  -- modulo 10 if that slot holds a record of the id, and fails if not.
  pub find_job-direct : find_job jobid h ≡ direct jobid h
  unfolding find_job
  find_job-direct = find_from-direct job_history_max 0 (omega arith) (omega arith)

-- The record that the code works on for a job id, by the slot of the id.
unfoldable pub direct_job : ℕ → History → Option JobHistory
direct_job jobid h = elim (h.job_array (jobid % job_history_max)) [
  | none ↦ none
  | some job ↦ if job.id == jobid then some job else none
]

pub lookup_job-direct :
    (jobid : ℕ) (h : History) → IsValid h → lookup_job jobid h ≡ direct_job jobid h
unfolding lookup_job direct direct_job
lookup_job-direct jobid h v = ground (arith, find_job-direct jobid h v)

pub unchecked_job-direct :
    (jobid : ℕ) (h : History) → IsValid h → unchecked_job jobid h ≡ direct_job jobid h
unfolding unchecked_job direct direct_job
unchecked_job-direct jobid h v = ground (arith, find_job-direct jobid h v)

pub history_init-IsValid : IsValid history_init
unfolding history_init
history_init-IsValid = record {
  slot = λ i job b e. cc;
  filled = λ i b lt. absurd (omega arith);
  unused = λ i le. refl;
}

pub add_job_history-IsValid :
    (r : JobHistory) (h : History)
    → IsValid h
    → h.history_putidx + 1 < 2 ^ 32
    → IsValid (add_job_history r h).1
unfolding add_job_history
add_job_history-IsValid r h v lt = record {
  slot = λ i job b e. ground (arith, v.slot i job b);
  filled = λ i b le. ground (arith, v.filled i b);
  unused = λ i le. ground (arith, v.unused i);
}
