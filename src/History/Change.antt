-- ===== src/History/Change.antt =====
-- changeStateJob and the other writes through a pointer that findJob gave.
use mathlib.Core.Option
use distributed_queue_system.Base.{
  ℕ, ◌%◌, ◌≡◌, ◌≢◌, ◌↔◌, true, false, none, some, arith, Option-cases, inl, inr, ◌∙◌, ◌==◌,
  if◌then◌else◌, update, eq-or-ne, ◌⊎◌,
}
use distributed_queue_system.History.{
  JobHistory, History, job_history_max, find_job, lookup_job, write_entry, change_state_job,
  set_state, is_known,
}
use distributed_queue_system.History.Find.{
  IsValid, direct, direct_job, find_job-direct, lookup_job-direct,
}
use distributed_queue_system.History.Newest.{IsRecent}

-- What a write through the pointer of a job does: nothing if the job is not held, and otherwise a
-- write to the slot of its id.
pub write_entry_cases :
    (jobid : ℕ) (f : JobHistory → JobHistory) (h : History)
    → IsValid h
    → ((lookup_job jobid h ≡ none) × (write_entry (find_job jobid h) f h ≡ h))
      ⊎ ((job : JobHistory) × (lookup_job jobid h ≡ some job)
          × (job.id ≡ jobid)
          × (h.job_array (jobid % job_history_max) ≡ some job)
          × (write_entry (find_job jobid h) f h ≡ record h {
            job_array = update h.job_array (jobid % job_history_max) (some (f job));
          }))
unfolding write_entry direct direct_job
write_entry_cases jobid f h v = elim (Option-cases (h.job_array (jobid % job_history_max))) [
  | inl e ↦
      inl (
        ground (arith, e, lookup_job-direct jobid h v),
        ground (arith, e, find_job-direct jobid h v),
      )
  | inr (job, e) ↦ elim (eq-or-ne job.id jobid) [
    | inl i ↦ inr (
      job,
      ground (arith, e, i, lookup_job-direct jobid h v),
      i,
      e,
      ground (arith, e, i, find_job-direct jobid h v),
    )
    | inr n ↦ inl (
      ground (arith, e, n, lookup_job-direct jobid h v),
      ground (arith, e, n, find_job-direct jobid h v),
    )
  ]
]

module _ (jobid : ℕ) (f : JobHistory → JobHistory)
    (keeps : (job : JobHistory) → (f job).id ≡ job.id) (h : History) (v : IsValid h) where
  -- A write through the pointer of a job keeps the history well-formed.
  pub write_entry-IsValid : IsValid (write_entry (find_job jobid h) f h)
  write_entry-IsValid = elim (write_entry_cases jobid f h v) [
    | inl (n, e) ↦ rw e v
    | inr (job, l, j, s, e) ↦ rw e (record {
      slot = λ i job' b e'. ground (arith, keeps job, v.slot i job' b, v.slot i job b);
      filled = λ i b lt. ground (arith, v.filled i b lt);
      unused = λ i le. ground (arith, s, v.unused i le);
    })
  ]

  pub write_entry-IsRecent : IsRecent h → IsRecent (write_entry (find_job jobid h) f h)
  write_entry-IsRecent n = elim (write_entry_cases jobid f h v) [
    | inl (_, e) ↦ rw e n
    | inr (job, l, j, s, e) ↦ rw e (record {
      recent = λ i job' b e'. ground (arith, keeps job, n.recent i job' b, n.recent i job b, s);
    })
  ]

  -- It changes what the history finds for that job, and for no other.
  pub lookup_job-write_entry :
      (j : ℕ)
      → lookup_job j (write_entry (find_job jobid h) f h)
        ≡ (if j == jobid then Option.map f (lookup_job jobid h) else lookup_job j h)
  unfolding direct_job
  lookup_job-write_entry j =
      lookup_job-direct j (write_entry (find_job jobid h) f h) write_entry-IsValid
      ∙ elim (write_entry_cases jobid f h v) [
        | inl (n, e) ↦ rw e (ground (arith, lookup_job-direct j h v, n))
        | inr (job, l, i, s, e) ↦ rw e (ground (arith, lookup_job-direct j h v, l, i, s, keeps job))
      ]

pub set_state-id :
    (state exit_value now : ℕ) (job : JobHistory) → (set_state state exit_value now job).id ≡ job.id
unfolding set_state
set_state-id state exit_value now job = ground arith

pub set_state-queue_idx :
    (state exit_value now : ℕ) (job : JobHistory)
    → (set_state state exit_value now job).queue_idx ≡ job.queue_idx
unfolding set_state
set_state-queue_idx state exit_value now job = ground arith

module _ (jobid state exit_value now : ℕ) (h : History) (v : IsValid h) where
  -- A known state is written through the job's pointer, if the history holds the job.
  pub change_state_job_known :
      is_known state ≡ true
      → change_state_job jobid state exit_value now h
        ≡ some (write_entry (find_job jobid h) (set_state state exit_value now) h)
  unfolding change_state_job
  change_state_job_known k = elim (write_entry_cases jobid (set_state state exit_value now) h v) [
    | inl (n, e) ↦ ground (arith, n, e)
    | inr (job, l, i, s, e) ↦ ground (arith, l, k)
  ]

  -- In a valid history, a state that changeStateJob knows is stored for the job, if the history
  -- holds it, with its exit status and its time; what the history finds for every other id
  -- stays.
  pub change_state_job_lem :
      is_known state ≡ true
      → (h' : History) × (change_state_job jobid state exit_value now h ≡ some h')
        × IsValid h'
        × ((j : ℕ)
            → lookup_job j h' ≡ (
                if j == jobid
                then Option.map (set_state state exit_value now) (lookup_job jobid h)
                else lookup_job j h))
  change_state_job_lem k =
      let f = set_state state exit_value now in
      let same = set_state-id state exit_value now in
      (
        write_entry (find_job jobid h) f h,
        change_state_job_known k,
        write_entry-IsValid jobid f same h v,
        lookup_job-write_entry jobid f same h v,
      )

-- changeStateJob aborts the server exactly when the history holds the job and the state is none of
-- running, finished, signaled and error.
pub change_state_job_aborts :
    (jobid state exit_value now : ℕ) (h : History)
    → (change_state_job jobid state exit_value now h ≡ none)
      ↔ ((lookup_job jobid h ≢ none) × (is_known state ≡ false))
unfolding change_state_job
change_state_job_aborts jobid state exit_value now h =
    (λ e. (λ n. ground arith, ground arith), λ p. ground arith)
