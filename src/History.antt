-- ===== src/History.antt =====
-- The job history of main_server.c: `JobHistory_t`, `job_array` and the sections that hold
-- `job_hist_mtx`.
pub mod Find
pub mod Newest
pub mod Change
mod Tests
use distributed_queue_system.Base.{
  ℕ, zero, suc, ◌+◌, ◌%◌, ◌^◌, Bool, true, false, ◌&&◌, ◌||◌, Option, none, some, ltb, leb, ◌==◌,
  if◌then◌else◌, update, not,
}
use distributed_queue_system.Proto.{state_code, wait, run, finished, unsubmited, signaled, error}

-- JOB_HISTORY_MAX
abbrev pub job_history_max : ℕ
job_history_max = 10

-- `JobHistory_t`. `state`, `exit_status` and `queue_idx` are bytes, `id` has 16 bits.
pub record JobHistory : Type 0 where
  pub id : ℕ
  pub ipaddr : ℕ
  pub state : ℕ
  pub exit_status : ℕ
  pub queue_idx : ℕ
  pub submit_time : ℕ
  pub start_proc_time : ℕ
  pub end_proc_time : ℕ

-- The part of `MainServer_t` that `job_hist_mtx` guards. A slot of the array owns the block that it
-- points to, so it holds the record itself; `none` is NULL.
pub record History : Type 0 where
  pub job_array : ℕ → Option JobHistory
  pub history_putidx : ℕ

-- MainServerInit's part.
unfoldable pub history_init : History
history_init = record { job_array = λ i. none; history_putidx = 0 }

-- setParamsNewJobHistory, called on a block that `malloc` has just returned; `exit_status` and `id`
-- stay as they were. `now` is what `time` stores.
unfoldable pub set_params_new_job_history : JobHistory → (queue_idx ipaddr now : ℕ) → JobHistory
set_params_new_job_history raw queue_idx ipaddr now = record raw {
  queue_idx = queue_idx % 2 ^ 8;
  ipaddr = ipaddr;
  state = state_code wait;
  start_proc_time = 0;
  end_proc_time = 0;
  submit_time = now;
}

-- newJob's section: the new id, `history_putidx++` cut down to 16 bits, and the array with the
-- record in the id's slot.
unfoldable pub add_job_history : JobHistory → History → ℕ × History
add_job_history job_history h =
    let id = h.history_putidx % 2 ^ 16 in
    (
      id,
      record {
        job_array =
            update h.job_array (id % job_history_max) (some (record job_history { id = id }));
        history_putidx = (h.history_putidx + 1) % 2 ^ 32;
      },
    )

-- Whether newJob frees the block that the slot held. If not, nothing points to it any more.
abbrev pub frees_old : History → Bool
frees_old h = leb job_history_max (h.history_putidx % 2 ^ 16)

-- findJob's loop from index `i` on, with the rounds up to JOB_HISTORY_MAX left; `none` is -1.
unfoldable pub find_from : ℕ → (ℕ → Option JobHistory) → ℕ → ℕ → Option ℕ
find_from jobid job_array zero i = none
find_from jobid job_array (suc rounds) i =
    let rest = find_from jobid job_array rounds (i + 1) in
    elim (job_array i) [ none ↦ none | some job ↦ if job.id == jobid then some i else rest ]

unfoldable pub find_job : ℕ → History → Option ℕ
find_job jobid h = find_from jobid h.job_array job_history_max 0

-- The record at an index that findJob returned, if the index passes the callers' test.
unfoldable pub entry_at : History → Option ℕ → Option JobHistory
entry_at h none = none
entry_at h (some idx) = if ltb idx job_history_max then h.job_array idx else none

-- The record that the code reads, writes or changes for a job id.
unfoldable pub lookup_job : ℕ → History → Option JobHistory
unfolding entry_at
lookup_job jobid h = entry_at h (find_job jobid h)

-- The record at an index that findJob returned, where the caller tests only that it is not -1.
unfoldable pub unchecked_job : ℕ → History → Option JobHistory
unchecked_job jobid h = elim (find_job jobid h) [ none ↦ none | some idx ↦ h.job_array idx ]

-- Writes through the pointer at the index of a job.
unfoldable pub write_entry : Option ℕ → (JobHistory → JobHistory) → History → History
write_entry none f h = h
write_entry (some idx) f h = elim (h.job_array idx) [
  | none ↦ h
  | some job ↦ record h { job_array = update h.job_array idx (some (f job)) }
]

-- The cases of changeStateJob's switch that end a job; those and STATE_RUN are all that it knows.
abbrev pub is_end : ℕ → Bool
is_end state =
    state == state_code finished || state == state_code signaled || state == state_code error

abbrev pub is_known : ℕ → Bool
is_known state = is_end state || state == state_code run

-- What changeStateJob stores through the pointer: the state, the exit status and, by the switch, a
-- time.
unfoldable pub set_state : (state exit_value now : ℕ) → JobHistory → JobHistory
set_state state exit_value now job =
    if is_end state
    then record job { state = state; exit_status = exit_value; end_proc_time = now }
    else if state == state_code run
    then record job { state = state; exit_status = exit_value; start_proc_time = now }
    else record job { state = state; exit_status = exit_value }

-- changeStateJob, on the three values that it reads from the message; `none` where it runs into
-- `assert(0)`.
unfoldable pub change_state_job : (jobid state exit_value now : ℕ) → History → Option History
change_state_job jobid state exit_value now h = elim (lookup_job jobid h) [
  | none ↦ some h
  | some job ↦
      if is_known state
      then some (write_entry (find_job jobid h) (set_state state exit_value now) h)
      else none
]
