-- ===== src/Server/Threads/Runs.antt =====
-- Each section of each thread, and each run, keeps what Server/Threads/Safe.antt says.
use distributed_queue_system.Base.{
  ℕ, ◌+◌, ◌%◌, ◌^◌, ◌<◌, ◌≡◌, refl, some, arith, update, ap, sym, ◌∙◌, subst, Option-cases, inl,
  inr, ◌⊎◌, Bool-cases,
}
use distributed_queue_system.Job.{Job}
use distributed_queue_system.History.{
  JobHistory, History, find_job, lookup_job, unchecked_job, write_entry, change_state_job, is_known,
  set_state,
}
use distributed_queue_system.History.Change.{set_state-id, set_state-queue_idx}
use distributed_queue_system.Server.{
  MainServer, num_queue_max, next_put_queue_lem, next_get_queue_lem, put_section, take_section,
  remove_section,
}
use distributed_queue_system.Server.Unsubmit.{waiting_queue, mark, mark_section}
use distributed_queue_system.Server.Dispatch.{back_section}
use distributed_queue_system.Server.Threads.{
  Thread, idle, submitting, taking, returning, returned, removing, Section, submit, register_job,
  store, request, take, sent, unsent, put_back, settle, pick, remove, mark_job, report, Forgets,
}
use distributed_queue_system.Server.Threads.Owns.{owns}
use distributed_queue_system.Server.Threads.Moves.{
  put_section-Stored, take_section-Taken, remove_section-Unqueued,
}
use distributed_queue_system.Server.Threads.Safe.{IsSafe, IsSafe-IsSound}
use distributed_queue_system.Server.Threads.Local.{
  keep, write, put, take_out, free_own, own_fresh, add, unqueue,
}

-- The server after a write through a job's pointer in the history.
abbrev pub written : ℕ → (JobHistory → JobHistory) → MainServer → MainServer
written jobid f s = record s { history = write_entry (find_job jobid s.history) f s.history }

pub mark_section-written :
    (jobid : ℕ) (s s' : MainServer) → mark_section jobid s ≡ some s' → written jobid mark s ≡ s'
unfolding mark_section
mark_section-written jobid s s' e = elim (Option-cases (find_job jobid s.history)) [
  | inl n ↦ absurd (ground (arith, n))
  | inr (idx, i) ↦
      ap (λ k. record s { history = write_entry k mark s.history }) i ∙ ground (arith, i)
]

abbrev requeue : ℕ → JobHistory → JobHistory
requeue q entry = record entry { queue_idx = q % 2 ^ 8 }

pub back_section-written :
    (q p : ℕ) (s s' : MainServer)
    → back_section q p s ≡ some s'
    → ¬ Forgets (returned q p) s
    → (job : Job) × (written job.id (requeue q) s ≡ s')
unfolding back_section
back_section-written q p s s' e f = elim (Option-cases (s.heap p)) [
  | inl n ↦ absurd (ground (arith, n))
  | inr (job, h) ↦ elim (Option-cases (lookup_job job.id s.history)) [
    | inl n ↦ absurd (f (record { q = q; p = p; job = job; there = refl; read = h; forgotten = n }))
    | inr (entry, l) ↦ (job, ground (arith, h, l))
  ]
]

pub change_state_job-written :
    (jobid state exit_value now : ℕ) (h h' : History)
    → change_state_job jobid state exit_value now h ≡ some h'
    → (h ≡ h') ⊎ (write_entry (find_job jobid h) (set_state state exit_value now) h ≡ h')
unfolding change_state_job
change_state_job-written jobid state exit_value now h h' e =
    elim (Option-cases (lookup_job jobid h)) [
      | inl n ↦ inl (ground (arith, n))
      | inr (entry, l) ↦ elim (Bool-cases (is_known state)) [
        | inl k ↦ inr (ground (arith, l, k))
        | inr k ↦ absurd (ground (arith, l, k))
      ]
    ]

pub waiting_queue-Routed :
    (jobid q : ℕ) (s : MainServer)
    → ((i : ℕ) (entry : JobHistory)
        → s.history.job_array i ≡ some entry
        → entry.queue_idx < num_queue_max)
    → waiting_queue jobid s ≡ some q
    → q < num_queue_max
unfolding waiting_queue unchecked_job
waiting_queue-Routed jobid q s v e = elim (Option-cases (find_job jobid s.history)) [
  | inl n ↦ absurd (ground (arith, n))
  | inr (idx, i) ↦ elim (Option-cases (s.history.job_array idx)) [
    | inl n ↦ absurd (ground (arith, i, n))
    | inr (entry, h) ↦ ground (arith, i, h, v idx entry h)
  ]
]

-- A section of a thread that is not at the freeing end of putJobBack keeps the system safe.
pub Section-IsSafe :
    (n : ℕ) (rest : ℕ → ℕ) {t t' : Thread} {s s' : MainServer}
    → Section t s t' s'
    → ¬ Forgets t s
    → IsSafe (n + 1) rest t s
    → IsSafe n rest t' s'
unfolding owns
Section-IsSafe n rest {s = s} (submit p job f e) k v =
    subst
      (λ (x : ℕ × MainServer).
        IsSafe n rest (submitting x.0 p) (record x.1 { heap = update x.1.heap p (some job) }))
      (sym (next_put_queue_lem s) ∙ e)
      (own_fresh n rest v (omega arith) p job f (λ r. omega arith) ((s.queue2put + 1) % 2 ^ 32))
Section-IsSafe n rest (register_job {q} {p} e job h) k v =
    add n rest v v.routed (λ r. refl) e q p job v.routed
Section-IsSafe n rest {s = s} {s' = s'} (store {q = q} {p = p} e) k v =
    let (c, d) =
      put_section-Stored p s s' v.queue_valid (omega (arith, v.queue_room))
        (ap (λ j. put_section j p s) {y = q} (omega (arith, v.routed)) ∙ e) in
    rw c (put n rest v tt p (λ r. omega arith) d)
Section-IsSafe n rest {s = s} (request e) k v =
    subst (λ (x : ℕ × MainServer). IsSafe n rest (taking x.0) x.1) (sym (next_get_queue_lem s) ∙ e)
      (keep n rest v (omega arith) (λ r. refl) s.queue2put ((s.queue2get + 1) % 2 ^ 32))
Section-IsSafe n rest {s = s} {s' = s'} (take {q = q} {p = p} e) k v =
    let (i, c, d) =
      take_section-Taken p s s' v.queue_valid
        (ap (λ j. take_section j s) {y = q} (omega (arith, v.routed)) ∙ e) in
    rw (c, i) (take_out n rest v tt (λ r. omega arith) d)
Section-IsSafe n rest (sent {p = p}) k v = free_own n rest v tt p (λ r. omega arith)
Section-IsSafe n rest {s = s} (unsent {p = p} e) k v =
    subst (λ (x : ℕ × MainServer). IsSafe n rest (returning x.0 p) x.1)
      (sym (next_put_queue_lem s) ∙ e)
      (keep n rest v (omega arith) (λ r. refl) ((s.queue2put + 1) % 2 ^ 32) s.queue2get)
Section-IsSafe n rest {s = s} {s' = s'} (put_back {q = q} {p = p} e) k v =
    let (c, d) =
      put_section-Stored p s s' v.queue_valid (omega (arith, v.queue_room))
        (ap (λ j. put_section j p s) {y = q} (omega (arith, v.routed)) ∙ e) in
    rw c (put n rest v v.routed p (λ r. omega arith) d)
Section-IsSafe n rest {s = s} {s' = s'} (settle {q = q} {p = p} e) k v =
    let (job, c) = back_section-written q p s s' e k in
    subst (IsSafe n rest idle) c (
      write n rest v tt (λ r. refl) job.id (requeue q) (λ _. refl) (λ _ _. omega (arith, v.routed)))
Section-IsSafe n rest {s = s} (pick {q = q} jobid e) k v =
    keep n rest v (waiting_queue-Routed jobid q s v.queue_idx e) (λ r. refl) s.queue2put s.queue2get
Section-IsSafe n rest {s = s} {s' = s'} (remove {jobid = jobid} {q = q} e) k v =
    unqueue n rest v tt (λ r. refl) s'
      (remove_section-Unqueued jobid s s' v.queue_valid
        (IsSafe-IsSound (n + 1) rest (removing jobid q) s v).owned.live
        (ap (λ j. remove_section jobid j s) {y = q} (omega (arith, v.routed)) ∙ e))
Section-IsSafe n rest {s = s} {s' = s'} (mark_job {jobid = jobid} e) k v =
    subst (IsSafe n rest idle) (mark_section-written jobid s s' e)
      (write n rest v tt (λ r. refl) jobid mark (λ _. refl) (λ _ h. h))
Section-IsSafe n rest {s = s} (report {h = h} jobid state exit_value now e) k v =
    elim (change_state_job-written jobid state exit_value now s.history h e) [
      | inl c ↦
          subst (λ g. IsSafe n rest idle (record s { history = g })) c
            (keep n rest v tt (λ r. refl) s.queue2put s.queue2get)
      | inr c ↦
          subst (λ g. IsSafe n rest idle (record s { history = g })) c
            (write n rest v tt (λ r. refl) jobid (set_state state exit_value now)
              (set_state-id state exit_value now)
              (λ entry h. rw (set_state-queue_idx state exit_value now entry) h))
    ]
