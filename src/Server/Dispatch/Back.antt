-- ===== src/Server/Dispatch/Back.antt =====
-- What putJobBack does with a job that the history holds, and with one that it does not.
use distributed_queue_system.Base.{
  ℕ, ◌+◌, ◌%◌, ◌^◌, ◌<◌, ◌≡◌, ◌≢◌, refl, false, List, [], ◌∷◌, ◌++◌, none, some, arith, ap, ◌∙◌,
}
use distributed_queue_system.Job.{Job, free}
use distributed_queue_system.Queue.{max_jobs_queue, unsigned_mod, count, stored}
use distributed_queue_system.Queue.Invariant
use distributed_queue_system.Queue.Steps.{Stored, put_job-Stored}
use distributed_queue_system.History.{JobHistory, find_job, lookup_job, write_entry}
use distributed_queue_system.History.Find
use distributed_queue_system.Proto.Memory.{Msg}
use distributed_queue_system.Server.{MainServer, num_queue_max, set_queue, next_put_queue_lem}
use distributed_queue_system.Server.Reply.{done, fault}
use distributed_queue_system.Server.Owned.{Owned, Owned-rotate}
use distributed_queue_system.Server.Invariant.{IsSound, queued, write_entry-IsSound}
use distributed_queue_system.Server.Dispatch.{back_section, put_job_back_in, put_job_back}

-- The server while a thread of sendJob holds the pointer `p`.
pub record Holds (p : ℕ) (s : MainServer) : Type 0 where
  pub queue_valid : Invariant.IsValid (s.queue 0)
  pub history_valid : Find.IsValid s.history
  pub owned : Owned s.heap (p ∷ queued s)
  pub queue_idx :
      (i : ℕ) (entry : JobHistory)
      → s.history.job_array i ≡ some entry
      → entry.queue_idx < num_queue_max
  pub space : count (s.queue 0) ≢ max_jobs_queue

-- What putJobBack writes in the record of a job.
abbrev pub requeued : JobHistory → JobHistory
requeued entry = record entry { queue_idx = 0 }

-- The server when putJobBack has put the job, before its last section.
abbrev pub put_back : ℕ → MainServer → MainServer
put_back p s =
    set_queue (record s { queue2put = (s.queue2put + 1) % 2 ^ 32 }) 0 (stored (s.queue 0) p)

module _ (out : List Msg) (p : ℕ) (s : MainServer) (v : Holds p s)
    (room : (s.queue 0).put_idx + 1 < unsigned_mod) where
  put_back-Stored : Stored (s.queue 0) p
  put_back-Stored = put_job-Stored (s.queue 0) p v.queue_valid v.space room

  put_job_back-section :
      put_job_back out p s
      ≡ (elim (back_section 0 p (put_back p s)) [ none ↦ fault | some s' ↦ done out false s' ])
  unfolding put_job_back
  put_job_back-section =
      ap (put_job_back_in out p) (next_put_queue_lem s) ∙ ground (arith, put_back-Stored.returns)

  put_back-queued : queued (put_back p s) ≡ queued s ++ p ∷ []
  put_back-queued = put_back-Stored.behind

  -- A job that the history still holds goes to the end of the queue.
  pub put_job_back_held :
      (job : Job) (entry : JobHistory)
      → s.heap p ≡ some job
      → lookup_job job.id s.history ≡ some entry
      → (s' : MainServer) × (put_job_back out p s ≡ done out false s')
        × IsSound s'
        × (queued s' ≡ queued s ++ p ∷ [])
        × (s'.heap ≡ s.heap)
        × (s'.history ≡ write_entry (find_job job.id s.history) requeued s.history)
        × ((s'.queue 0).put_idx ≡ (s.queue 0).put_idx + 1)
  unfolding back_section
  put_job_back_held job entry h l = (
    record (put_back p s) { history = write_entry (find_job job.id s.history) requeued s.history },
    put_job_back-section ∙ ground (arith, h, l),
    write_entry-IsSound job.id requeued (put_back p s) (λ _. refl) (λ _ _. omega arith)
        (record {
          queue_valid = put_back-Stored.valid;
          history_valid = v.history_valid;
          owned = rw put_back-queued (Owned-rotate s.heap (queued s) p v.owned);
          queue_idx = v.queue_idx;
        }),
    put_back-queued,
    refl,
    refl,
    omega (arith, room),
  )

  -- A job that the history no longer holds is freed, and its pointer stays in the queue.
  pub put_job_back_dangling :
      (job : Job)
      → s.heap p ≡ some job
      → lookup_job job.id s.history ≡ none
      → (s' : MainServer) × (put_job_back out p s ≡ done out false s')
        × (queued s' ≡ queued s ++ p ∷ [])
        × (s'.heap p ≡ none)
  unfolding back_section
  put_job_back_dangling job h l = (
    record (put_back p s) { heap = free s.heap p },
    put_job_back-section ∙ ground (arith, h, l),
    put_back-queued,
    ground arith,
  )
