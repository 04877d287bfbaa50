-- ===== src/Server/Invariant.antt =====
-- What holds of `MainServer_t` between calls, until the counters go round.
use distributed_queue_system.Base.{
  ℕ, ◌+◌, ◌%◌, ◌^◌, ◌<◌, ◌≡◌, List, some, arith, ap, sym, ◌∙◌, inl, inr,
}
use distributed_queue_system.Job.{Heap}
use distributed_queue_system.Queue.{unsigned_mod}
use distributed_queue_system.Queue.Invariant
use distributed_queue_system.Queue.Refine.{contents}
use distributed_queue_system.History.{JobHistory, History, job_history_max, find_job, write_entry}
use distributed_queue_system.History.Change.{write_entry-IsValid, write_entry_cases}
use distributed_queue_system.History.Find
use distributed_queue_system.Server.{MainServer, main_server_init, num_queue_max}
use distributed_queue_system.Server.Owned.{Owned}

-- The pointers in the server's queue, oldest first.
abbrev pub queued : MainServer → List ℕ
queued s = contents (s.queue 0)

pub record IsSound (s : MainServer) : Type 0 where
  pub queue_valid : Invariant.IsValid (s.queue 0)
  pub history_valid : Find.IsValid s.history
  pub owned : Owned s.heap (queued s)
  pub queue_idx :
      (i : ℕ) (entry : JobHistory)
      → s.history.job_array i ≡ some entry
      → entry.queue_idx < num_queue_max

-- Neither the queue's `put_idx` nor `history_putidx` is at its last value.
pub record HasRoom (s : MainServer) : Type 0 where
  pub queue_room : (s.queue 0).put_idx + 1 < unsigned_mod
  pub history_room : s.history.history_putidx + 1 < 2 ^ 32

pub main_server_init-IsSound : (raw : ℕ → ℕ) (heap : Heap) → IsSound (main_server_init raw heap)
unfolding main_server_init
main_server_init-IsSound raw heap = record {
  queue_valid = Invariant.queue_init-IsValid raw 0;
  history_valid = Find.history_init-IsValid;
  owned = record { live = tt; distinct = tt };
  queue_idx = λ i entry e. cc;
}

-- A write through a job's pointer that keeps the id and the queue keeps the history's part sound.
pub write_entry-IsSound :
    (jobid : ℕ) (f : JobHistory → JobHistory) (s : MainServer)
    → ((entry : JobHistory) → (f entry).id ≡ entry.id)
    → ((entry : JobHistory) → entry.queue_idx < num_queue_max → (f entry).queue_idx < num_queue_max)
    → IsSound s
    → IsSound (record s { history = write_entry (find_job jobid s.history) f s.history })
write_entry-IsSound jobid f s same queue v = record {
  queue_valid = v.queue_valid;
  history_valid = write_entry-IsValid jobid f same s.history v.history_valid;
  owned = v.owned;
  queue_idx = λ i entry h. elim (write_entry_cases jobid f s.history v.history_valid) [
    | inl (_, k) ↦ v.queue_idx i entry (ap (λ (g : History). g.job_array i) (sym k) ∙ h)
    | inr (job, _, _, a, k) ↦ ground (
      arith,
      ap (λ (g : History). g.job_array i) k,
      v.queue_idx i entry,
      queue job (v.queue_idx (jobid % job_history_max) job a),
    )
  ];
}
