-- ===== src/Server/Submit/Laws.antt =====
-- What newJob does to the queue and the history, and what it answers.
use distributed_queue_system.Base.{
  ℕ, ◌+◌, ◌%◌, ◌^◌, ◌<◌, ◌≡◌, ◌≢◌, true, [], ◌∷◌, ◌++◌, none, some, arith, update, ap, ◌∙◌,
}
use distributed_queue_system.Job.{Job}
use distributed_queue_system.Queue.{max_jobs_queue, count, stored}
use distributed_queue_system.Queue.Steps.{put_job-Stored, put_job_full}
use distributed_queue_system.History.{
  JobHistory, set_params_new_job_history, add_job_history, lookup_job,
}
use distributed_queue_system.History.Find.{direct_job, lookup_job-direct, add_job_history-IsValid}
use distributed_queue_system.Proto.{state_code, wait}
use distributed_queue_system.Proto.Setters.{set_job_id}
use distributed_queue_system.Server.{
  MainServer, set_queue, next_put_queue_lem, num_queue_max, put_section,
}
use distributed_queue_system.Server.Reply.{done, waits, Env}
use distributed_queue_system.Server.Owned.{Owned-snoc_fresh}
use distributed_queue_system.Server.Invariant.{IsSound, HasRoom, queued}
use distributed_queue_system.Server.Submit.{new_job, new_job_in}

-- The id that newJob gives out.
abbrev pub new_id : MainServer → ℕ
new_id s = s.history.history_putidx % 2 ^ 16

-- The record that it adds.
abbrev pub new_entry : Env → Job → MainServer → JobHistory
new_entry e job s = record e.history_block {
  id = new_id s;
  ipaddr = job.ipaddr;
  state = state_code wait;
  queue_idx = 0;
  submit_time = e.now;
  start_proc_time = 0;
  end_proc_time = 0;
}

-- The server when newJob calls putJob.
abbrev pub registered : Env → Job → MainServer → MainServer
registered e job s = record s {
  history = (add_job_history (new_entry e job s) s.history).1;
  queue2put = (s.queue2put + 1) % 2 ^ 32;
  heap = update s.heap e.addr (some (record job { id = new_id s }));
}

new_job-registered :
    (e : Env) (job : Job) (s : MainServer)
    → new_job e job s ≡ (elim (put_section 0 e.addr (registered e job s)) [
      | none ↦ waits (set_job_id e.pkg (new_id s) ∷ []) (registered e job s)
      | some s' ↦ done (set_job_id e.pkg (new_id s) ∷ []) true s'
    ])
unfolding new_job add_job_history set_params_new_job_history
new_job-registered e job s = ap (new_job_in e job) (next_put_queue_lem s)

-- What newJob leaves when it returns: the job, with its id, behind those already queued, and its
-- record; all other jobs as they were.
pub record Submitted (e : Env) (job : Job) (s s' : MainServer) : Type 0 where
  pub sound : IsSound s'
  pub behind : queued s' ≡ queued s ++ e.addr ∷ []
  pub stored_job : s'.heap e.addr ≡ some (record job { id = new_id s })
  pub others : (p : ℕ) → p ≢ e.addr → s'.heap p ≡ s.heap p
  pub entry : lookup_job (new_id s) s'.history ≡ some (new_entry e job s)
  pub puts : (s'.queue 0).put_idx ≡ (s.queue 0).put_idx + 1

module _ (e : Env) (job : Job) (s : MainServer) where
  pub registered-queue_idx :
      IsSound s
      → (i : ℕ) (entry : JobHistory) → (registered e job s).history.job_array i ≡ some entry
      → entry.queue_idx < num_queue_max
  unfolding add_job_history
  registered-queue_idx v i entry h = ground (arith, v.queue_idx i entry)

  registered-entry :
      IsSound s
      → s.history.history_putidx + 1 < 2 ^ 32
      → lookup_job (new_id s) (registered e job s).history ≡ some (new_entry e job s)
  unfolding direct_job add_job_history
  registered-entry v room =
      lookup_job-direct (new_id s) (registered e job s).history
        (add_job_history-IsValid (new_entry e job s) s.history v.history_valid room)
      ∙ ground arith

  -- On a sound server with room in the queue, with both counters below their limits and a fresh
  -- block for the job, newJob answers with the new id, stores the job with that id behind the
  -- jobs already queued, and records it as waiting; the server stays sound.
  pub new_job_stores :
      IsSound s
      → HasRoom s
      → s.heap e.addr ≡ none
      → count (s.queue 0) ≢ max_jobs_queue
      → (s' : MainServer) × (new_job e job s ≡ done (set_job_id e.pkg (new_id s) ∷ []) true s')
        × Submitted e job s s'
  unfolding put_section
  new_job_stores v room fresh n =
      let st = put_job-Stored (s.queue 0) e.addr v.queue_valid n room.queue_room in
      (
        set_queue (registered e job s) 0 (stored (s.queue 0) e.addr),
        new_job-registered e job s ∙ ground (arith, st.returns),
        record {
          sound = record {
            queue_valid = st.valid;
            history_valid =
                add_job_history-IsValid (new_entry e job s) s.history v.history_valid
                  room.history_room;
            owned = rw st.behind (
                Owned-snoc_fresh s.heap (queued s) e.addr (record job { id = new_id s }) fresh
                  v.owned);
            queue_idx = registered-queue_idx v;
          };
          behind = st.behind;
          stored_job = ground arith;
          others = λ p n. ground arith;
          entry = registered-entry v room.history_room;
          puts = omega (arith, room.queue_room);
        },
      )

  -- With a full queue newJob has answered and recorded the job by the time it waits, and has
  -- not touched the queue.
  pub new_job_waits :
      count (s.queue 0) ≡ max_jobs_queue
      → new_job e job s ≡ waits (set_job_id e.pkg (new_id s) ∷ []) (registered e job s)
  unfolding put_section
  new_job_waits h = new_job-registered e job s ∙ ground (arith, put_job_full (s.queue 0) e.addr h)
