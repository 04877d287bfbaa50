-- ===== src/Server/Threads/Local.antt =====
-- What each kind of section does to what holds for its thread.
use distributed_queue_system.Base.{
  ℕ, ◌+◌, ◌≤◌, ◌<◌, ◌≡◌, ◌≢◌, refl, List, Option, none, some, arith, update, ap, ◌∙◌, subst, ◌==◌,
  if◌then◌else◌,
}
use distributed_queue_system.Job.{Job, Heap, free}
use distributed_queue_system.Queue.{stored, oldest, advanced}
use distributed_queue_system.Queue.Steps.{Stored, Taken}
use distributed_queue_system.Server.Submit.{register}
use distributed_queue_system.History.{
  JobHistory, History, find_job, write_entry, set_params_new_job_history, add_job_history,
}
use distributed_queue_system.History.Find.{add_job_history-IsValid}
use distributed_queue_system.Server.{MainServer, num_queue_max, set_queue}
use distributed_queue_system.Server.Reply.{Env}
use distributed_queue_system.Server.Invariant.{queued, write_entry-IsSound}
use distributed_queue_system.Server.Threads.{Thread, register_section}
use distributed_queue_system.Server.Threads.Owns.{
  occurs, occurs-cons, occurs-snoc, occurs-middle, owns, Routed,
}
use distributed_queue_system.Server.Threads.Moves.{Removed, nothing, freed, dropped, Unqueued}
use distributed_queue_system.Server.Threads.Safe.{IsSafe, IsSafe-IsSound}

-- What removeJob leaves in the queue is still owned once, and live.
Removed-occurs :
    {heap heap' : Heap} {xs ys : List ℕ}
    → Removed heap xs heap' ys
    → (r k : ℕ) → occurs r xs + k ≤ 1
    → (1 ≤ occurs r xs + k → heap r ≢ none)
    → (occurs r ys + k ≤ 1) × (1 ≤ occurs r ys + k → heap' r ≢ none)
Removed-occurs (nothing h e) r k o l =
    (ground (arith, ap (occurs r) e), λ le. rw h (l (ground (arith, ap (occurs r) e))))
Removed-occurs (freed pre post p h e e') r k o l =
    let c = ap (occurs r) e ∙ occurs-middle r p pre post in
    let c' = ap (occurs r) e' in (omega (arith, c, c', o), λ le. ground (arith, h, c, c', o, l))
Removed-occurs {ys = ys} (dropped p h e) r k o l =
    let c = ap (occurs r) e ∙ occurs-snoc r p ys in
    (omega (arith, c, o), λ le. rw h (l (omega (arith, c, le))))

write_entry-history_putidx :
    (idx : Option ℕ) (f : JobHistory → JobHistory) (h : History)
    → (write_entry idx f h).history_putidx ≡ h.history_putidx
unfolding write_entry
write_entry-history_putidx none f h = refl
write_entry-history_putidx (some idx) f h = ground arith

module _ (n : ℕ) (rest : ℕ → ℕ) {t t' : Thread} {s : MainServer} (v : IsSafe (n + 1) rest t s)
    (u : Routed t') where
  -- A section that changes neither the queue, nor the history, nor what the thread owns.
  pub keep :
      ((r : ℕ) → owns r t' ≡ owns r t)
      → (k l : ℕ) → IsSafe n rest t' (record s { queue2put = k; queue2get = l })
  keep e k l = record {
    queue_valid = v.queue_valid;
    history_valid = v.history_valid;
    queue_idx = v.queue_idx;
    queue_room = omega (arith, v.queue_room);
    history_room = omega (arith, v.history_room);
    routed = u;
    once = λ r. omega (arith, v.once r, e r);
    live = λ r le. v.live r (omega (arith, le, e r));
  }

  -- One that writes through a job's pointer in the history.
  pub write :
      ((r : ℕ) → owns r t' ≡ owns r t)
      → (jobid : ℕ) (f : JobHistory → JobHistory) → ((entry : JobHistory) → (f entry).id ≡ entry.id)
      → ((entry : JobHistory)
          → entry.queue_idx < num_queue_max
          → (f entry).queue_idx < num_queue_max)
      → IsSafe n rest t' (record s { history = write_entry (find_job jobid s.history) f s.history })
  write e jobid f same queue =
      let w = write_entry-IsSound jobid f s same queue (IsSafe-IsSound (n + 1) rest t s v) in
      record {
        queue_valid = v.queue_valid;
        history_valid = w.history_valid;
        queue_idx = w.queue_idx;
        queue_room = omega (arith, v.queue_room);
        history_room = omega (
          arith,
          v.history_room,
          write_entry-history_putidx (find_job jobid s.history) f s.history,
        );
        routed = u;
        once = λ r. omega (arith, v.once r, e r);
        live = λ r le. v.live r (omega (arith, le, e r));
      }

  -- putJob, by a thread that owns the pointer.
  pub put :
      (p : ℕ)
      → ((r : ℕ) → owns r t ≡ owns r t' + (if p == r then 1 else 0))
      → Stored (s.queue 0) p
      → IsSafe n rest t' (set_queue s 0 (stored (s.queue 0) p))
  put p e d = record {
    queue_valid = d.valid;
    history_valid = v.history_valid;
    queue_idx = v.queue_idx;
    queue_room = omega (arith, v.queue_room, v.queue_valid.no_wrap);
    history_room = omega (arith, v.history_room);
    routed = u;
    once = λ r. rw d.behind (omega (arith, v.once r, e r, occurs-snoc r p (queued s)));
    live = λ r le. v.live r (
        omega (
          arith,
          subst (λ xs. 1 ≤ occurs r xs + (owns r t' + rest r)) d.behind le,
          e r,
          occurs-snoc r p (queued s),
        ));
  }

  -- The taking section of sendJob.
  pub take_out :
      ((r : ℕ) → owns r t' ≡ owns r t + (if oldest (s.queue 0) == r then 1 else 0))
      → Taken (s.queue 0)
      → IsSafe n rest t' (set_queue s 0 (advanced (s.queue 0)))
  take_out e d = record {
    queue_valid = d.valid;
    history_valid = v.history_valid;
    queue_idx = v.queue_idx;
    queue_room = omega (arith, v.queue_room);
    history_room = omega (arith, v.history_room);
    routed = u;
    once = λ r. omega (arith, v.once r, e r, before r);
    live = λ r le. v.live r (omega (arith, le, e r, before r));
  }
    where
      before :
          (r : ℕ)
          → occurs r (queued s)
            ≡ (if oldest (s.queue 0) == r then 1 else 0)
              + occurs r (queued (set_queue s 0 (advanced (s.queue 0))))
      before r =
          ap (occurs r) d.front
          ∙ occurs-cons r (oldest (s.queue 0)) (queued (set_queue s 0 (advanced (s.queue 0))))

  -- free, by the thread that owns the pointer.
  pub free_own :
      (p : ℕ)
      → ((r : ℕ) → owns r t ≡ owns r t' + (if p == r then 1 else 0))
      → IsSafe n rest t' (record s { heap = free s.heap p })
  free_own p e = record {
    queue_valid = v.queue_valid;
    history_valid = v.history_valid;
    queue_idx = v.queue_idx;
    queue_room = omega (arith, v.queue_room);
    history_room = omega (arith, v.history_room);
    routed = u;
    once = λ r. omega (arith, v.once r, e r);
    live = λ r le. ground (arith, v.live r, v.once r, e r);
  }

  -- A block that malloc returns.
  pub own_fresh :
      (p : ℕ) (job : Job)
      → s.heap p ≡ none
      → ((r : ℕ) → owns r t' ≡ owns r t + (if p == r then 1 else 0))
      → (k : ℕ) → IsSafe n rest t' (record s { queue2put = k; heap = update s.heap p (some job) })
  own_fresh p job f e k = record {
    queue_valid = v.queue_valid;
    history_valid = v.history_valid;
    queue_idx = v.queue_idx;
    queue_room = omega (arith, v.queue_room);
    history_room = omega (arith, v.history_room);
    routed = u;
    once = λ r. ground (arith, v.live r, v.once r, e r);
    live = λ r le. ground (arith, v.live r, e r);
  }

  -- newJob's section on the history.
  pub add :
      ((r : ℕ) → owns r t' ≡ owns r t)
      → (e : Env) (q p : ℕ) (job : Job) → q < num_queue_max
      → IsSafe n rest t' (register_section e q p job s)
  unfolding register_section register add_job_history set_params_new_job_history
  add o e q p job lt = record {
    queue_valid = v.queue_valid;
    history_valid =
        add_job_history-IsValid (set_params_new_job_history e.history_block q job.ipaddr e.now)
          s.history v.history_valid (omega (arith, v.history_room));
    queue_idx = λ i entry h. ground (arith, v.queue_idx i entry);
    queue_room = omega (arith, v.queue_room);
    history_room = omega (arith, v.history_room);
    routed = u;
    once = λ r. omega (arith, v.once r, o r);
    live = λ r le. ground (arith, v.live r, o r);
  }

  -- removeJob.
  pub unqueue :
      ((r : ℕ) → owns r t' ≡ owns r t) → (s' : MainServer) → Unqueued s s' → IsSafe n rest t' s'
  unqueue e s' d = record {
    queue_valid = d.valid;
    history_valid = rw d.history_same v.history_valid;
    queue_idx = rw d.history_same v.queue_idx;
    queue_room = omega (arith, v.queue_room, d.fewer);
    history_room = rw d.history_same (omega (arith, v.history_room));
    routed = u;
    once = λ r. (left r).0;
    live = λ r. (left r).1;
  }
    where
      left :
          (r : ℕ)
          → (occurs r (queued s') + (owns r t' + rest r) ≤ 1)
            × (1 ≤ occurs r (queued s') + (owns r t' + rest r) → s'.heap r ≢ none)
      left r =
          Removed-occurs d.moved r (owns r t' + rest r) (omega (arith, v.once r, e r))
            (λ le. v.live r (omega (arith, le, e r)))
