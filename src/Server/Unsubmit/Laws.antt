-- ===== src/Server/Unsubmit/Laws.antt =====
-- What unsubmit does to the queue and the history, on each of its branches.
use mathlib.Core.Option
use distributed_queue_system.Base.{
  ℕ, ◌%◌, ◌≤◌, ◌<◌, ◌≡◌, ◌≢◌, refl, true, List, [], ◌∷◌, ◌++◌, some, arith, ap, sym, ◌∙◌, subst,
  All, Option-cases, inl, inr, ◌==◌, if◌then◌else◌,
}
use distributed_queue_system.Job.{Job, Heap, free}
use distributed_queue_system.Queue.{Queue, max_jobs_queue, count, remove_job}
use distributed_queue_system.Queue.Invariant
use distributed_queue_system.Queue.Refine.{contents}
use distributed_queue_system.Queue.Remove.{
  remove_job-IsValid, newest, remove_job_wrapped, remove_job_missing, remove_job_overrun,
  remove_job_hit,
}
use distributed_queue_system.Queue.Remove.Loops.{Other}
use distributed_queue_system.History.{
  JobHistory, job_history_max, find_job, lookup_job, unchecked_job, write_entry,
}
use distributed_queue_system.History.Find.{lookup_job-direct, unchecked_job-direct}
use distributed_queue_system.History.Change.{write_entry_cases, lookup_job-write_entry}
use distributed_queue_system.Proto.{state_code, wait}
use distributed_queue_system.Proto.Setters.{set_bad_params, set_unsubmit}
use distributed_queue_system.Server.{MainServer, set_queue}
use distributed_queue_system.Server.Reply.{done, fault, Env}
use distributed_queue_system.Server.Owned.{Owned, Owned-free, Owned-init}
use distributed_queue_system.Server.Invariant.{IsSound, queued, write_entry-IsSound}
use distributed_queue_system.Server.Unsubmit.{waiting_queue, mark, mark_section, unsubmit}

-- The history holds the job as waiting.
pub record IsWaiting (jobid : ℕ) (s : MainServer) : Type 0 where
  pub entry : JobHistory
  pub held : lookup_job jobid s.history ≡ some entry
  pub waits : entry.state ≡ state_code wait

unchecked_job-lookup_job :
    (jobid : ℕ) (s : MainServer)
    → IsSound s
    → unchecked_job jobid s.history ≡ lookup_job jobid s.history
unchecked_job-lookup_job jobid s v =
    unchecked_job-direct jobid s.history v.history_valid
    ∙ sym (lookup_job-direct jobid s.history v.history_valid)

-- On a sound server, a job that the history does not hold as waiting is refused, and nothing
-- changes.
pub unsubmit_refused :
    (e : Env) (jobid : ℕ) (s : MainServer)
    → IsSound s
    → ¬ IsWaiting jobid s
    → unsubmit e jobid s ≡ done (set_bad_params e.pkg ∷ []) true s
unfolding unsubmit waiting_queue
unsubmit_refused e jobid s v n = elim (Option-cases (lookup_job jobid s.history)) [
  | inl l ↦ ground (arith, unchecked_job-lookup_job jobid s v, l)
  | inr (entry, l) ↦ ground (
    arith,
    unchecked_job-lookup_job jobid s v,
    l,
    λ (w : entry.state ≡ 0). n (record { entry = entry; held = l; waits = w }),
  )
]

-- The server after the last section.
abbrev pub marked : ℕ → MainServer → MainServer
marked jobid s = record s { history = write_entry (find_job jobid s.history) mark s.history }

module _ (e : Env) (jobid : ℕ) (s : MainServer) (v : IsSound s) (w : IsWaiting jobid s) where
  entry-queue_idx : w.entry.queue_idx ≡ 0
  entry-queue_idx = elim (write_entry_cases jobid mark s.history v.history_valid) [
    | inl (n, _) ↦ ground (arith, n, w.held)
    | inr (job, l, _, a, _) ↦
        ground (arith, l, w.held, a, v.queue_idx (jobid % job_history_max) job)
  ]

  waiting_queue_zero : waiting_queue jobid s ≡ some 0
  unfolding waiting_queue
  waiting_queue_zero =
      ground (arith, unchecked_job-lookup_job jobid s v, w.held, w.waits, entry-queue_idx)

  mark_section-marked :
      (t : MainServer) → t.history ≡ s.history → mark_section jobid t ≡ some (marked jobid t)
  unfolding mark_section lookup_job
  mark_section-marked t e = ground (arith, w.held, e, ap (find_job jobid) e)

  -- It goes on to removeJob on queue 0, and marks the job if that returns.
  unsubmit_goes_on :
      (heap : Heap) (q : Queue)
      → remove_job jobid s.heap (s.queue 0) ≡ some (heap, q)
      → unsubmit e jobid s
        ≡ done
            (set_unsubmit e.pkg jobid ∷ [])
            true
            (marked jobid (record (set_queue s 0 q) { heap = heap }))
  unfolding unsubmit
  unsubmit_goes_on heap q r =
      rw (unsubmit, waiting_queue_zero)
        (ground (arith, r, mark_section-marked (record (set_queue s 0 q) { heap = heap })))

  -- What is the same on each branch that returns: the job is marked, no other record changes, and
  -- the well-formedness of the two parts.
  marked-IsSound :
      (heap : Heap) (q : Queue)
      → Invariant.IsValid q
      → Owned heap (contents q)
      → IsSound (marked jobid (record (set_queue s 0 q) { heap = heap }))
  marked-IsSound heap q vq o =
      write_entry-IsSound jobid mark (record (set_queue s 0 q) { heap = heap }) (λ _. refl)
        (λ _ h. h)
        (record {
          queue_valid = vq;
          history_valid = v.history_valid;
          owned = o;
          queue_idx = v.queue_idx;
        })

  -- Where unsubmit leaves the server, apart from the queue: sound, with the job marked, and what it
  -- finds for other jobs unchanged.
  pub record Unsubmitted (s' : MainServer) : Type 0 where
    pub returns : unsubmit e jobid s ≡ done (set_unsubmit e.pkg jobid ∷ []) true s'
    pub sound : IsSound s'
    pub lookups :
        (j : ℕ)
        → lookup_job j s'.history ≡ (
            if j == jobid
            then Option.map mark (lookup_job jobid s.history)
            else lookup_job j s.history)

  unsubmitted :
      (heap : Heap) (q : Queue)
      → remove_job jobid s.heap (s.queue 0) ≡ some (heap, q)
      → Owned heap (contents q)
      → Unsubmitted (marked jobid (record (set_queue s 0 q) { heap = heap }))
  unsubmitted heap q r o = record {
    returns = unsubmit_goes_on heap q r;
    sound = marked-IsSound heap q (remove_job-IsValid jobid s.heap v.queue_valid r) o;
    lookups = lookup_job-write_entry jobid mark (λ _. refl) s.history v.history_valid;
  }

  -- On a sound server, if the live part of the array does not go round its end, a waiting job
  -- that is queued is taken out and freed, the others keep their order, it alone is marked as
  -- unsubmitted, and the client is told so.
  pub unsubmit_removes :
      (pre post : List ℕ) (p : ℕ) (job : Job)
      → (s.queue 0).get_idx % max_jobs_queue < (s.queue 0).put_idx % max_jobs_queue
      → queued s ≡ pre ++ p ∷ post
      → All (Other jobid s.heap) pre
      → s.heap p ≡ some job
      → job.id ≡ jobid
      → (s' : MainServer) × Unsubmitted s' × (queued s' ≡ pre ++ post) × (s'.heap ≡ free s.heap p)
  unsubmit_removes pre post p job lt c a l i =
      let (q, r, c') =
        remove_job_hit jobid s.heap (s.queue 0) pre post p job v.queue_valid lt c a l i in
      (
        marked jobid (record (set_queue s 0 q) { heap = free s.heap p }),
        unsubmitted (free s.heap p) q r (
            subst (Owned (free s.heap p)) (sym c')
              (Owned-free s.heap pre post p (subst (Owned s.heap) c v.owned))),
        c',
        refl,
      )

  -- What unsubmit does when the first loop of removeJob finds nothing: it answers that the job is
  -- unsubmitted, and drops the job that was queued last.
  abbrev pub DropsNewest : Type 0
  DropsNewest =
      (s' : MainServer) × Unsubmitted s'
      × (queued s ≡ queued s' ++ newest (s.queue 0) ∷ [])
      × (s'.heap ≡ s.heap)

  drops_newest :
      ((q : Queue) × (remove_job jobid s.heap (s.queue 0) ≡ some (s.heap, q))
        × (contents (s.queue 0) ≡ contents q ++ newest (s.queue 0) ∷ []))
      → DropsNewest
  drops_newest (q, r, c) = (
    marked jobid (record (set_queue s 0 q) { heap = s.heap }),
    unsubmitted s.heap q r
        (Owned-init s.heap (contents q) (newest (s.queue 0)) (subst (Owned s.heap) c v.owned)),
    c,
    refl,
  )

  -- On a sound server whose queue's live part is not empty and does not go round the array's
  -- end, unsubmitting a waiting job that no queued pointer leads to, such as one that a thread
  -- of sendJob holds, marks it and drops the job that was queued last.
  pub unsubmit_drops_other :
      (s.queue 0).get_idx % max_jobs_queue < (s.queue 0).put_idx % max_jobs_queue
      → All (Other jobid s.heap) (queued s)
      → DropsNewest
  unsubmit_drops_other lt a =
      drops_newest (remove_job_missing jobid s.heap (s.queue 0) v.queue_valid lt a)

  -- On a sound server with jobs in the queue, while their part of the array goes round its end
  -- and does not end at slot 0, unsubmitting any waiting job marks it and drops the job that
  -- was queued last.
  pub unsubmit_drops_wrapped :
      count (s.queue 0) ≢ 0
      → (s.queue 0).put_idx % max_jobs_queue ≢ 0
      → (s.queue 0).put_idx % max_jobs_queue ≤ (s.queue 0).get_idx % max_jobs_queue
      → DropsNewest
  unsubmit_drops_wrapped n z le =
      drops_newest (remove_job_wrapped jobid s.heap (s.queue 0) v.queue_valid n z le)

  -- On a sound server with jobs in the queue, whose part of the array ends at slot 0,
  -- unsubmitting any waiting job runs past the array.
  pub unsubmit_faults :
      count (s.queue 0) ≢ 0 → (s.queue 0).put_idx % max_jobs_queue ≡ 0 → unsubmit e jobid s ≡ fault
  unfolding unsubmit
  unsubmit_faults n z =
      rw (unsubmit, waiting_queue_zero)
        (ground (arith, remove_job_overrun jobid s.heap (s.queue 0) v.queue_valid n z))
