-- ===== src/Server/Threads/Moves.antt =====
-- How the sections of putJob, sendJob and removeJob move pointers, when they do not wait or fault.
use distributed_queue_system.Base.{
  ℕ, ◌+◌, ◌%◌, ◌≤◌, ◌<◌, ◌≡◌, refl, List, [], ◌∷◌, ◌++◌, some, arith, ap, subst, All, Option-cases,
  inl, inr, ◌⊎◌, lt-or-le, eq-or-ne,
}
use distributed_queue_system.Job.{Job, Heap, free}
use distributed_queue_system.Queue.{
  Queue, max_jobs_queue, unsigned_mod, count, stored, oldest, advanced, remove_job, drop_slot,
}
use distributed_queue_system.Queue.Invariant
use distributed_queue_system.Queue.Refine.{contents}
use distributed_queue_system.Queue.Steps.{
  Stored, put_job-Stored, put_job_full, Taken, take_job-Taken, take_job_empty,
}
use distributed_queue_system.Queue.Remove.{
  remove_job-IsValid, newest, remove_job_wrapped, remove_job_missing, remove_job_overrun,
  remove_job_hit,
}
use distributed_queue_system.Queue.Remove.Loops.{Other}
use distributed_queue_system.Server.{
  MainServer, set_queue, put_section, take_section, remove_section,
}
use distributed_queue_system.Server.Owned.{Live}
use distributed_queue_system.Server.Invariant.{queued}

pub put_section-Stored :
    (p : ℕ) (s s' : MainServer)
    → Invariant.IsValid (s.queue 0)
    → (s.queue 0).put_idx + 1 < unsigned_mod
    → put_section 0 p s ≡ some s'
    → (s' ≡ set_queue s 0 (stored (s.queue 0) p)) × Stored (s.queue 0) p
unfolding put_section
put_section-Stored p s s' v room e = elim (eq-or-ne (count (s.queue 0)) max_jobs_queue) [
  | inl f ↦ ground (arith, put_job_full (s.queue 0) p f)
  | inr n ↦ let t = put_job-Stored (s.queue 0) p v n room in (ground (arith, t.returns), t)
]

pub take_section-Taken :
    (p : ℕ) (s s' : MainServer)
    → Invariant.IsValid (s.queue 0)
    → take_section 0 s ≡ some (p, s')
    → (p ≡ oldest (s.queue 0)) × (s' ≡ set_queue s 0 (advanced (s.queue 0))) × Taken (s.queue 0)
unfolding take_section
take_section-Taken p s s' v e = elim (eq-or-ne (count (s.queue 0)) 0) [
  | inl z ↦ ground (arith, take_job_empty (s.queue 0) z)
  | inr n ↦
      let t = take_job-Taken (s.queue 0) v n in
      (ground (arith, t.returns), ground (arith, t.returns), t)
]

-- Which pointer removeJob takes out.
pub data Removed (heap : Heap) (xs : List ℕ) (heap' : Heap) (ys : List ℕ) : Type 0 where
  nothing : heap' ≡ heap → xs ≡ ys → Removed heap xs heap' ys
  freed :
      (pre post : List ℕ) (p : ℕ)
      → heap' ≡ free heap p
      → xs ≡ pre ++ p ∷ post
      → ys ≡ pre ++ post
      → Removed heap xs heap' ys
  dropped : (p : ℕ) → heap' ≡ heap → xs ≡ ys ++ p ∷ [] → Removed heap xs heap' ys

-- The first pointer that leads to a job with the id, if there is one.
first_with :
    (jobid : ℕ) (heap : Heap) (xs : List ℕ)
    → All (Live heap) xs
    → All (Other jobid heap) xs
      ⊎ ((pre post : List ℕ) × (p : ℕ) × (job : Job) × (xs ≡ pre ++ p ∷ post)
          × All (Other jobid heap) pre
          × (heap p ≡ some job)
          × (job.id ≡ jobid))
first_with jobid heap [] l = inl tt
first_with jobid heap (x ∷ xs) l = elim (Option-cases (heap x)) [
  | inl e ↦ absurd (l.0 e)
  | inr (job, e) ↦ elim (eq-or-ne job.id jobid) [
    | inl i ↦ inr ([], xs, x, job, refl, tt, e, i)
    | inr n ↦ elim (first_with jobid heap xs l.1) [
      | inl a ↦ inl (record { job = job; live = e; other = n }, a)
      | inr (pre, post, p, job', c, a, e', i) ↦ inr (
        x ∷ pre,
        post,
        p,
        job',
        ap (◌∷◌ x) c,
        (record { job = job; live = e; other = n }, a),
        e',
        i,
      )
    ]
  ]
]

module _ (jobid : ℕ) (heap : Heap) (q : Queue) (v : Invariant.IsValid q) where
  -- Two results of the same call are the same.
  removed :
      (heap' h : Heap) (q' r : Queue)
      → remove_job jobid heap q ≡ some (heap', q')
      → remove_job jobid heap q ≡ some (h, r)
      → Removed heap (contents q) h (contents r)
      → Removed heap (contents q) heap' (contents q')
  removed heap' h q' r e k m =
      let c : (h, r) ≡ (heap', q') = cc in
      subst (λ (x : Heap × Queue). Removed heap (contents q) x.0 (contents x.1)) c m

  remove_job_empty : count q ≡ 0 → remove_job jobid heap q ≡ some (heap, q)
  unfolding remove_job
  remove_job_empty z = ground arith

  -- removeJob takes out nothing, the first job with the id, or the newest pointer.
  pub remove_job-Removed :
      (heap' : Heap) (q' : Queue)
      → All (Live heap) (contents q)
      → remove_job jobid heap q ≡ some (heap', q')
      → Removed heap (contents q) heap' (contents q')
  remove_job-Removed heap' q' l e = elim (eq-or-ne (count q) 0) [
    | inl z ↦ removed heap' heap q' q e (remove_job_empty z) (nothing refl refl)
    | inr n ↦ elim (lt-or-le (q.get_idx % max_jobs_queue) (q.put_idx % max_jobs_queue)) [
      | inl lt ↦ elim (first_with jobid heap (contents q) l) [
        | inl a ↦
            let (r, k, c) = remove_job_missing jobid heap q v lt a in
            removed heap' heap q' r e k (dropped (newest q) refl c)
        | inr (pre, post, p, job, c, a, h, i) ↦
            let (r, k, c') = remove_job_hit jobid heap q pre post p job v lt c a h i in
            removed heap' (free heap p) q' r e k (freed pre post p refl c c')
      ]
      | inr le ↦ elim (eq-or-ne (q.put_idx % max_jobs_queue) 0) [
        | inl z ↦ absurd (ground (arith, e, remove_job_overrun jobid heap q v n z))
        | inr nz ↦
            let (r, k, c) = remove_job_wrapped jobid heap q v n nz le in
            removed heap' heap q' r e k (dropped (newest q) refl c)
      ]
    ]
  ]

-- removeJob does not move `put_idx` up.
pub remove_job-put_idx :
    (jobid : ℕ) (heap : Heap) {q q' : Queue} {heap' : Heap}
    → Invariant.IsValid q
    → remove_job jobid heap q ≡ some (heap', q')
    → q'.put_idx ≤ q.put_idx
unfolding remove_job drop_slot
remove_job-put_idx jobid heap v e = ground arith

-- What the section of unsubmit that calls removeJob leaves.
pub record Unqueued (s s' : MainServer) : Type 0 where
  pub valid : Invariant.IsValid (s'.queue 0)
  pub fewer : (s'.queue 0).put_idx ≤ (s.queue 0).put_idx
  pub history_same : s'.history ≡ s.history
  pub moved : Removed s.heap (queued s) s'.heap (queued s')

pub remove_section-Unqueued :
    (jobid : ℕ) (s s' : MainServer)
    → Invariant.IsValid (s.queue 0)
    → All (Live s.heap) (queued s)
    → remove_section jobid 0 s ≡ some s'
    → Unqueued s s'
unfolding remove_section
remove_section-Unqueued jobid s s' v l e =
    elim (Option-cases (remove_job jobid s.heap (s.queue 0))) [
      | inl n ↦ absurd (ground (arith, n))
      | inr ((heap, q), r) ↦
          let c : record (set_queue s 0 q) { heap = heap } ≡ s' = ground (arith, r) in
          subst (Unqueued s) c (record {
            valid = remove_job-IsValid jobid s.heap v r;
            fewer = remove_job-put_idx jobid s.heap v r;
            history_same = refl;
            moved = remove_job-Removed jobid s.heap (s.queue 0) v heap q l r;
          })
    ]
