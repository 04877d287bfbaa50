-- ===== src/Queue/Remove.antt =====
-- removeJob on every branch: which pointer leaves the queue, and where the code goes wrong.
pub mod Loops
use distributed_queue_system.Base.{
  ℕ, zero, suc, ◌+◌, ◌-◌, ◌%◌, ◌≤◌, ◌<◌, ◌≡◌, ◌≢◌, refl, ap, ap₂, ◌∙◌, sym, subst, ne→==, List, [],
  ◌∷◌, ◌++◌, Option, none, some, arith, length, All,
}
use distributed_queue_system.Job.{Job, Heap, free}
use distributed_queue_system.Queue.{
  Queue, full, avail, max_jobs_queue, unsigned_mod, prev_idx, count, scan, shift, drop_slot,
  remove_job,
}
use distributed_queue_system.Queue.Invariant.{IsValid, count-eq-sub}
use distributed_queue_system.Queue.Refine.{window, contents, window-snoc}
use Loops.{
  Other, shifted, shift-none, shift-shifted, scan-missing, scan-hit, window-mod, window-shifted,
  scan-zero, Split, window-Split,
}

-- removeJob keeps the queue's invariant whenever it returns.
pub remove_job-IsValid :
    (jobid : ℕ) (heap : Heap) {q q' : Queue} {heap' : Heap}
    → IsValid q
    → remove_job jobid heap q ≡ some (heap', q')
    → IsValid q'
unfolding remove_job drop_slot
remove_job-IsValid jobid heap v e = ground arith

-- The pointer that was stored last.
abbrev pub newest : Queue → ℕ
newest q = q.jobs (prev_idx q.put_idx % max_jobs_queue)

abbrev popped : Queue → Queue
popped q = record q { put_idx = prev_idx q.put_idx; state = avail }

contents-popped :
    (q : Queue) → IsValid q → count q ≢ 0 → contents q ≡ contents (popped q) ++ newest q ∷ []
contents-popped q v h =
    ap (window q.jobs q.get_idx) {y = suc (q.put_idx - q.get_idx - 1)} (omega arith)
    ∙ (window-snoc q.jobs q.get_idx (q.put_idx - q.get_idx - 1)
        ∙ ap₂ (λ w x. w ++ x ∷ []) (ap (window q.jobs q.get_idx) (omega arith))
            (ap q.jobs (omega arith)))

window-sub :
    (q : Queue)
    → IsValid q
    → q.get_idx % max_jobs_queue < q.put_idx % max_jobs_queue
    → q.put_idx % max_jobs_queue - q.get_idx % max_jobs_queue ≡ q.put_idx - q.get_idx
window-sub q v h = omega arith

-- After an idle first loop that stops past `newest`, the pointer stored last is dropped.
remove_job_idle :
    (jobid : ℕ) (heap : Heap) (q : Queue) (idx : ℕ)
    → IsValid q
    → count q ≢ 0
    → scan jobid q.jobs
        (q.put_idx % max_jobs_queue - q.get_idx % max_jobs_queue)
        (q.get_idx % max_jobs_queue)
        heap
      ≡ some (heap, idx)
    → prev_idx (q.put_idx % max_jobs_queue) ≤ idx
    → remove_job jobid heap q ≡ some (heap, popped q)
unfolding remove_job drop_slot shift
remove_job_idle jobid heap q idx v n e h =
    let z : prev_idx (q.put_idx % max_jobs_queue) - idx ≡ 0 = omega arith in
    ground (arith, e, ap (λ k. shift k idx q.jobs) z)

-- If the live part of a valid, non-empty queue goes round the array's end, and does not end at
-- slot 0, removeJob drops the pointer that was stored last, whatever job it was asked to
-- remove, and frees nothing.
pub remove_job_wrapped :
    (jobid : ℕ) (heap : Heap) (q : Queue)
    → IsValid q
    → count q ≢ 0
    → q.put_idx % max_jobs_queue ≢ 0
    → q.put_idx % max_jobs_queue ≤ q.get_idx % max_jobs_queue
    → (q' : Queue) × (remove_job jobid heap q ≡ some (heap, q'))
      × (contents q ≡ contents q' ++ newest q ∷ [])
remove_job_wrapped jobid heap q v n e h = (
  popped q,
  remove_job_idle jobid heap q (q.get_idx % max_jobs_queue) v n
      (scan-zero jobid heap q.jobs (q.put_idx % max_jobs_queue - q.get_idx % max_jobs_queue)
        (q.get_idx % max_jobs_queue) (omega arith))
      (omega arith),
  contents-popped q v n,
)

-- If no queued job has the id, and the live part of the array does not go round its end, removeJob
-- drops the pointer that was stored last, and frees nothing.
pub remove_job_missing :
    (jobid : ℕ) (heap : Heap) (q : Queue)
    → IsValid q
    → q.get_idx % max_jobs_queue < q.put_idx % max_jobs_queue
    → All (Other jobid heap) (contents q)
    → (q' : Queue) × (remove_job jobid heap q ≡ some (heap, q'))
      × (contents q ≡ contents q' ++ newest q ∷ [])
remove_job_missing jobid heap q v h a = (
  popped q,
  remove_job_idle jobid heap q (s + (q.put_idx % max_jobs_queue - s)) v (omega arith)
      (scan-missing jobid heap q.jobs (q.put_idx % max_jobs_queue - s) s (omega arith)
        (subst (All (Other jobid heap)) w a))
      (omega arith),
  contents-popped q v (omega arith),
)
  where
    s : ℕ
    s = q.get_idx % max_jobs_queue

    w :
        contents q
        ≡ window q.jobs
            (q.get_idx % max_jobs_queue)
            (q.put_idx % max_jobs_queue - q.get_idx % max_jobs_queue)
    w =
        window-mod q.jobs q.get_idx (q.put_idx - q.get_idx)
        ∙ ap (window q.jobs (q.get_idx % max_jobs_queue)) (sym (window-sub q v h))

-- If the live part of the array ends at slot 0, removeJob runs past the end of the array.
pub remove_job_overrun :
    (jobid : ℕ) (heap : Heap) (q : Queue)
    → IsValid q
    → count q ≢ 0
    → q.put_idx % max_jobs_queue ≡ 0
    → remove_job jobid heap q ≡ none
unfolding remove_job drop_slot
remove_job_overrun jobid heap q v n e = ground (
  arith,
  scan-zero jobid heap q.jobs (q.put_idx % max_jobs_queue - s) s,
  shift-none (prev_idx (q.put_idx % max_jobs_queue) - s) s q.jobs,
)
  where
    s : ℕ
    s = q.get_idx % max_jobs_queue

-- On a valid queue whose live part does not go round the end of the array, removeJob takes the
-- first queued job with the id out, frees it and keeps the order of the others, if every
-- pointer before it leads to a job with another id.
pub remove_job_hit :
    (jobid : ℕ) (heap : Heap) (q : Queue) (pre post : List ℕ) (p : ℕ) (job : Job)
    → IsValid q
    → q.get_idx % max_jobs_queue < q.put_idx % max_jobs_queue
    → contents q ≡ pre ++ p ∷ post
    → All (Other jobid heap) pre
    → heap p ≡ some job
    → job.id ≡ jobid
    → (q' : Queue) × (remove_job jobid heap q ≡ some (free heap p, q'))
      × (contents q' ≡ pre ++ post)
unfolding remove_job drop_slot
remove_job_hit jobid heap q pre post p job v h e a l i = (
  record (popped q) { jobs = shifted (s + length pre) (length post) q.jobs },
  ground (
    arith,
    scan-hit jobid heap q.jobs pre post p (q.put_idx % max_jobs_queue - s) s job (omega arith)
        (sym w ∙ e) a l i,
    loop,
  ),
  ap (window (shifted (s + length pre) (length post) q.jobs) q.get_idx) (omega (arith, t.total))
      ∙ (window-shifted q.jobs q.get_idx (length pre) (length post) (omega (arith, t.total))
          ∙ ap₂ ◌++◌ t.before t.after),
)
  where
    s : ℕ
    s = q.get_idx % max_jobs_queue

    w :
        contents q
        ≡ window q.jobs
            (q.get_idx % max_jobs_queue)
            (q.put_idx % max_jobs_queue - q.get_idx % max_jobs_queue)
    w =
        window-mod q.jobs q.get_idx (q.put_idx - q.get_idx)
        ∙ ap (window q.jobs (q.get_idx % max_jobs_queue)) (sym (window-sub q v h))

    t : Split q.jobs q.get_idx (q.put_idx - q.get_idx) pre post
    t = window-Split q.jobs pre post p q.get_idx (q.put_idx - q.get_idx) e

    loop :
        shift (prev_idx (q.put_idx % max_jobs_queue) - (s + length pre)) (s + length pre) q.jobs
        ≡ some (shifted (s + length pre) (length post) q.jobs)
    loop =
        ap (λ k. shift k (s + length pre) q.jobs) (omega (arith, t.total))
        ∙ shift-shifted (length post) (s + length pre) q.jobs (omega (arith, t.total))
