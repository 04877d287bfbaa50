-- ===== src/Queue/Remove/Loops.antt =====
-- The two loops of removeJob.
use distributed_queue_system.Base.{
  ℕ, zero, suc, ◌+◌, ◌%◌, ◌≤◌, ◌<◌, ◌≡◌, ◌≢◌, refl, ap, ap₂, ◌∙◌, sym, fun_ext, List, [], ◌∷◌, ◌++◌,
  none, some, arith, length, leb, ltb, ◌&&◌, All, if◌then◌else◌, update, lt→ltb, ne→==,
}
use mathlib.Core.List.{tail}
use distributed_queue_system.Job.{Job, Heap, free}
use distributed_queue_system.Queue.{max_jobs_queue, scan, shift}
use distributed_queue_system.Queue.Refine.{
  window, window-ext, window-shift, window-append, length-window,
}

-- The pointer is live and its job has another id.
pub record Other (jobid : ℕ) (heap : Heap) (p : ℕ) : Type 0 where
  pub job : Job
  pub live : heap p ≡ some job
  pub other : job.id ≢ jobid

-- Where `rounds` rounds from `idx` on move each pointer one slot down.
abbrev pub shifted : ℕ → ℕ → (ℕ → ℕ) → ℕ → ℕ
shifted idx rounds jobs j = if leb idx j && ltb j (idx + rounds) then jobs (j + 1) else jobs j

pub shift-shifted :
    (rounds idx : ℕ) (jobs : ℕ → ℕ)
    → idx + rounds < max_jobs_queue
    → shift rounds idx jobs ≡ some (shifted idx rounds jobs)
unfolding shift
shift-shifted zero idx jobs h = ap some (fun_ext λ j. ground arith)
shift-shifted (suc rounds) idx jobs h =
    rw (shift, lt→ltb (idx + 1) max_jobs_queue (omega arith))
      (shift-shifted rounds (idx + 1) (update jobs idx (jobs (idx + 1))) (omega arith)
        ∙ ap some (fun_ext λ j. ground arith))

-- With too many rounds left the loop leaves the array.
pub shift-none :
    (rounds idx : ℕ) (jobs : ℕ → ℕ)
    → idx < max_jobs_queue
    → max_jobs_queue ≤ idx + rounds
    → shift rounds idx jobs ≡ none
unfolding shift
shift-none zero idx jobs h k = absurd (omega arith)
shift-none (suc rounds) idx jobs h k =
    ground (arith, shift-none rounds (idx + 1) (update jobs idx (jobs (idx + 1))))

pub window-mod : (jobs : ℕ → ℕ) (i n : ℕ) → window jobs i n ≡ window jobs (i % max_jobs_queue) n
window-mod jobs i zero = refl
window-mod jobs i (suc n) = ap₂ ◌∷◌ (ap jobs (omega arith)) (
    window-mod jobs (i + 1) n
    ∙ (ap (λ k. window jobs k n) (omega arith) ∙ sym (window-mod jobs (i % max_jobs_queue + 1) n)))

module _ (jobid : ℕ) (heap : Heap) (jobs : ℕ → ℕ) where
  pub scan-missing :
      (rounds idx : ℕ)
      → idx + rounds ≤ max_jobs_queue
      → All (Other jobid heap) (window jobs idx rounds)
      → scan jobid jobs rounds idx heap ≡ some (heap, idx + rounds)
  unfolding scan
  scan-missing zero idx h a = ground arith
  scan-missing (suc rounds) idx h (o, a) =
      ground (arith, o, scan-missing rounds (idx + 1) (omega arith) a, ne→== o.job.id jobid o.other)

  pub scan-hit :
      (pre post : List ℕ) (p rounds idx : ℕ) (job : Job)
      → idx + rounds ≤ max_jobs_queue
      → window jobs idx rounds ≡ pre ++ p ∷ post
      → All (Other jobid heap) pre
      → heap p ≡ some job
      → job.id ≡ jobid
      → scan jobid jobs rounds idx heap ≡ some (free heap p, idx + length pre)
  unfolding scan
  scan-hit [] post p zero idx job h e a l i = cc
  scan-hit [] post p (suc rounds) idx job h e a l i = ground arith
  scan-hit (x ∷ pre) post p zero idx job h e a l i = cc
  scan-hit (x ∷ pre) post p (suc rounds) idx job h e (o, a) l i =
      ground (arith, o, scan-hit pre post p rounds (idx + 1) job (omega arith) (ap tail e) a l i)

pub scan-zero :
    (jobid : ℕ) (heap : Heap) (jobs : ℕ → ℕ) (rounds idx : ℕ)
    → rounds ≡ 0
    → scan jobid jobs rounds idx heap ≡ some (heap, idx)
unfolding scan
scan-zero jobid heap jobs rounds idx z = ap (λ k. scan jobid jobs k idx heap) z

-- What a window that is known as a list says of its parts.
pub record Split (jobs : ℕ → ℕ) (i n : ℕ) (pre post : List ℕ) : Type 0 where
  pub before : window jobs i (length pre) ≡ pre
  pub after : window jobs (i + length pre + 1) (length post) ≡ post
  pub total : n ≡ length pre + 1 + length post

length-of-window : (jobs : ℕ → ℕ) (i n : ℕ) (xs : List ℕ) → window jobs i n ≡ xs → length xs ≡ n
length-of-window jobs i n xs e = omega (arith, ap length e, length-window jobs i n)

pub window-Split :
    (jobs : ℕ → ℕ) (pre post : List ℕ) (p i n : ℕ)
    → window jobs i n ≡ pre ++ p ∷ post
    → Split jobs i n pre post
window-Split jobs [] post p i zero e = cc
window-Split jobs [] post p i (suc n) e = record {
  before = refl;
  after =
      ap₂ (window jobs) (omega arith) (length-of-window jobs (i + 1) n post (ap tail e))
      ∙ ap tail e;
  total = omega (arith, length-of-window jobs (i + 1) n post (ap tail e));
}
window-Split jobs (x ∷ pre) post p i zero e = cc
window-Split jobs (x ∷ pre) post p i (suc n) e =
    let r = window-Split jobs pre post p (i + 1) n (ap tail e) in
    record {
      before = ap₂ ◌∷◌ (ground arith) r.before;
      after = ap (λ k. window jobs k (length post)) (omega arith) ∙ r.after;
      total = omega (arith, r.total);
    }

-- Moving the pointers after position `k` down takes the one at `k` out of the window.
pub window-shifted :
    (jobs : ℕ → ℕ) (i n r : ℕ)
    → i % max_jobs_queue + n + r < max_jobs_queue
    → window (shifted (i % max_jobs_queue + n) r jobs) i (n + r)
      ≡ window jobs i n ++ window jobs (i + n + 1) r
window-shifted jobs i n r h =
    window-append (shifted (i % max_jobs_queue + n) r jobs) i n r
    ∙ ap₂ ◌++◌
        (window-ext (shifted (i % max_jobs_queue + n) r jobs) jobs i n (λ k lo hi. ground arith))
        (window-shift (shifted (i % max_jobs_queue + n) r jobs) jobs (i + n) (i + n + 1) r
          (λ k lt. ground arith))
