-- ===== src/Queue/Refine.antt =====
-- A valid queue behaves as the bounded FIFO of the pointers that it holds.
use Prim.Native.Nat.add
use distributed_queue_system.Base.{
  ℕ, zero, suc, ◌+◌, ◌-◌, ◌%◌, ◌≤◌, ◌<◌, ◌≡◌, ◌≢◌, refl, ap, ap₂, ◌∙◌, List, [], ◌∷◌, ◌++◌, none,
  some, arith, length, update,
}
use distributed_queue_system.Queue.{Queue, max_jobs_queue, unsigned_mod, put_job, take_job}
use distributed_queue_system.Queue.Fifo
use distributed_queue_system.Queue.Fifo.{Call, put, take, Reply, waits, stored, taken}
use distributed_queue_system.Queue.Invariant.{IsValid}

-- The `n` pointers from index `i` on.
abbrev pub window : (ℕ → ℕ) → ℕ → ℕ → List ℕ
window jobs i zero = []
window jobs i (suc n) = jobs (i % max_jobs_queue) ∷ window jobs (i + 1) n

-- The queue's jobs, oldest first.
abbrev pub contents : Queue → List ℕ
contents q = window q.jobs q.get_idx (q.put_idx - q.get_idx)

pub length-window : (jobs : ℕ → ℕ) (i n : ℕ) → length (window jobs i n) ≡ n
length-window jobs i zero = refl
length-window jobs i (suc n) = ap suc (length-window jobs (i + 1) n)

pub window-cons :
    (jobs : ℕ → ℕ) (i n : ℕ)
    → n ≢ 0
    → window jobs i n ≡ jobs (i % max_jobs_queue) ∷ window jobs (i + 1) (n - 1)
window-cons jobs i zero h = absurd (h refl)
window-cons jobs i (suc n) h = ap (λ k. window jobs i (suc k)) (omega arith)

pub window-snoc :
    (jobs : ℕ → ℕ) (i n : ℕ)
    → window jobs i (suc n) ≡ window jobs i n ++ jobs ((i + n) % max_jobs_queue) ∷ []
window-snoc jobs i zero = ap (λ k. jobs (k % max_jobs_queue) ∷ []) (omega arith)
window-snoc jobs i (suc n) = ap (◌∷◌ (jobs (i % max_jobs_queue))) (
    window-snoc jobs (i + 1) n
    ∙ ap (λ k. window jobs (i + 1) n ++ jobs (k % max_jobs_queue) ∷ []) (omega arith))

-- Two arrays that agree on the slots of a window have the same window.
pub window-ext :
    (f g : ℕ → ℕ) (i n : ℕ)
    → ((k : ℕ) → i ≤ k → k < i + n → f (k % max_jobs_queue) ≡ g (k % max_jobs_queue))
    → window f i n ≡ window g i n
window-ext f g i zero h = refl
window-ext f g i (suc n) h =
    ap₂ ◌∷◌ (h i (omega arith) (omega arith))
      (window-ext f g (i + 1) n (λ k lo hi. h k (omega arith) (omega arith)))

-- The same from two different indices.
pub window-shift :
    (f g : ℕ → ℕ) (i j n : ℕ)
    → ((k : ℕ) → k < n → f ((i + k) % max_jobs_queue) ≡ g ((j + k) % max_jobs_queue))
    → window f i n ≡ window g j n
window-shift f g i j zero h = refl
window-shift f g i j (suc n) h =
    ap₂ ◌∷◌ (ground (arith, h 0 (omega arith)))
      (window-shift f g (i + 1) (j + 1) n (λ k lt. ground (arith, h (k + 1) (omega arith))))

pub window-append :
    (jobs : ℕ → ℕ) (i n r : ℕ) → window jobs i (n + r) ≡ window jobs i n ++ window jobs (i + n) r
window-append jobs i zero r = ap₂ (window jobs) (omega arith) (omega arith)
window-append jobs i (suc n) r =
    ap (window jobs i) (add.suc n r)
    ∙ ap (◌∷◌ (jobs (i % max_jobs_queue))) (
        window-append jobs (i + 1) n r
        ∙ ap (λ k. window jobs (i + 1) n ++ window jobs k r) (omega arith))

-- A write just past a window's end, within one round of the array, extends it by that pointer.
pub window-update :
    (jobs : ℕ → ℕ) (i n p : ℕ)
    → n < max_jobs_queue
    → window (update jobs ((i + n) % max_jobs_queue) p) i (suc n) ≡ window jobs i n ++ p ∷ []
window-update jobs i n p h =
    window-snoc (update jobs ((i + n) % max_jobs_queue) p) i n
    ∙ ap₂ (λ w x. w ++ x ∷ [])
        (window-ext (update jobs ((i + n) % max_jobs_queue) p) jobs i n (λ k lo hi. ground arith))
        (ground arith)

pub length-contents : (q : Queue) → length (contents q) ≡ q.put_idx - q.get_idx
length-contents q = length-window q.jobs q.get_idx (q.put_idx - q.get_idx)

-- What the caller of putJob and of the taking section of sendJob sees, with the queue afterwards.
unfoldable pub step : Queue → Call → Queue × Reply
step q (put p) = elim (put_job q p) [ none ↦ (q, waits) | some q' ↦ (q', stored) ]
step q take = elim (take_job q) [ none ↦ (q, waits) | some (p, q') ↦ (q', taken p) ]

unfoldable pub run : Queue → List Call → List Reply
run q [] = []
run q (c ∷ cs) = let (q', r) = step q c in r ∷ run q' cs

-- putJob and sendJob's section keep the queue's invariant, waiting included, as long as
-- `put_idx` does not reach 2 ^ 32.
pub step-IsValid :
    (q : Queue) (c : Call) → IsValid q → q.put_idx + 1 < unsigned_mod → IsValid (step q c).0
unfolding step put_job take_job
step-IsValid q (put p) v h = ground arith
step-IsValid q take v h = ground arith

put_idx-step :
    (q : Queue) (c : Call)
    → IsValid q
    → q.put_idx + 1 < unsigned_mod
    → (step q c).0.put_idx ≤ q.put_idx + 1
unfolding step put_job take_job
put_idx-step q (put p) v h = ground arith
put_idx-step q take v h = ground arith

-- putJob stores at the end exactly when fewer than 15 jobs are stored, and otherwise waits.
pub put_job_refines :
    (q : Queue) (p : ℕ)
    → IsValid q
    → q.put_idx + 1 < unsigned_mod
    → let (q', r) = step q (put p) in
      (contents q', r) ≡ Fifo.step max_jobs_queue (contents q) (put p)
unfolding step put_job Fifo.step
put_job_refines q p v h =
    ground (arith, length-contents q, window-update q.jobs q.get_idx (q.put_idx - q.get_idx) p)

pub take_job_refines :
    (q : Queue)
    → IsValid q
    → let (q', r) = step q take in (contents q', r) ≡ Fifo.step max_jobs_queue (contents q) take
unfolding step take_job Fifo.step
take_job_refines q v = ground (arith, window-cons q.jobs q.get_idx (q.put_idx - q.get_idx))

pub step_refines :
    (q : Queue) (c : Call)
    → IsValid q
    → q.put_idx + 1 < unsigned_mod
    → let (q', r) = step q c in (contents q', r) ≡ Fifo.step max_jobs_queue (contents q) c
step_refines q (put p) v h = put_job_refines q p v h
step_refines q take v h = take_job_refines q v

-- From a valid queue, as long as `put_idx` does not reach 2 ^ 32, any sequence of calls of
-- putJob and of sendJob's section gives the replies, waits included, of a FIFO bounded at 15
-- that starts with the queue's jobs.
pub run_refines :
    (q : Queue) (cs : List Call)
    → IsValid q
    → q.put_idx + length cs < unsigned_mod
    → run q cs ≡ Fifo.run max_jobs_queue (contents q) cs
unfolding run Fifo.run
run_refines q [] v h = refl
run_refines q (c ∷ cs) v h = rw (← step_refines q c v (omega arith)) (
    ap (◌∷◌ (step q c).1) (
      run_refines (step q c).0 cs (step-IsValid q c v (omega arith))
        (omega (arith, put_idx-step q c))))
