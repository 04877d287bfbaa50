-- ===== src/Server/Shutdown/Laws.antt =====
-- What MainServerDestroy leaves.
use distributed_queue_system.Base.{
  ℕ, zero, suc, ◌+◌, ◌-◌, ◌%◌, ◌≤◌, ◌<◌, ◌≡◌, ◌≢◌, refl, sym, ap, subst, ◌∙◌, List, [], ◌∷◌, Option,
  none, some, arith, All, All-and, update, Option-cases, inl, inr, eq-or-ne, lt-or-le,
}
use distributed_queue_system.Job.{Job, Heap, free}
use distributed_queue_system.Queue.{Queue, max_jobs_queue, unsigned_mod}
use distributed_queue_system.Queue.Invariant.{count-eq-sub}
use distributed_queue_system.Queue.Refine.{window}
use distributed_queue_system.History.{JobHistory, History, job_history_max}
use distributed_queue_system.Server.{MainServer}
use distributed_queue_system.Server.Owned.{Live, Distinct}
use distributed_queue_system.Server.Invariant.{queued, IsSound}
use distributed_queue_system.Server.Shutdown.{
  job_at, free_jobs, queue_destroy, destroy_queues, free_history, history_limit,
  main_server_destroy,
}

-- The heap with some blocks freed.
unfoldable pub free_all : List ℕ → Heap → Heap
free_all [] heap = heap
free_all (p ∷ ps) heap = free_all ps (free heap p)

Live-free :
    (heap : Heap) (p : ℕ) (ps : List ℕ)
    → All (λ x. p ≢ x) ps
    → All (Live heap) ps
    → All (Live (free heap p)) ps
Live-free heap p ps d l = All-and ps (λ x n k. ground (arith, n, k)) d l

pub job_at-window :
    (q : Queue) (i j : ℕ)
    → j ≡ q.get_idx + i
    → j < unsigned_mod
    → job_at q i ≡ q.jobs (j % max_jobs_queue)
job_at-window q i j e lt = ap q.jobs (omega arith)

free_jobs-step :
    (rounds i : ℕ) (q : Queue) (heap : Heap) (p : ℕ) (job : Job)
    → job_at q i ≡ p
    → heap p ≡ some job
    → free_jobs (suc rounds) i q heap ≡ free_jobs rounds (i + 1) q (free heap p)
unfolding free_jobs
free_jobs-step rounds i q heap p job e k =
    let k' = subst (λ x. heap x ≡ some job) (sym e) k in
    ap
      (λ (o : Option Job). elim o [
        | none ↦ none
        | some j ↦ free_jobs rounds (i + 1) q (free heap (job_at q i))
      ])
      k'
    ∙ ap (λ x. free_jobs rounds (i + 1) q (free heap x)) e

-- The loop frees the pointers of a window, if they are distinct and lead to live blocks.
free_jobs-window :
    (rounds i j : ℕ) (q : Queue) (heap : Heap)
    → j ≡ q.get_idx + i
    → j + rounds ≤ unsigned_mod
    → All (Live heap) (window q.jobs j rounds)
    → Distinct (window q.jobs j rounds)
    → free_jobs rounds i q heap ≡ some (free_all (window q.jobs j rounds) heap)
unfolding free_jobs free_all
free_jobs-window zero i j q heap e h l d = refl
free_jobs-window (suc rounds) i j q heap e h (l, ls) (d, ds) =
    let p = q.jobs (j % max_jobs_queue) in
    elim (Option-cases (heap p)) [
      | inl n ↦ absurd (l n)
      | inr (job, k) ↦
          free_jobs-step rounds i q heap p job (job_at-window q i j e (omega arith)) k
          ∙ free_jobs-window rounds (i + 1) (j + 1) q (free heap p) (omega arith) (omega arith)
              (Live-free heap p (window q.jobs (j + 1) rounds) d ls) ds
    ]

free_all-in : (ps : List ℕ) (heap : Heap) (p : ℕ) → heap p ≡ none → free_all ps heap p ≡ none
unfolding free_all
free_all-in [] heap p e = e
free_all-in (x ∷ ps) heap p e = free_all-in ps (free heap x) p (ground (arith, e))

free_all-none : (ps : List ℕ) (heap : Heap) → All (λ p. free_all ps heap p ≡ none) ps
unfolding free_all
free_all-none [] heap = tt
free_all-none (p ∷ ps) heap =
    (free_all-in ps (free heap p) p (ground arith), free_all-none ps (free heap p))

free_all-other :
    (ps : List ℕ) (heap : Heap) (p : ℕ) → All (λ x. x ≢ p) ps → free_all ps heap p ≡ heap p
unfolding free_all
free_all-other [] heap p n = refl
free_all-other (x ∷ ps) heap p (n, ns) = free_all-other ps (free heap x) p ns ∙ ground (arith, n)

free_history-at :
    (rounds i : ℕ) (a : ℕ → Option JobHistory) (k : ℕ)
    → (k < i + rounds → i ≤ k → free_history rounds i a k ≡ none)
      × (a k ≡ none → free_history rounds i a k ≡ none)
unfolding free_history
free_history-at zero i a k = (λ lt le. absurd (omega arith), λ e. e)
free_history-at (suc rounds) i a k =
    let (x, y) = free_history-at rounds (i + 1) (update a i none) k in
    (
      λ lt le. elim (eq-or-ne i k) [
        | inl e ↦ y (ground (arith, e))
        | inr n ↦ x (omega arith) (omega arith)
      ],
      λ e. y (ground (arith, e)),
    )

queue_destroy_lem :
    (s : MainServer)
    → IsSound s
    → queue_destroy (s.queue 0) s.heap ≡ some (free_all (queued s) s.heap)
unfolding queue_destroy
queue_destroy_lem s v =
    let q = s.queue 0 in
    ap (λ n. free_jobs n 0 q s.heap) (count-eq-sub v.queue_valid)
    ∙ free_jobs-window (q.put_idx - q.get_idx) 0 q.get_idx q s.heap (omega arith)
        (omega (arith, v.queue_valid.ordered, v.queue_valid.no_wrap)) v.owned.live v.owned.distinct

main_server_destroy-freed :
    (s : MainServer) (heap : Heap)
    → queue_destroy (s.queue 0) s.heap ≡ some heap
    → main_server_destroy s
      ≡ some (record s {
        heap = heap;
        history = record s.history {
          job_array = free_history (history_limit s.history) 0 s.history.job_array;
        };
      })
unfolding main_server_destroy destroy_queues
main_server_destroy-freed s heap e = ground (arith, e)

history_limit_lem :
    (h : History) (i : ℕ) → history_limit h ≤ i → i < job_history_max → h.history_putidx ≤ i
history_limit_lem h i le lt = ground (arith, le, lt)

-- A sound server that stops: MainServerDestroy frees the job of every queued pointer, none twice
-- and none that is not in use, and no other job; and every record of the history is freed.
pub main_server_destroy_lem :
    (s : MainServer)
    → IsSound s
    → (s' : MainServer) × (main_server_destroy s ≡ some s')
      × All (λ p. s'.heap p ≡ none) (queued s)
      × ((p : ℕ) → All (λ x. x ≢ p) (queued s) → s'.heap p ≡ s.heap p)
      × ((i : ℕ) → i < job_history_max → s'.history.job_array i ≡ none)
main_server_destroy_lem s v =
    let heap = free_all (queued s) s.heap in
    let a = free_history (history_limit s.history) 0 s.history.job_array in
    (
      record s { heap = heap; history = record s.history { job_array = a } },
      main_server_destroy-freed s heap (queue_destroy_lem s v),
      free_all-none (queued s) s.heap,
      λ p n. free_all-other (queued s) s.heap p n,
      λ i h. elim (lt-or-le i (history_limit s.history)) [
        | inl lt ↦
            (free_history-at (history_limit s.history) 0 s.history.job_array i).0 (omega arith)
              (omega arith)
        | inr le ↦
            (free_history-at (history_limit s.history) 0 s.history.job_array i).1
              (v.history_valid.unused i (history_limit_lem s.history i le h))
      ],
    )
