-- ===== src/Server/Console/Printed.antt =====
-- The tables that the main server prints show what it holds.
use distributed_queue_system.Base.{
  ℕ, zero, suc, ◌+◌, ◌-◌, ◌%◌, ◌≤◌, ◌<◌, ◌≡◌, ◌≢◌, refl, sym, ap, ap₂, ◌∙◌, List, [], ◌∷◌, map,
  Option, none, some, arith, All, length, get_elem?, Option-cases, inl, inr,
}
use distributed_queue_system.Text.{terminated}
use distributed_queue_system.Job.{Job, Heap}
use distributed_queue_system.Queue.{Queue, max_jobs_queue, unsigned_mod}
use distributed_queue_system.Queue.Invariant.{count-eq-sub}
use distributed_queue_system.Queue.Refine.{window, length-contents}
use distributed_queue_system.History.{JobHistory, History, job_history_max}
use distributed_queue_system.History.Find
use distributed_queue_system.Server.{MainServer}
use distributed_queue_system.Server.Owned.{Live}
use distributed_queue_system.Server.Invariant.{queued, IsSound}
use distributed_queue_system.Server.Shutdown.{history_limit}
use distributed_queue_system.Server.Shutdown.Laws.{job_at-window}
use distributed_queue_system.Server.Console.{
  HistoryRow, history_row, row_before, history_rows, print_history_jobs, QueueRow, queue_row,
  queue_row_at, queue_rows, print_queue_jobs,
}

-- Rows that stand for the slots from `i` on.
RowsFrom : ℕ → History → List HistoryRow → Type 0
RowsFrom i h rows =
    (k j : ℕ) (job : JobHistory)
    → k < length rows
    → j ≡ i + k
    → h.job_array j ≡ some job
    → get_elem? rows k ≡ some (history_row j job)

RowsFrom-cons :
    (i : ℕ) (h : History) (job : JobHistory) (rows : List HistoryRow)
    → h.job_array i ≡ some job
    → RowsFrom (i + 1) h rows
    → RowsFrom i h (history_row i job ∷ rows)
unfolding RowsFrom
RowsFrom-cons i h job rows e r zero j found lt x l = ground (arith, e, l, x)
RowsFrom-cons i h job rows e r (suc k) j found lt x l = r k j found (omega arith) (omega arith) l

-- A record stands at every place that the loop visits.
history_rows_lem :
    (rounds i : ℕ) (h : History)
    → ((k : ℕ) → i ≤ k → k < i + rounds → h.job_array k ≢ none)
    → (rows : List HistoryRow) × (history_rows rounds i h ≡ some rows)
      × (length rows ≡ rounds)
      × RowsFrom i h rows
unfolding history_rows RowsFrom
history_rows_lem zero i h f = ([], refl, refl, λ k j job lt x e. absurd (omega arith))
history_rows_lem (suc rounds) i h f = elim (Option-cases (h.job_array i)) [
  | inl n ↦ absurd (f i (omega arith) (omega arith) n)
  | inr (job, e) ↦
      let (rows, r, n, g) =
        history_rows_lem rounds (i + 1) h (λ k lo hi. f k (omega arith) (omega arith)) in
      (
        history_row i job ∷ rows,
        ap₂ row_before
            (ap
              (λ (o : Option JobHistory). elim o [
                | none ↦ none
                | some job ↦ some (history_row i job)
              ])
              e)
            r,
        ap suc n,
        RowsFrom-cons i h job rows e g,
      )
]

-- printHistoryJobs on a history that is kept as newJob keeps it: it reads through no NULL, and
-- shows the records of the slots below the limit, each with its index, in order.
pub print_history_jobs_lem :
    (h : History)
    → Find.IsValid h
    → (rows : List HistoryRow) × (print_history_jobs h ≡ some rows)
      × (length rows ≡ history_limit h)
      × ((i : ℕ) (job : JobHistory)
          → i < history_limit h
          → h.job_array i ≡ some job
          → get_elem? rows i ≡ some (history_row i job))
unfolding print_history_jobs RowsFrom
print_history_jobs_lem h v =
    let (rows, r, n, g) =
      history_rows_lem (history_limit h) 0 h
        (λ k lo hi. v.filled k (below h k hi) (below' h k hi)) in
    (rows, r, n, λ i job lt e. g i i job (omega arith) (omega arith) e)
  where
    below : (h : History) (k : ℕ) → k < 0 + history_limit h → k < job_history_max
    below h k lt = ground (arith, lt)

    below' : (h : History) (k : ℕ) → k < 0 + history_limit h → k < h.history_putidx
    below' h k lt = ground (arith, lt)

-- A job whose two texts end within their arrays.
pub record IsText (job : Job) : Type 0 where
  pub file_ends : terminated job.exec_file ≢ none
  pub dir_ends : terminated job.working_dir ≢ none

-- The same for every job in memory.
abbrev pub HoldsText : Heap → Type 0
HoldsText heap = (p : ℕ) (job : Job) → heap p ≡ some job → IsText job

queue_row-IsText : (job : Job) → IsText job → (row : QueueRow) × (queue_row job ≡ some row)
queue_row-IsText job t = elim (Option-cases (terminated job.exec_file)) [
  | inl n ↦ absurd (t.file_ends n)
  | inr (file, e) ↦ elim (Option-cases (terminated job.working_dir)) [
    | inl n ↦ absurd (t.dir_ends n)
    | inr (dir, k) ↦ (record { id = job.id; file = file; dir = dir }, ground (arith, e, k))
  ]
]

queue_row_at-Live :
    (heap : Heap) (p : ℕ)
    → HoldsText heap
    → Live heap p
    → (row : QueueRow) × (queue_row_at heap p ≡ some row)
queue_row_at-Live heap p t l = elim (Option-cases (heap p)) [
  | inl n ↦ absurd (l n)
  | inr (job, e) ↦
      let (row, r) = queue_row-IsText job (t p job e) in
      (row, ap (λ (o : Option Job). elim o [ none ↦ none | some job ↦ queue_row job ]) e ∙ r)
]

queue_rows-window :
    (rounds i j : ℕ) (q : Queue) (heap : Heap)
    → j ≡ q.get_idx + i
    → j + rounds ≤ unsigned_mod
    → HoldsText heap
    → All (Live heap) (window q.jobs j rounds)
    → (rows : List QueueRow) × (queue_rows rounds i q heap ≡ some rows)
      × (map some rows ≡ map (queue_row_at heap) (window q.jobs j rounds))
unfolding queue_rows
queue_rows-window zero i j q heap e h t l = ([], refl, refl)
queue_rows-window (suc rounds) i j q heap e h t (l, ls) =
    let (row, r) = queue_row_at-Live heap (q.jobs (j % max_jobs_queue)) t l in
    let (rows, k, m) =
      queue_rows-window rounds (i + 1) (j + 1) q heap (omega arith) (omega arith) t ls in
    (
      row ∷ rows,
      ap₂ row_before (ap (queue_row_at heap) (job_at-window q i j e (omega arith)) ∙ r) k,
      ap₂ ◌∷◌ (sym r) m,
    )

pub print_queue_jobs_lem :
    (s : MainServer)
    → IsSound s
    → HoldsText s.heap
    → (rows : List QueueRow) × (print_queue_jobs (s.queue 0) s.heap
        ≡ (length (queued s), some rows))
      × (map some rows ≡ map (queue_row_at s.heap) (queued s))
unfolding print_queue_jobs
print_queue_jobs_lem s v t =
    let q = s.queue 0 in
    let (rows, r, m) =
      queue_rows-window (q.put_idx - q.get_idx) 0 q.get_idx q s.heap (omega arith)
        (omega (arith, v.queue_valid.ordered, v.queue_valid.no_wrap)) t v.owned.live in
    (
      rows,
      ap (λ n. (n, queue_rows n 0 q s.heap)) (count-eq-sub v.queue_valid)
          ∙ ap₂ (λ a b. (a, b)) (sym (length-contents q)) r,
      m,
    )
