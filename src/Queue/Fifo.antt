-- ===== src/Queue/Fifo.antt =====
-- What a queue promises: a bounded FIFO of job pointers, oldest first, and the calls on it.
use distributed_queue_system.Base.{
  ℕ, List, [], ◌∷◌, ◌++◌, Option, none, some, ◌==◌, if◌then◌else◌, length,
}

-- A thread's call: put a job, or take one.
pub data Call : Type 0 where
  put : ℕ → Call
  take : Call

-- What the caller sees: it waits, its job is stored, or it gets a job.
pub data Reply : Type 0 where
  waits : Reply
  stored : Reply
  taken : ℕ → Reply

unfoldable pub push : ℕ → List ℕ → ℕ → Option (List ℕ)
push cap xs x = if length xs == cap then none else some (xs ++ x ∷ [])

unfoldable pub pop : List ℕ → Option (ℕ × List ℕ)
pop [] = none
pop (x ∷ xs) = some (x, xs)

-- One call: the FIFO after it and the reply; a caller that waits changes nothing.
unfoldable pub step : ℕ → List ℕ → Call → List ℕ × Reply
unfolding push pop
step cap xs (put x) = elim (push cap xs x) [ none ↦ (xs, waits) | some ys ↦ (ys, stored) ]
step cap xs take = elim (pop xs) [ none ↦ (xs, waits) | some (x, ys) ↦ (ys, taken x) ]

unfoldable pub run : ℕ → List ℕ → List Call → List Reply
run cap xs [] = []
run cap xs (c ∷ cs) = let (ys, r) = step cap xs c in r ∷ run cap ys cs
