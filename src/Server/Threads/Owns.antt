-- ===== src/Server/Threads/Owns.antt =====
-- Which pointers a thread owns, counted.
use distributed_queue_system.Base.{
  ℕ, ◌+◌, ◌≤◌, ◌<◌, ◌≡◌, List, [], ◌∷◌, ◌++◌, arith, ◌==◌, if◌then◌else◌, All,
}
use distributed_queue_system.Server.{num_queue_max}
use distributed_queue_system.Server.Threads.{
  Thread, idle, submitting, storing, taking, holding, returning, returned, removing, marking,
}

-- How often a pointer stands in a list.
unfoldable pub occurs : ℕ → List ℕ → ℕ
occurs p [] = 0
occurs p (x ∷ xs) = (if x == p then 1 else 0) + occurs p xs

pub occurs-append : (p : ℕ) (xs ys : List ℕ) → occurs p (xs ++ ys) ≡ occurs p xs + occurs p ys
unfolding occurs
occurs-append p [] ys = ground arith
occurs-append p (x ∷ xs) ys = ground (arith, occurs-append p xs ys)

pub occurs-cons :
    (p x : ℕ) (xs : List ℕ) → occurs p (x ∷ xs) ≡ (if x == p then 1 else 0) + occurs p xs
unfolding occurs
occurs-cons p x xs = ground arith

pub occurs-snoc :
    (p x : ℕ) (xs : List ℕ) → occurs p (xs ++ x ∷ []) ≡ occurs p xs + (if x == p then 1 else 0)
unfolding occurs
occurs-snoc p x xs = ground (arith, occurs-append p xs (x ∷ []))

pub occurs-middle :
    (p x : ℕ) (xs ys : List ℕ)
    → occurs p (xs ++ x ∷ ys) ≡ occurs p (xs ++ ys) + (if x == p then 1 else 0)
unfolding occurs
occurs-middle p x xs ys = ground (arith, occurs-append p xs (x ∷ ys), occurs-append p xs ys)

-- What holds of each pointer that stands in a list holds of all its members.
pub occurs-All : (P : ℕ → Type 0) (xs : List ℕ) → ((p : ℕ) → 1 ≤ occurs p xs → P p) → All P xs
unfolding occurs
occurs-All P [] h = tt
occurs-All P (x ∷ xs) h = (h x (ground arith), occurs-All P xs (λ p le. h p (ground arith)))

-- How often a thread owns a pointer.
unfoldable pub owns : ℕ → Thread → ℕ
owns r idle = 0
owns r (submitting queue_idx p) = if p == r then 1 else 0
owns r (storing queue_idx p) = if p == r then 1 else 0
owns r (taking queue_idx) = 0
owns r (holding p) = if p == r then 1 else 0
owns r (returning queue_idx p) = if p == r then 1 else 0
owns r (returned queue_idx p) = 0
owns r (removing jobid q_idx) = 0
owns r (marking jobid) = 0

unfoldable pub own : ℕ → List Thread → ℕ
own r [] = 0
own r (t ∷ ts) = owns r t + own r ts

pub own-middle :
    (r : ℕ) (t : Thread) (before after : List Thread)
    → own r (before ++ t ∷ after) ≡ owns r t + (own r before + own r after)
unfolding own
own-middle r t [] after = ground arith
own-middle r t (u ∷ before) after = ground (arith, own-middle r t before after)

-- The queue that a thread was given is one of the server's.
abbrev pub Routed : Thread → Type 0
Routed idle = Unit
Routed (submitting queue_idx p) = queue_idx < num_queue_max
Routed (storing queue_idx p) = queue_idx < num_queue_max
Routed (taking queue_idx) = queue_idx < num_queue_max
Routed (holding p) = Unit
Routed (returning queue_idx p) = queue_idx < num_queue_max
Routed (returned queue_idx p) = queue_idx < num_queue_max
Routed (removing jobid q_idx) = q_idx < num_queue_max
Routed (marking jobid) = Unit
