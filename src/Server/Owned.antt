-- ===== src/Server/Owned.antt =====
-- The pointers of a queue: each leads to a live job, and no two are the same.
use distributed_queue_system.Base.{
  ℕ, ◌≡◌, ◌≢◌, List, [], ◌∷◌, ◌++◌, none, some, arith, update, All, All-append, All-append-left,
  All-append-right, All-mono, All-and, sym,
}
use distributed_queue_system.Job.{Job, Heap, free}

abbrev pub Live : Heap → ℕ → Type 0
Live heap p = heap p ≢ none

abbrev pub Distinct : List ℕ → Type 0
Distinct [] = Unit
Distinct (x ∷ xs) = All (λ y. x ≢ y) xs × Distinct xs

pub record Owned (heap : Heap) (xs : List ℕ) : Type 0 where
  pub live : All (Live heap) xs
  pub distinct : Distinct xs

Distinct-snoc : (xs : List ℕ) (p : ℕ) → Distinct xs → All (λ x. x ≢ p) xs → Distinct (xs ++ p ∷ [])
Distinct-snoc [] p d h = (tt, tt)
Distinct-snoc (x ∷ xs) p d h =
    (All-append (λ y. x ≢ y) xs (p ∷ []) d.0 (h.0, tt), Distinct-snoc xs p d.1 h.1)

Distinct-left : (xs ys : List ℕ) → Distinct (xs ++ ys) → Distinct xs
Distinct-left [] ys d = tt
Distinct-left (x ∷ xs) ys d = (All-append-left (λ y. x ≢ y) xs ys d.0, Distinct-left xs ys d.1)

Distinct-middle :
    (pre post : List ℕ) (p : ℕ)
    → Distinct (pre ++ p ∷ post)
    → Distinct (pre ++ post) × All (λ x. x ≢ p) (pre ++ post)
Distinct-middle [] post p d = (d.1, All-mono post (λ x n e. n (sym e)) d.0)
Distinct-middle (x ∷ pre) post p d =
    let r = Distinct-middle pre post p d.1 in
    (
      (
        All-append (λ y. x ≢ y) pre post (All-append-left (λ y. x ≢ y) pre (p ∷ post) d.0)
            (All-append-right (λ y. x ≢ y) pre (p ∷ post) d.0).1,
        r.0,
      ),
      ((All-append-right (λ y. x ≢ y) pre (p ∷ post) d.0).0, r.1),
    )

Live-middle :
    (heap : Heap) (pre post : List ℕ) (p : ℕ)
    → All (Live heap) (pre ++ p ∷ post)
    → All (Live heap) (pre ++ post)
Live-middle heap pre post p l =
    All-append (Live heap) pre post (All-append-left (Live heap) pre (p ∷ post) l)
      (All-append-right (Live heap) pre (p ∷ post) l).1

-- A block that is not in use, once it holds a job, joins at the end.
pub Owned-snoc_fresh :
    (heap : Heap) (xs : List ℕ) (p : ℕ) (job : Job)
    → heap p ≡ none
    → Owned heap xs
    → Owned (update heap p (some job)) (xs ++ p ∷ [])
Owned-snoc_fresh heap xs p job f o = record {
  live =
      All-append (Live (update heap p (some job))) xs (p ∷ [])
        (All-mono xs (λ x l. ground arith) o.live) ((ground arith), tt);
  distinct = Distinct-snoc xs p o.distinct (All-mono xs (λ x l. ground arith) o.live);
}

-- The oldest pointer goes to the end.
pub Owned-rotate :
    (heap : Heap) (xs : List ℕ) (p : ℕ) → Owned heap (p ∷ xs) → Owned heap (xs ++ p ∷ [])
Owned-rotate heap xs p o = record {
  live = All-append (Live heap) xs (p ∷ []) o.live.1 (o.live.0, tt);
  distinct = Distinct-snoc xs p o.distinct.1 (All-mono xs (λ x n e. n (sym e)) o.distinct.0);
}

-- A pointer leaves and its block is freed.
pub Owned-free :
    (heap : Heap) (pre post : List ℕ) (p : ℕ)
    → Owned heap (pre ++ p ∷ post)
    → Owned (free heap p) (pre ++ post)
Owned-free heap pre post p o =
    let d = Distinct-middle pre post p o.distinct in
    record {
      live = All-and (pre ++ post) (λ x l n. ground arith) (Live-middle heap pre post p o.live) d.1;
      distinct = d.0;
    }

-- The newest pointer leaves, and its block stays.
pub Owned-init : (heap : Heap) (xs : List ℕ) (p : ℕ) → Owned heap (xs ++ p ∷ []) → Owned heap xs
Owned-init heap xs p o = record {
  live = All-append-left (Live heap) xs (p ∷ []) o.live;
  distinct = Distinct-left xs (p ∷ []) o.distinct;
}
