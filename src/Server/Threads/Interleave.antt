-- ===== src/Server/Threads/Interleave.antt =====
-- Runs of the whole system: any number of threads, in any order of sections.
use distributed_queue_system.Base.{
  ℕ, ◌+◌, ◌^◌, ◌≤◌, ◌<◌, ◌≡◌, ◌≢◌, refl, List, [], ◌∷◌, ◌++◌, none, arith, All, All-append,
  All-append-left, All-append-right, eq-or-ne, inl, inr, subst, sym,
}
use distributed_queue_system.Queue.{unsigned_mod}
use distributed_queue_system.Server.{MainServer}
use distributed_queue_system.Server.Owned.{Live, Distinct}
use distributed_queue_system.Server.Invariant.{IsSound, queued}
use distributed_queue_system.Server.Threads.{Thread, idle, System, Step, step, Run, stop, go}
use distributed_queue_system.Server.Threads.Owns.{occurs, owns, own, own-middle, Routed}
use distributed_queue_system.Server.Threads.Safe.{IsSafe, IsSafe-IsSound}
use distributed_queue_system.Server.Threads.Runs.{Section-IsSafe}

-- What holds of the system while `n` more steps can be made before a counter is at its limit.
pub record IsOwned (n : ℕ) (a : System) : Type 0 where
  pub routed : All Routed a.threads
  pub safe : IsSafe n (λ r. own r a.threads) idle a.server

-- The same split of the pointers, seen from another thread.
view :
    (n : ℕ) (rest rest' : ℕ → ℕ) {t : Thread} (t' : Thread) {s : MainServer}
    → IsSafe n rest t s
    → Routed t'
    → ((r : ℕ) → owns r t' + rest' r ≡ owns r t + rest r)
    → IsSafe n rest' t' s
view n rest rest' t' v u e = record {
  queue_valid = v.queue_valid;
  history_valid = v.history_valid;
  queue_idx = v.queue_idx;
  queue_room = v.queue_room;
  history_room = v.history_room;
  routed = u;
  once = λ r. omega (arith, v.once r, e r);
  live = λ r le. v.live r (omega (arith, le, e r));
}

-- What holds for one of the threads.
pub thread_view :
    (n : ℕ) (t : Thread) (s : MainServer) (before after : List Thread)
    → IsOwned n (record { server = s; threads = before ++ t ∷ after })
    → IsSafe n (λ r. own r before + own r after) t s
unfolding owns
thread_view n t s before after v =
    view n (λ r. own r (before ++ t ∷ after)) (λ r. own r before + own r after) t v.safe
      (All-append-right Routed before (t ∷ after) v.routed).0
      (λ r. omega (arith, own-middle r t before after))

pub Step-IsOwned : (n : ℕ) {a b : System} → Step a b → IsOwned (n + 1) a → IsOwned n b
unfolding owns
Step-IsOwned n (step {s} {s'} {t} {t'} before after c k) v =
    let rest : ℕ → ℕ = λ r. own r before + own r after in
    let right = All-append-right Routed before (t ∷ after) v.routed in
    let w = Section-IsSafe n rest c k (thread_view (n + 1) t s before after v) in
    record {
      routed =
          All-append Routed before (t' ∷ after) (All-append-left Routed before (t ∷ after) v.routed)
            (w.routed, right.1);
      safe =
          view n rest (λ r. own r (before ++ t' ∷ after)) idle w tt
            (λ r. omega (arith, own-middle r t' before after));
    }

Run-IsOwned : (n : ℕ) {a b : System} → Run n a b → IsOwned n a → IsOwned 0 b
Run-IsOwned n stop v = v
Run-IsOwned n (go {n = k} st r) v = Run-IsOwned k r (Step-IsOwned k st v)

All-occurs : (P : ℕ → Type 0) (r : ℕ) (xs : List ℕ) → All P xs → 1 ≤ occurs r xs → P r
unfolding occurs
All-occurs P r [] a le = absurd (omega arith)
All-occurs P r (x ∷ xs) a le = elim (eq-or-ne x r) [
  | inl e ↦ subst P e a.0
  | inr n ↦ All-occurs P r xs a.1 (ground (arith, le))
]

Distinct-occurs : (r : ℕ) (xs : List ℕ) → Distinct xs → occurs r xs ≤ 1
unfolding occurs
Distinct-occurs r [] d = omega arith
Distinct-occurs r (x ∷ xs) d =
    ground (arith, Distinct-occurs r xs d.1, All-occurs (λ y. x ≢ y) r xs d.0)

abbrev pub IsIdle : Thread → Type 0
IsIdle t = t ≡ idle

own-IsIdle : (r : ℕ) (ts : List Thread) → All IsIdle ts → own r ts ≡ 0
unfolding own owns
own-IsIdle r [] a = refl
own-IsIdle r (t ∷ ts) a = rw a.0 (omega (arith, own-IsIdle r ts a.1))

Routed-IsIdle : (ts : List Thread) → All IsIdle ts → All Routed ts
Routed-IsIdle [] a = tt
Routed-IsIdle (t ∷ ts) a = (subst Routed (sym a.0) tt, Routed-IsIdle ts a.1)

pub init-IsOwned :
    (n : ℕ) (s : MainServer) (ts : List Thread)
    → IsSound s
    → All IsIdle ts
    → (s.queue 0).put_idx + n < unsigned_mod
    → s.history.history_putidx + n < 2 ^ 32
    → IsOwned n (record { server = s; threads = ts })
unfolding owns
init-IsOwned n s ts v a hq hh = record {
  routed = Routed-IsIdle ts a;
  safe = record {
    queue_valid = v.queue_valid;
    history_valid = v.history_valid;
    queue_idx = v.queue_idx;
    queue_room = hq;
    history_room = hh;
    routed = tt;
    once = λ r. omega (arith, Distinct-occurs r (queued s) v.owned.distinct, own-IsIdle r ts a);
    live = λ r le.
        All-occurs (Live s.heap) r (queued s) v.owned.live (omega (arith, le, own-IsIdle r ts a));
  };
}

-- From a sound server with any number of idle threads, after any run of sections in any order, short
-- enough for the counters and in which putJobBack frees nothing, the server is sound; each pointer
-- stands at most once in the queue and with the threads, all taken together, and leads to a live
-- job if it does.
pub interleaved_ownership :
    (n : ℕ) (s : MainServer) (ts : List Thread) (b : System)
    → IsSound s
    → All IsIdle ts
    → (s.queue 0).put_idx + n < unsigned_mod
    → s.history.history_putidx + n < 2 ^ 32
    → Run n (record { server = s; threads = ts }) b
    → IsSound b.server
      × ((p : ℕ) → occurs p (queued b.server) + own p b.threads ≤ 1)
      × ((p : ℕ) → 1 ≤ occurs p (queued b.server) + own p b.threads → b.server.heap p ≢ none)
unfolding owns
interleaved_ownership n s ts b v a hq hh r =
    let w = Run-IsOwned n r (init-IsOwned n s ts v a hq hh) in
    (
      IsSafe-IsSound 0 (λ p. own p b.threads) idle b.server w.safe,
      (λ p. omega (arith, w.safe.once p)),
      λ p le. w.safe.live p (omega (arith, le)),
    )
