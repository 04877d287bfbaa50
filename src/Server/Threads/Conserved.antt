-- ===== src/Server/Threads/Conserved.antt =====
-- In every interleaving each job that came in is in the queue, with a thread, sent or taken out.
use distributed_queue_system.Base.{
  ℕ, ◌+◌, ◌-◌, ◌^◌, ◌≤◌, ◌<◌, ◌≡◌, refl, sym, ap, ◌∙◌, List, [], ◌∷◌, ◌++◌, arith, length,
  length-append, All,
}
use distributed_queue_system.Job.{Job, Heap}
use distributed_queue_system.Server.Reply.{Env}
use distributed_queue_system.Queue.{unsigned_mod}
use distributed_queue_system.Server.{
  MainServer, next_put_queue_lem, next_get_queue_lem, put_section, take_section, remove_section,
}
use distributed_queue_system.Server.Submit.{register}
use distributed_queue_system.Server.Invariant.{IsSound, queued}
use distributed_queue_system.Server.Threads.{
  Thread, idle, submitting, storing, taking, holding, returning, returned, removing, marking,
  register_section, Section, Forgets, submit, register_job, store, request, take, sent, unsent,
  put_back, settle, pick, remove, mark_job, report, System, Step, step, Run, stop, go,
}
use distributed_queue_system.Server.Threads.Moves.{
  Removed, nothing, freed, dropped, put_section-Stored, take_section-Taken, remove_section-Unqueued,
}
use distributed_queue_system.Server.Threads.Safe.{IsSafe, IsSafe-IsSound}
use distributed_queue_system.Server.Threads.Runs.{mark_section-written, back_section-written}
use distributed_queue_system.Server.Threads.Interleave.{
  IsOwned, thread_view, Step-IsOwned, init-IsOwned, IsIdle,
}
use distributed_queue_system.Server.Threads.Owns.{own}

-- Whether a thread has a job in its hand.
abbrev pub hand : Thread → ℕ
hand idle = 0
hand (submitting queue_idx p) = 1
hand (storing queue_idx p) = 1
hand (taking queue_idx) = 0
hand (holding p) = 1
hand (returning queue_idx p) = 1
hand (returned queue_idx p) = 0
hand (removing jobid q_idx) = 0
hand (marking jobid) = 0

abbrev pub in_hand : List Thread → ℕ
in_hand [] = 0
in_hand (t ∷ ts) = hand t + in_hand ts

in_hand-middle :
    (t : Thread) (before after : List Thread)
    → in_hand (before ++ t ∷ after) ≡ hand t + (in_hand before + in_hand after)
in_hand-middle t [] after = omega arith
in_hand-middle t (u ∷ before) after = omega (arith, in_hand-middle t before after)

-- How many jobs a section brings in, sends away, and takes out of the queue for good, and how many
-- calls of removeJob it makes.
pub record Tally : Type 0 where
  pub came : ℕ
  pub went : ℕ
  pub out : ℕ
  pub calls : ℕ

abbrev pub nothing_moved : Tally
nothing_moved = record { came = 0; went = 0; out = 0; calls = 0 }

abbrev pub tally : {t t' : Thread} {s s' : MainServer} → Section t s t' s' → Tally
tally (submit p job f e) = record nothing_moved { came = 1 }
tally (register_job e job h) = nothing_moved
tally (store e) = nothing_moved
tally (request e) = nothing_moved
tally (take e) = nothing_moved
tally sent = record nothing_moved { went = 1 }
tally (unsent e) = nothing_moved
tally (put_back e) = nothing_moved
tally (settle e) = nothing_moved
tally (pick jobid e) = nothing_moved
tally {s = s} {s' = s'} (remove e) = record nothing_moved {
  out = length (queued s) - length (queued s');
  calls = 1;
}
tally (mark_job e) = nothing_moved
tally (report jobid state exit_value now e) = nothing_moved

-- The jobs before and after a section, for the thread that makes it.
Balanced : {t t' : Thread} {s s' : MainServer} → Section t s t' s' → Type 0
Balanced {t = t} {t' = t'} {s = s} {s' = s'} c =
    (length (queued s) + hand t + (tally c).came
      ≡ length (queued s') + hand t' + (tally c).went + (tally c).out)
    × ((tally c).out ≤ (tally c).calls)

Removed-length :
    {heap heap' : Heap} {xs ys : List ℕ}
    → Removed heap xs heap' ys
    → (length ys ≤ length xs) × (length xs ≤ length ys + 1)
Removed-length (nothing h e) = omega (arith, ap length e)
Removed-length (freed pre post p h e e') =
    omega (arith, ap length e, ap length e', length-append pre (p ∷ post), length-append pre post)
Removed-length {ys = ys} (dropped p h e) = omega (arith, ap length e, length-append ys (p ∷ []))

queued-register_section :
    (e : Env) (q p : ℕ) (job : Job) (s : MainServer)
    → queued (register_section e q p job s) ≡ queued s
unfolding register_section register
queued-register_section e q p job s = refl

Section-Balanced :
    (n : ℕ) (rest : ℕ → ℕ) {t t' : Thread} {s s' : MainServer} (c : Section t s t' s')
    → ¬ Forgets t s
    → IsSafe (n + 1) rest t s
    → Balanced c
unfolding Balanced
Section-Balanced n rest {s = s} (submit p job f e) k v =
    omega (arith, ap (λ (x : ℕ × MainServer). length (queued x.1)) (sym (next_put_queue_lem s) ∙ e))
Section-Balanced n rest {s = s} (register_job {q} {p} e job h) k v =
    omega (arith, ap length (queued-register_section e q p job s))
Section-Balanced n rest {s = s} {s' = s'} (store {q = q} {p = p} e) k v =
    let (c, d) =
      put_section-Stored p s s' v.queue_valid (omega (arith, v.queue_room))
        (ap (λ j. put_section j p s) {y = q} (omega (arith, v.routed)) ∙ e) in
    omega
      (arith, ap (λ x. length (queued x)) c, ap length d.behind, length-append (queued s) (p ∷ []))
Section-Balanced n rest {s = s} (request e) k v =
    omega (arith, ap (λ (x : ℕ × MainServer). length (queued x.1)) (sym (next_get_queue_lem s) ∙ e))
Section-Balanced n rest {s = s} {s' = s'} (take {q = q} {p = p} e) k v =
    let (i, c, d) =
      take_section-Taken p s s' v.queue_valid
        (ap (λ j. take_section j s) {y = q} (omega (arith, v.routed)) ∙ e) in
    omega (arith, ap (λ x. length (queued x)) c, ap length d.front)
Section-Balanced n rest (sent {p = p}) k v = omega arith
Section-Balanced n rest {s = s} (unsent {p = p} e) k v =
    omega (arith, ap (λ (x : ℕ × MainServer). length (queued x.1)) (sym (next_put_queue_lem s) ∙ e))
Section-Balanced n rest {s = s} {s' = s'} (put_back {q = q} {p = p} e) k v =
    let (c, d) =
      put_section-Stored p s s' v.queue_valid (omega (arith, v.queue_room))
        (ap (λ j. put_section j p s) {y = q} (omega (arith, v.routed)) ∙ e) in
    omega
      (arith, ap (λ x. length (queued x)) c, ap length d.behind, length-append (queued s) (p ∷ []))
Section-Balanced n rest {s = s} {s' = s'} (settle {q = q} {p = p} e) k v =
    omega (arith, ap (λ x. length (queued x)) (back_section-written q p s s' e k).1)
Section-Balanced n rest (pick jobid e) k v = omega arith
Section-Balanced n rest {s = s} {s' = s'} (remove {jobid = jobid} {q = q} e) k v =
    let d =
      remove_section-Unqueued jobid s s' v.queue_valid
        (IsSafe-IsSound (n + 1) rest (removing jobid q) s v).owned.live
        (ap (λ j. remove_section jobid j s) {y = q} (omega (arith, v.routed)) ∙ e) in
    omega (arith, Removed-length d.moved)
Section-Balanced n rest {s = s} {s' = s'} (mark_job {jobid = jobid} e) k v =
    omega (arith, ap (λ x. length (queued x)) (mark_section-written jobid s s' e))
Section-Balanced n rest (report jobid state exit_value now e) k v = omega arith

abbrev pub both : Tally → Tally → Tally
both x y = record {
  came = x.came + y.came;
  went = x.went + y.went;
  out = x.out + y.out;
  calls = x.calls + y.calls;
}

-- The tallies of a step and of a run.
abbrev pub tally_step : {a b : System} → Step a b → Tally
tally_step (step before after c k) = tally c

abbrev pub tally_run : {n : ℕ} {a b : System} → Run n a b → Tally
tally_run stop = nothing_moved
tally_run (go st r) = both (tally_step st) (tally_run r)

-- The jobs in the queue and in the threads' hands.
abbrev pub jobs_in : System → ℕ
jobs_in a = length (queued a.server) + in_hand a.threads

-- No job is lost between two systems, and none comes from nowhere.
abbrev pub Kept : System → System → Tally → Type 0
Kept a b x = (jobs_in a + x.came ≡ jobs_in b + x.went + x.out) × (x.out ≤ x.calls)

Step-Kept : (n : ℕ) {a b : System} (st : Step a b) → IsOwned (n + 1) a → Kept a b (tally_step st)
unfolding Balanced
Step-Kept n (step {s} {s'} {t} {t'} before after c k) v =
    let (x, y) =
      Section-Balanced n (λ r. own r before + own r after) c k
        (thread_view (n + 1) t s before after v) in
    (omega (arith, x, in_hand-middle t before after, in_hand-middle t' before after), y)

Kept-both : (a b c : System) (x y : Tally) → Kept a b x → Kept b c y → Kept a c (both x y)
Kept-both a b c x y (h, i) (k, l) = (omega (arith, h, k), omega (arith, i, l))

Run-Kept : (n : ℕ) {a b : System} (r : Run n a b) → IsOwned n a → Kept a b (tally_run r)
Run-Kept n stop v = (omega arith, omega arith)
Run-Kept n (go {n = k} {a} {b} {c} st r) v =
    Kept-both a b c (tally_step st) (tally_run r) (Step-Kept k st v)
      (Run-Kept k r (Step-IsOwned k st v))

in_hand-IsIdle : (ts : List Thread) → All IsIdle ts → in_hand ts ≡ 0
in_hand-IsIdle [] a = refl
in_hand-IsIdle (t ∷ ts) a = omega (arith, ap hand a.0, in_hand-IsIdle ts a.1)

-- From a sound server with any number of idle threads, after any run of sections in any order, short
-- enough for the counters and in which putJobBack frees nothing: the jobs that waited at first and
-- those that newJob brought in since are as many as those that wait, that a thread has in its
-- hand, that were sent to an execution server, and that removeJob took out, of which there is at
-- most one for each of its calls.
pub interleaved_conservation :
    (n : ℕ) (s : MainServer) (ts : List Thread) (b : System)
    → IsSound s
    → All IsIdle ts
    → (s.queue 0).put_idx + n < unsigned_mod
    → s.history.history_putidx + n < 2 ^ 32
    → (r : Run n (record { server = s; threads = ts }) b)
    → (length (queued s) + (tally_run r).came
        ≡ length (queued b.server) + in_hand b.threads + (tally_run r).went + (tally_run r).out)
      × ((tally_run r).out ≤ (tally_run r).calls)
interleaved_conservation n s ts b v a hq hh r =
    let (x, y) = Run-Kept n r (init-IsOwned n s ts v a hq hh) in
    (omega (arith, x, in_hand-IsIdle ts a), y)
