-- ===== src/Server/Threads.antt =====
-- The threads of main_server.c, one for each connection: the sections that a mutex guards, in any
-- interleaving. What a thread does to memory that no other thread reaches goes with the section
-- next to it.
pub mod Owns
pub mod Moves
pub mod Safe
pub mod Local
pub mod Runs
pub mod Interleave
pub mod Conserved
pub mod Race
mod Tests
use distributed_queue_system.Base.{ℕ, ◌+◌, ◌≡◌, List, ◌∷◌, ◌++◌, none, some, update}
use distributed_queue_system.Job.{Job, free}
use distributed_queue_system.History.{History, lookup_job, change_state_job}
use distributed_queue_system.Server.{
  MainServer, next_put_queue, next_get_queue, put_section, take_section, remove_section,
}
use distributed_queue_system.Server.Reply.{Env}
use distributed_queue_system.Server.Submit.{register}
use distributed_queue_system.Server.Unsubmit.{waiting_queue, mark_section}
use distributed_queue_system.Server.Dispatch.{back_section}

-- Where a thread stands between two sections, with its local variables.
pub data Thread : Type 0 where
  -- outside every handler
  idle : Thread
  -- newJob, before it has an id, and before putJob
  submitting : (queue_idx p : ℕ) → Thread
  storing : (queue_idx p : ℕ) → Thread
  -- sendJob, before it takes a job, and while it holds one
  taking : (queue_idx : ℕ) → Thread
  holding : (p : ℕ) → Thread
  -- putJobBack, before putJob, and after it
  returning : (queue_idx p : ℕ) → Thread
  returned : (queue_idx p : ℕ) → Thread
  -- unsubmit, before removeJob, and after it
  removing : (jobid q_idx : ℕ) → Thread
  marking : (jobid : ℕ) → Thread

-- newJob's second section, with the id that it writes into its job.
unfoldable pub register_section : Env → (queue_idx p : ℕ) → Job → MainServer → MainServer
unfolding register
register_section e queue_idx p job s =
    let (id, s₁) = register e queue_idx job.ipaddr s in
    record s₁ { heap = update s₁.heap p (some (record job { id = id })) }

-- One section of one thread. A section that waits, or ends in a fault, has no step. `p` is fresh
-- from malloc where newJob starts.
pub data Section : Thread → MainServer → Thread → MainServer → Type 0 where
  submit :
      {s s' : MainServer} {q : ℕ} (p : ℕ) (job : Job)
      → s.heap p ≡ none
      → next_put_queue s ≡ (q, s')
      → Section idle s (submitting q p) (record s' { heap = update s'.heap p (some job) })
  register_job :
      {s : MainServer} {q p : ℕ} (e : Env) (job : Job)
      → s.heap p ≡ some job
      → Section (submitting q p) s (storing q p) (register_section e q p job s)
  store :
      {s s' : MainServer} {q p : ℕ} → put_section q p s ≡ some s' → Section (storing q p) s idle s'
  request : {s s' : MainServer} {q : ℕ} → next_get_queue s ≡ (q, s') → Section idle s (taking q) s'
  take :
      {s s' : MainServer} {q p : ℕ}
      → take_section q s ≡ some (p, s')
      → Section (taking q) s (holding p) s'
  -- The message was sent.
  sent : {s : MainServer} {p : ℕ} → Section (holding p) s idle (record s { heap = free s.heap p })
  -- The check failed, or the message could not be sent.
  unsent :
      {s s' : MainServer} {q p : ℕ}
      → next_put_queue s ≡ (q, s')
      → Section (holding p) s (returning q p) s'
  put_back :
      {s s' : MainServer} {q p : ℕ}
      → put_section q p s ≡ some s'
      → Section (returning q p) s (returned q p) s'
  settle :
      {s s' : MainServer} {q p : ℕ}
      → back_section q p s ≡ some s'
      → Section (returned q p) s idle s'
  pick :
      {s : MainServer} {q : ℕ} (jobid : ℕ)
      → waiting_queue jobid s ≡ some q
      → Section idle s (removing jobid q) s
  remove :
      {s s' : MainServer} {jobid q : ℕ}
      → remove_section jobid q s ≡ some s'
      → Section (removing jobid q) s (marking jobid) s'
  mark_job :
      {s s' : MainServer} {jobid : ℕ}
      → mark_section jobid s ≡ some s'
      → Section (marking jobid) s idle s'
  report :
      {s : MainServer} {h : History} (jobid state exit_value now : ℕ)
      → change_state_job jobid state exit_value now s.history ≡ some h
      → Section idle s idle (record s { history = h })

-- The server and its threads.
pub record System : Type 0 where
  pub server : MainServer
  pub threads : List Thread

-- Whether putJobBack's last section, if the thread is there, frees a job.
pub record Forgets (t : Thread) (s : MainServer) : Type 0 where
  pub q : ℕ
  pub p : ℕ
  pub job : Job
  pub there : t ≡ returned q p
  pub read : s.heap p ≡ some job
  pub forgotten : lookup_job job.id s.history ≡ none

-- A step of the system: a section of any one of its threads.
pub data Step : System → System → Type 0 where
  step :
      {s s' : MainServer} {t t' : Thread} (before after : List Thread)
      → Section t s t' s'
      → ¬ Forgets t s
      → Step
          (record { server = s; threads = before ++ t ∷ after })
          (record { server = s'; threads = before ++ t' ∷ after })

-- Runs by their number of steps, none of which frees a job in putJobBack.
pub data Run : ℕ → System → System → Type 0 where
  stop : {a : System} → Run 0 a a
  go : {n : ℕ} {a b c : System} → Step a b → Run n b c → Run (n + 1) a c
