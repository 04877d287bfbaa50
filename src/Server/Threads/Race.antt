-- ===== src/Server/Threads/Race.antt =====
-- A run in which putJobBack reads a job that another thread has freed.
use distributed_queue_system.Base.{
  ℕ, ◌+◌, ◌%◌, ◌^◌, ◌<◌, ◌≡◌, refl, List, [], ◌∷◌, none, some, arith,
}
use distributed_queue_system.Job.{free}
use distributed_queue_system.Queue.{unsigned_mod, count, stored, oldest, advanced}
use distributed_queue_system.Queue.Invariant
use distributed_queue_system.Queue.Steps.{put_job-Stored, take_job-Taken}
use distributed_queue_system.Server.{
  MainServer, set_queue, next_get_queue, next_get_queue_lem, put_section, take_section,
}
use distributed_queue_system.Server.Dispatch.{back_section}
use distributed_queue_system.Server.Threads.{
  Thread, idle, returning, returned, request, take, sent, put_back, System, step, Run, stop, go,
}

module _ (s : MainServer) (p : ℕ) (v : Invariant.IsValid (s.queue 0)) (z : count (s.queue 0) ≡ 0)
    (room : (s.queue 0).put_idx + 1 < unsigned_mod) where
  -- The servers after putJob, after the other thread is given a queue, and after it takes the job.
  abbrev put_server : MainServer
  put_server = set_queue s 0 (stored (s.queue 0) p)

  abbrev asked_server : MainServer
  asked_server = record put_server { queue2get = (s.queue2get + 1) % 2 ^ 32 }

  abbrev taken_server : MainServer
  taken_server = set_queue asked_server 0 (advanced (stored (s.queue 0) p))

  stores : put_section 0 p s ≡ some put_server
  unfolding put_section
  stores = ground (arith, (put_job-Stored (s.queue 0) p v (omega arith) room).returns)

  asks : next_get_queue put_server ≡ (0, asked_server)
  asks = next_get_queue_lem put_server

  takes : take_section 0 asked_server ≡ some (p, taken_server)
  unfolding take_section
  takes =
      let d =
        take_job-Taken (stored (s.queue 0) p)
          (put_job-Stored (s.queue 0) p v (omega arith) room).valid (omega arith) in
      ground (arith, d.returns, first)
    where
      first : oldest (stored (s.queue 0) p) ≡ p
      first = ground arith

  -- With a valid, empty queue and `put_idx` below its limit, from where a thread is about to put its job back while another is idle: the
  -- first puts it, the other takes it, sends it and frees it, and the first then reads the job's
  -- id through the pointer that was freed.
  pub put_job_back_races :
      (ts : List Thread)
      → (b : System) × Run 4 (record { server = s; threads = returning 0 p ∷ idle ∷ ts }) b
        × (b.threads ≡ returned 0 p ∷ idle ∷ ts)
        × (back_section 0 p b.server ≡ none)
  unfolding back_section
  put_job_back_races ts = (
    record {
      server = record taken_server { heap = free s.heap p };
      threads = returned 0 p ∷ idle ∷ ts;
    },
    go (step [] (idle ∷ ts) (put_back stores) (λ f. ground (arith, f.there))) (
        go (step (returned 0 p ∷ []) ts (request asks) (λ f. ground (arith, f.there))) (
          go (step (returned 0 p ∷ []) ts (take takes) (λ f. ground (arith, f.there)))
            (go (step (returned 0 p ∷ []) ts sent (λ f. ground (arith, f.there))) stop))),
    refl,
    ground arith,
  )
