-- ===== src/Server/Threads/Tests.antt =====
-- The theorems on interleavings at two connections.
use distributed_queue_system.Base.{ℕ, ◌+◌, ◌≤◌, ◌≡◌, ◌≢◌, refl, [], ◌∷◌, none, some, arith}
use distributed_queue_system.Job.{free}
use distributed_queue_system.Queue.{take_job}
use distributed_queue_system.Server.{MainServer, set_queue, next_get_queue, take_section}
use distributed_queue_system.Server.Invariant.{IsSound}
use distributed_queue_system.Server.Dispatch.{back_section}
use distributed_queue_system.Server.Sample.{two_queue, two_jobs, two_heap, two_jobs-IsSound}
use distributed_queue_system.Server.Threads.{
  idle, taking, returning, returned, request, take, sent, System, step, Run, stop, go,
}
use distributed_queue_system.Server.Threads.Owns.{occurs, own}
use distributed_queue_system.Server.Threads.Interleave.{interleaved_ownership}
use distributed_queue_system.Server.Threads.Conserved.{tally_run, interleaved_conservation}
use distributed_queue_system.Server.Threads.Race.{put_job_back_races}

abbrev asked_jobs : MainServer
asked_jobs = record two_jobs { queue2get = 1 }

abbrev one_job : MainServer
one_job = set_queue asked_jobs 0 (record two_queue { get_idx = 1 })

takes_first : take_section 0 asked_jobs ≡ some (100, one_job)
unfolding take_section take_job
takes_first = refl

-- One connection asks for a job and gets job 0; the other has asked.
abbrev served : System
served = record {
  server = record one_job { heap = free two_heap 100 };
  threads = idle ∷ taking 0 ∷ [];
}

serves :
    Run 4
      (record { server = two_jobs; threads = idle ∷ idle ∷ [] })
      (record served { server = record served.server { queue2get = 2 } })
unfolding next_get_queue
serves = go (step [] (idle ∷ []) (request refl) (λ f. ground (arith, f.there))) (
    go (step [] (idle ∷ []) (take {p = 100} takes_first) (λ f. ground (arith, f.there))) (
      go (step [] (idle ∷ []) sent (λ f. ground (arith, f.there)))
        (go (step (idle ∷ []) [] (request refl) (λ f. ground (arith, f.there))) stop)))

interleaved_ownership_example :
    IsSound (record served.server { queue2get = 2 })
    × ((p : ℕ) → occurs p (101 ∷ []) + own p (idle ∷ taking 0 ∷ []) ≤ 1)
    × ((p : ℕ)
        → 1 ≤ occurs p (101 ∷ []) + own p (idle ∷ taking 0 ∷ [])
        → free two_heap 100 p ≢ none)
interleaved_ownership_example =
    interleaved_ownership 4 two_jobs (idle ∷ idle ∷ [])
      (record served { server = record served.server { queue2get = 2 } }) two_jobs-IsSound
      (refl, (refl, tt)) (omega arith) (omega arith) serves

-- One job was sent; the other waits.
interleaved_conservation_example :
    (2 + (tally_run serves).came ≡ 1 + 0 + (tally_run serves).went + (tally_run serves).out)
    × ((tally_run serves).out ≤ (tally_run serves).calls)
interleaved_conservation_example =
    interleaved_conservation 4 two_jobs (idle ∷ idle ∷ [])
      (record served { server = record served.server { queue2get = 2 } }) two_jobs-IsSound
      (refl, (refl, tt)) (omega arith) (omega arith) serves

-- Job 0 is on its way back into an empty queue.
abbrev empty_queue : MainServer
empty_queue = record two_jobs { queue = λ i. record two_queue { put_idx = 0 } }

put_job_back_races_example :
    (b : System) × Run 4 (record { server = empty_queue; threads = returning 0 100 ∷ idle ∷ [] }) b
    × (b.threads ≡ returned 0 100 ∷ idle ∷ [])
    × (back_section 0 100 b.server ≡ none)
put_job_back_races_example = put_job_back_races empty_queue 100 (ground arith) refl (omega arith) []
