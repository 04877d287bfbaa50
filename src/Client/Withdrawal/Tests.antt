-- ===== src/Client/Withdrawal/Tests.antt =====
-- Job 1 of a server with two jobs is unsubmitted.
use distributed_queue_system.Base.{◌≡◌, refl, true, [], ◌∷◌, none, some, arith}
use distributed_queue_system.Job.{free}
use distributed_queue_system.Queue.Remove.Loops.{Other}
use distributed_queue_system.History.{lookup_job, find_job, find_from}
use distributed_queue_system.Proto.{unsubmited}
use distributed_queue_system.Proto.Memory.{Msg}
use distributed_queue_system.Transport.{ok}
use distributed_queue_system.Server.{MainServer}
use distributed_queue_system.Server.Reply.{done}
use distributed_queue_system.Server.Invariant.{IsSound, queued}
use distributed_queue_system.Server.Attend.{attend_client}
use distributed_queue_system.Server.Sample.{
  job_with, entry_with, two_heap, two_history, two_jobs, blank, env, two_jobs-IsSound,
}
use distributed_queue_system.Client.{
  unsubmit_request, job_state_request, job_unsubmited, job_state, show,
}
use distributed_queue_system.Client.Withdrawal.{unsubmit_then_state}

held_one : lookup_job 1 two_history ≡ some (entry_with 1)
unfolding lookup_job find_job find_from
held_one = refl

zero_Other : Other 1 two_heap 100
zero_Other = record { job = job_with 0; live = refl; other = omega arith }

unsubmit_then_state_example :
    (told shown : Msg) × (s' : MainServer) × (attend_client env ok
        (unsubmit_request blank 1)
        two_jobs
      ≡ done (told ∷ []) true s')
    × (show told ≡ job_unsubmited 1)
    × IsSound s'
    × (queued s' ≡ 100 ∷ [])
    × (s'.heap ≡ free two_heap 101)
    × (attend_client env ok (job_state_request blank 1) s' ≡ done (shown ∷ []) true s')
    × (show shown ≡ job_state 1 (some (unsubmited, none)))
unsubmit_then_state_example =
    unsubmit_then_state env env blank blank 1 two_jobs (100 ∷ []) [] 101 (job_with 1) (omega arith)
      two_jobs-IsSound (record { entry = entry_with 1; held = held_one; waits = refl })
      (omega arith) (omega arith) refl (zero_Other, tt) refl refl
