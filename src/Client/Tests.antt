-- ===== src/Client/Tests.antt =====
-- The theorems on client.c with a server of two jobs.
use distributed_queue_system.Base.{◌≡◌, refl, true, [], ◌∷◌, none, some, arith}
use distributed_queue_system.History.{lookup_job, find_job, find_from}
use distributed_queue_system.Proto.{wait}
use distributed_queue_system.Proto.Memory.{Msg, strncpy}
use distributed_queue_system.Transport.{ok}
use distributed_queue_system.Server.{MainServer}
use distributed_queue_system.Server.Reply.{done}
use distributed_queue_system.Server.Attend.{attend_client}
use distributed_queue_system.Server.Submit.Laws.{Submitted}
use distributed_queue_system.Server.Sample.{
  job_with, entry_with, two_history, two_jobs, blank, env, two_jobs-IsSound, two_jobs-HasRoom,
}
use distributed_queue_system.Client.{
  get_args_submit, job_state_request, queue_state_request, job_submitted, job_state, show,
}
use distributed_queue_system.Client.Described.{described, job_state_end_to_end}
use distributed_queue_system.Client.EndToEnd.{
  shown_queue, queue_state_end_to_end, submit_end_to_end,
}

submit_end_to_end_example :
    (answer : Msg) × (s' : MainServer) × (attend_client env ok
        (get_args_submit blank (108 ∷ []) (47 ∷ []))
        two_jobs
      ≡ done (answer ∷ []) true s')
    × (show answer ≡ job_submitted 2)
    × Submitted env
        (record (job_with 9) {
          port = 0;
          ipaddr = 0;
          exec_file = strncpy 256 (108 ∷ []);
          working_dir = strncpy 256 (47 ∷ []);
        })
        two_jobs
        s'
submit_end_to_end_example =
    submit_end_to_end env blank (108 ∷ []) (47 ∷ []) two_jobs two_jobs-IsSound two_jobs-HasRoom refl
      (omega arith)

-- atoi gives 65537, whose lowest 16 bits are 1.
shown_one : described 1 (lookup_job 1 two_history) ≡ job_state 1 (some (wait, none))
unfolding lookup_job find_job find_from
shown_one = refl

held_one : lookup_job 1 two_history ≡ some (entry_with 1)
unfolding lookup_job find_job find_from
held_one = refl

job_state_end_to_end_example :
    (answer : Msg) × (attend_client env ok (job_state_request blank 65537) two_jobs
      ≡ done (answer ∷ []) true two_jobs)
    × (show answer ≡ described 1 (lookup_job 1 two_history))
job_state_end_to_end_example =
    job_state_end_to_end env blank 65537 two_jobs (λ entry l. ground (arith, held_one))

queue_state_end_to_end_example :
    (answer : Msg) × (attend_client env ok (queue_state_request blank 0) two_jobs
      ≡ done (answer ∷ []) true two_jobs)
    × (show answer ≡ shown_queue 0 two_jobs)
queue_state_end_to_end_example = queue_state_end_to_end env blank 0 two_jobs two_jobs-IsSound
