-- ===== src/Server/Query.antt =====
-- jobState and queueState of main_server.c: the answer; neither changes the server.
pub mod Laws
use distributed_queue_system.Base.{ℕ, Bool, true, [], ◌∷◌, Option, none, some, leb, if◌then◌else◌}
use distributed_queue_system.Queue.{queue_state_code}
use distributed_queue_system.History.{lookup_job}
use distributed_queue_system.Proto.Memory.{Msg}
use distributed_queue_system.Proto.Setters.{set_bad_params, set_job_state, set_queue_state}
use distributed_queue_system.Server.{MainServer, num_queue_max}
use distributed_queue_system.Server.Reply.{Result, done, Env}

unfoldable pub job_state_reply : Msg → ℕ → MainServer → Msg
job_state_reply pkg jobid s = elim (lookup_job jobid s.history) [
  | none ↦ set_bad_params pkg
  | some job ↦ set_job_state pkg jobid job.state job.exit_status
]

unfoldable pub job_state : Env → ℕ → MainServer → Result
unfolding job_state_reply
job_state e jobid s = done (job_state_reply e.pkg jobid s ∷ []) true s

unfoldable pub queue_state_reply : Msg → ℕ → MainServer → Msg
queue_state_reply pkg queueid s =
    if leb num_queue_max queueid
    then set_bad_params pkg
    else set_queue_state pkg (queue_state_code (s.queue queueid).state) queueid

unfoldable pub queue_state : Env → ℕ → MainServer → Result
unfolding queue_state_reply
queue_state e queueid s = done (queue_state_reply e.pkg queueid s ∷ []) true s
