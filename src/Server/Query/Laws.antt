-- ===== src/Server/Query/Laws.antt =====
-- What a client reads in the answers of jobState and queueState.
use distributed_queue_system.Base.{ℕ, ◌<◌, ◌≤◌, ◌≡◌, arith, ◌∙◌, length, ◌==◌, if◌then◌else◌, some}
use distributed_queue_system.Queue.{max_jobs_queue, queue_state_code}
use distributed_queue_system.Queue.Refine.{length-contents}
use distributed_queue_system.History.{JobHistory, lookup_job}
use distributed_queue_system.Proto.{bad_params, questate_resp, jobstate_resp}
use distributed_queue_system.Proto.Memory.{Msg}
use distributed_queue_system.Proto.Getters.{
  get_job_state_id, get_job_state_state, get_job_state_exit_value, get_queue_state_id,
  get_queue_state_state,
}
use distributed_queue_system.Proto.Setters.{set_bad_params}
use distributed_queue_system.Proto.RoundTrip.{
  Header, u8_mod, u16_mod, set_job_state_lem, set_queue_state_lem,
}
use distributed_queue_system.Server.{MainServer}
use distributed_queue_system.Server.Query.{job_state_reply, queue_state_reply}
use distributed_queue_system.Server.Invariant.{IsSound, queued}

set_bad_params_lem : (m : Msg) → Header (set_bad_params m) bad_params 5
unfolding set_bad_params
set_bad_params_lem m = omega arith

-- The answer about queue 0 says that it is full exactly when it holds 15 jobs.
pub queue_state_reply_full :
    (pkg : Msg) (s : MainServer)
    → IsSound s
    → Header (queue_state_reply pkg 0 s) questate_resp 7
      × (get_queue_state_id (queue_state_reply pkg 0 s) ≡ 0)
      × (get_queue_state_state (queue_state_reply pkg 0 s)
          ≡ (if length (queued s) == max_jobs_queue then 1 else 0))
unfolding queue_state_reply
queue_state_reply_full pkg s v =
    let (h, st, i) =
      set_queue_state_lem pkg (queue_state_code (s.queue 0).state) 0 (ground arith) (omega arith) in
    (h, i, st ∙ ground (arith, length-contents (s.queue 0)))

-- The answer about any other queue is that the parameters are bad.
pub queue_state_reply_bad :
    (pkg : Msg) (queueid : ℕ) (s : MainServer)
    → 1 ≤ queueid
    → Header (queue_state_reply pkg queueid s) bad_params 5
unfolding queue_state_reply
queue_state_reply_bad pkg queueid s h = ground (arith, set_bad_params_lem pkg)

-- The answer about a job carries the id, state and exit status of the history's record.
pub job_state_reply_held :
    (pkg : Msg) (jobid : ℕ) (s : MainServer) (entry : JobHistory)
    → lookup_job jobid s.history ≡ some entry
    → jobid < u16_mod
    → entry.state < u8_mod
    → entry.exit_status < u8_mod
    → Header (job_state_reply pkg jobid s) jobstate_resp 9
      × (get_job_state_id (job_state_reply pkg jobid s) ≡ jobid)
      × (get_job_state_state (job_state_reply pkg jobid s) ≡ entry.state)
      × (get_job_state_exit_value (job_state_reply pkg jobid s) ≡ entry.exit_status)
unfolding job_state_reply
job_state_reply_held pkg jobid s entry l a b c =
    rw (job_state_reply, l) (set_job_state_lem pkg jobid entry.state entry.exit_status a b c)
