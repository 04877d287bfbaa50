-- ===== src/Server/Attend/Laws.antt =====
-- Whatever message comes, the switches of main_server.c leave a sound server.
use distributed_queue_system.Base.{
  ◌+◌, ◌<◌, ◌≡◌, ◌≢◌, [], Bool, true, false, none, some, arith, inl, inr, ◌⊎◌, eq-or-ne, lt-or-le,
}
use distributed_queue_system.Job.{Job}
use distributed_queue_system.Queue.{unsigned_mod, count}
use distributed_queue_system.History.{lookup_job}
use distributed_queue_system.Proto.Memory.{Msg}
use distributed_queue_system.Transport.{Ret, ok, closed, failed}
use distributed_queue_system.Server.{MainServer}
use distributed_queue_system.Server.Reply.{done, Env, Peer}
use distributed_queue_system.Server.Invariant.{IsSound, HasRoom}
use distributed_queue_system.Server.Submit.{
  new_job, submit_no_inter, no_inter_job, submit_inter, inter_job,
}
use distributed_queue_system.Server.Query.{job_state, queue_state}
use distributed_queue_system.Server.Unsubmit.{unsubmit}
use distributed_queue_system.Server.Attend.{
  client_request, attend_client, report_state, server_request, attend_exec_serv,
}
use distributed_queue_system.Server.Dispatch.{send_job}
use distributed_queue_system.Server.Dispatch.Laws.{first}
use distributed_queue_system.Proto.Getters.{get_type, get_queue_id, get_job_id}
use distributed_queue_system.Server.Attend.Keeps.{
  Keeps, at_end, ends, new_job-Keeps, unsubmit-Keeps, send_job-Keeps, report_state-Keeps,
}

-- The cases of attendClient's switch.
client_request_cases :
    (e : Env) (pkg : Msg) (s : MainServer)
    → (client_request e pkg s ≡ submit_no_inter e pkg s)
      ⊎ (client_request e pkg s ≡ submit_inter e pkg s)
      ⊎ (client_request e pkg s ≡ job_state e (get_job_id pkg) s)
      ⊎ (client_request e pkg s ≡ queue_state e (get_queue_id pkg) s)
      ⊎ (client_request e pkg s ≡ unsubmit e (get_job_id pkg) s)
      ⊎ ((flag : Bool) × (client_request e pkg s ≡ done [] flag s))
unfolding client_request
client_request_cases e pkg s = elim (eq-or-ne (get_type pkg) 17) [
  | inl z ↦ inr (inr (inr (inr (inr (false, ground (arith, z))))))
  | inr n ↦ elim (lt-or-le (get_type pkg) 2) [
    | inl lt ↦ ground arith
    | inr le ↦ elim (eq-or-ne (get_type pkg) 3) [
      | inl z ↦ ground (arith, z)
      | inr n₃ ↦ elim (eq-or-ne (get_type pkg) 5) [
        | inl z ↦ ground (arith, z)
        | inr n₅ ↦ elim (eq-or-ne (get_type pkg) 7) [
          | inl z ↦ ground (arith, z)
          | inr n₇ ↦ inr (inr (inr (inr (inr (true, ground arith)))))
        ]
      ]
    ]
  ]
]

-- The cases of attendExecServ's switch.
server_request_cases :
    (e : Env) (peer : Peer) (pkg : Msg) (s : MainServer)
    → (server_request e peer pkg s ≡ send_job e peer s)
      ⊎ (server_request e peer pkg s ≡ report_state e pkg s)
      ⊎ ((flag : Bool) × (server_request e peer pkg s ≡ done [] flag s))
unfolding server_request
server_request_cases e peer pkg s = elim (eq-or-ne (get_type pkg) 18) [
  | inl z ↦ inr (inr (false, ground (arith, z)))
  | inr n ↦ elim (lt-or-le (get_type pkg) 13) [
    | inl lt ↦ inr (inr (true, ground arith))
    | inr le ↦ elim (lt-or-le (get_type pkg) 17) [
      | inl lt ↦ ground arith
      | inr le' ↦ inr (inr (true, ground arith))
    ]
  ]
]

-- What attendClient's handlers leave, for each message that recvMsg can give, is a sound server, if
-- the server was sound, its counters are below their last values and the block for a job is fresh.
pub attend_client-Keeps :
    (e : Env) (ret : Ret) (pkg : Msg) (s : MainServer)
    → IsSound s
    → HasRoom s
    → s.heap e.addr ≡ none
    → Keeps (attend_client e ret pkg s)
unfolding attend_client submit_no_inter submit_inter job_state queue_state
attend_client-Keeps e ok pkg s v room fresh = elim (client_request_cases e pkg s) [
  | inl c ↦
      ends (new_job e (no_inter_job e pkg) s) c
        (new_job-Keeps e (no_inter_job e pkg) s v room fresh)
  | inr (inl c) ↦
      ends (new_job e (inter_job e pkg) s) c (new_job-Keeps e (inter_job e pkg) s v room fresh)
  | inr (inr (inl c)) ↦ ends (job_state e (get_job_id pkg) s) c (at_end v)
  | inr (inr (inr (inl c))) ↦ ends (queue_state e (get_queue_id pkg) s) c (at_end v)
  | inr (inr (inr (inr (inl c)))) ↦
      ends (unsubmit e (get_job_id pkg) s) c (unsubmit-Keeps e (get_job_id pkg) s v)
  | inr (inr (inr (inr (inr (flag, c))))) ↦ ends (done [] flag s) c (at_end v)
]
attend_client-Keeps e closed pkg s v room fresh = at_end v
attend_client-Keeps e failed pkg s v room fresh = at_end v

-- What attendExecServ's handlers leave, for each message that recvMsg can give and each behaviour of
-- the execution server, is a sound server, if the server was sound, `put_idx` is below its last
-- value, and the history holds the record of the oldest job, should there be one.
pub attend_exec_serv-Keeps :
    (e : Env) (peer : Peer) (ret : Ret) (pkg : Msg) (s : MainServer)
    → IsSound s
    → (s.queue 0).put_idx + 1 < unsigned_mod
    → (count (s.queue 0) ≢ 0
        → (job : Job) → s.heap (first s) ≡ some job
        → lookup_job job.id s.history ≢ none)
    → Keeps (attend_exec_serv e peer ret pkg s)
unfolding attend_exec_serv
attend_exec_serv-Keeps e peer ok pkg s v room held = elim (server_request_cases e peer pkg s) [
  | inl c ↦ ends (send_job e peer s) c (send_job-Keeps e peer s v room held)
  | inr (inl c) ↦ ends (report_state e pkg s) c (report_state-Keeps e pkg s v)
  | inr (inr (flag, c)) ↦ ends (done [] flag s) c (at_end v)
]
attend_exec_serv-Keeps e peer closed pkg s v room held = at_end v
attend_exec_serv-Keeps e peer failed pkg s v room held = at_end v
