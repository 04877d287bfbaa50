-- ===== src/Server/Dispatch.antt =====
-- sendJob, checkServerStatus and putJobBack of main_server.c.
pub mod Back
pub mod Laws
pub mod Turned
use distributed_queue_system.Base.{
  ℕ, ◌%◌, ◌^◌, Bool, true, false, List, [], ◌∷◌, ◌++◌, Option, none, some, ltb, ◌==◌, if◌then◌else◌,
}
use distributed_queue_system.Job.{Job, free}
use distributed_queue_system.History.{
  JobHistory, job_history_max, find_job, lookup_job, write_entry,
}
use distributed_queue_system.Proto.{type_code, ch_exec_ser_ack}
use distributed_queue_system.Proto.Memory.{Msg}
use distributed_queue_system.Proto.Getters.{get_type}
use distributed_queue_system.Proto.Setters.{
  set_check_exec_server, set_file_exec_no_inter, set_file_exec_inter,
}
use distributed_queue_system.Server.{
  MainServer, num_queue_max, next_put_queue, next_get_queue, put_section, take_section,
}
use distributed_queue_system.Transport.{Ret, ok, closed, failed}
use distributed_queue_system.Server.Reply.{
  Result, done, waits, fault, Env, Select, select_failed, timeout, readable, Peer,
}

-- What select reports of a socket: it waits for 5 seconds.
abbrev pub select_within : Option ℕ → Select
select_within none = select_failed
select_within (some seconds) = if ltb seconds 5 then readable else timeout

-- checkServerStatus: the peer takes the question, and its answer arrives in time and is an ACK.
unfoldable pub check_server_status : Peer → Bool
check_server_status peer = elim peer.check_sent [
  | ok ↦ elim (select_within peer.arrives) [
    | readable ↦ elim peer.ack_received [
      | ok ↦ get_type peer.ack == type_code ch_exec_ser_ack
      | closed ↦ false
      | failed ↦ false
    ]
    | timeout ↦ false
    | select_failed ↦ false
  ]
  | closed ↦ false
  | failed ↦ false
]

-- putJobBack's last section, with the job's id read through its pointer: a job that the history no
-- longer holds is freed, though it stands in the queue by now.
unfoldable pub back_section : ℕ → ℕ → MainServer → Option MainServer
back_section queue_idx p s = elim (s.heap p) [
  | none ↦ none
  | some job ↦ elim (lookup_job job.id s.history) [
    | none ↦ some (record s { heap = free s.heap p })
    | some _ ↦ some (record s {
      history =
          write_entry (find_job job.id s.history)
            (λ entry. record entry { queue_idx = queue_idx % 2 ^ 8 }) s.history;
    })
  ]
]

-- putJobBack, where sendJob then returns 0, after the messages `out`.
unfoldable pub put_job_back_in : List Msg → ℕ → ℕ × MainServer → Result
unfolding put_section
put_job_back_in out p (queue_idx, s) = elim (put_section queue_idx p s) [
  | none ↦ waits out s
  | some s₁ ↦ elim (back_section queue_idx p s₁) [ none ↦ fault | some s₂ ↦ done out false s₂ ]
]

unfoldable pub put_job_back : List Msg → ℕ → MainServer → Result
unfolding put_job_back_in
put_job_back out p s = put_job_back_in out p (next_put_queue s)

-- The message that carries a job.
unfoldable pub job_message : Msg → Job → Msg
job_message pkg job =
    if job.ipaddr == 0
    then set_file_exec_no_inter pkg job.exec_file job.working_dir job.id
    else set_file_exec_inter pkg job.exec_file job.working_dir job.ipaddr job.port job.id

-- sendJob once it has a job: the connection goes on exactly when it returns 1.
unfoldable pub hand_out : Env → Peer → ℕ → MainServer → Result
hand_out e peer p s =
    let check = set_check_exec_server peer.check_pkg in
    if check_server_status peer
    then elim (s.heap p) [
      | none ↦ fault
      | some job ↦
          let job_pkg = job_message e.pkg job in
          elim peer.job_sent [
            | ok ↦ done (check ∷ job_pkg ∷ []) true (record s { heap = free s.heap p })
            | closed ↦ put_job_back (check ∷ job_pkg ∷ []) p s
            | failed ↦ put_job_back (check ∷ job_pkg ∷ []) p s
          ]
    ]
    else put_job_back (check ∷ []) p s

unfoldable pub send_job_in : Env → Peer → ℕ × MainServer → Result
unfolding take_section
send_job_in e peer (queue_idx, s) = elim (take_section queue_idx s) [
  | none ↦ waits [] s
  | some (p, s₁) ↦ hand_out e peer p s₁
]

unfoldable pub send_job : Env → Peer → MainServer → Result
unfolding send_job_in
send_job e peer s = send_job_in e peer (next_get_queue s)
