-- ===== src/Server/Attend.antt =====
-- One round of the loops of attendClient and attendExecServ of main_server.c.
pub mod Keeps
pub mod Laws
mod Tests
use distributed_queue_system.Base.{ℕ, true, false, ◌||◌, [], none, some, ◌==◌, if◌then◌else◌}
use distributed_queue_system.History.{change_state_job}
use distributed_queue_system.Proto.{
  type_code, sub_no_inter, sub_interactive, jobstate, questate, unsub, client_closed, job_req,
  job_run, job_done, job_sig, server_closed,
}
use distributed_queue_system.Proto.Memory.{Msg}
use distributed_queue_system.Proto.Getters.{
  get_type, get_job_id, get_queue_id, get_job_state_id, get_job_state_state,
  get_job_state_exit_value,
}
use distributed_queue_system.Server.{MainServer}
use distributed_queue_system.Transport.{Ret, ok, closed, failed}
use distributed_queue_system.Server.Reply.{Result, done, fault, Env, Peer}
use distributed_queue_system.Server.Submit.{submit_no_inter, submit_inter}
use distributed_queue_system.Server.Query.{job_state, queue_state}
use distributed_queue_system.Server.Unsubmit.{unsubmit}
use distributed_queue_system.Server.Dispatch.{send_job}

-- The switch of attendClient. An unknown type gets no answer.
unfoldable pub client_request : Env → Msg → MainServer → Result
client_request e pkg s =
    let type = get_type pkg in
    if type == type_code sub_no_inter
    then submit_no_inter e pkg s
    else if type == type_code sub_interactive
    then submit_inter e pkg s
    else if type == type_code jobstate
    then job_state e (get_job_id pkg) s
    else if type == type_code questate
    then queue_state e (get_queue_id pkg) s
    else if type == type_code unsub
    then unsubmit e (get_job_id pkg) s
    else if type == type_code client_closed
    then done [] false s
    else done [] true s

-- `pkg` is what recvMsg left in the message.
unfoldable pub attend_client : Env → Ret → Msg → MainServer → Result
unfolding client_request
attend_client e ok pkg s = client_request e pkg s
attend_client e closed pkg s = done [] false s
attend_client e failed pkg s = done [] false s

-- changeStateJob on the three values of a message; a failed assertion ends the server.
unfoldable pub change_state : Env → (jobid state exit_value : ℕ) → MainServer → Result
change_state e jobid state exit_value s =
    elim (change_state_job jobid state exit_value e.now s.history) [
      | none ↦ fault
      | some h ↦ done [] true (record s { history = h })
    ]

unfoldable pub report_state : Env → Msg → MainServer → Result
report_state e pkg s =
    change_state e (get_job_state_id pkg) (get_job_state_state pkg) (get_job_state_exit_value pkg) s

-- The switch of attendExecServ.
unfoldable pub server_request : Env → Peer → Msg → MainServer → Result
unfolding report_state
server_request e peer pkg s =
    let type = get_type pkg in
    if type == type_code job_req
    then send_job e peer s
    else if type == type_code job_run || type == type_code job_done || type == type_code job_sig
    then report_state e pkg s
    else if type == type_code server_closed
    then done [] false s
    else done [] true s

unfoldable pub attend_exec_serv : Env → Peer → Ret → Msg → MainServer → Result
unfolding server_request
attend_exec_serv e peer ok pkg s = server_request e peer pkg s
attend_exec_serv e peer closed pkg s = done [] false s
attend_exec_serv e peer failed pkg s = done [] false s
