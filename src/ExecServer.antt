-- ===== src/ExecServer.antt =====
-- exec_server.c: the protocol with the main server, and how the child splits the command line.
pub mod Protocol
pub mod Arguments
pub mod Words
pub mod Reports
pub mod Child
pub mod Main
pub mod Ends
pub mod Life
mod Tests
use distributed_queue_system.Base.{
  ℕ, ◌+◌, Bool, true, false, ◌||◌, List, [], ◌∷◌, ◌++◌, ◌==◌, if◌then◌else◌,
}
use distributed_queue_system.Transport.{Ret, ok, closed, failed}
use distributed_queue_system.Proto.{type_code, sendjob_nointer, sendjob_inter, ch_exec_ser}
use distributed_queue_system.Proto.Memory.{Msg}
use distributed_queue_system.Proto.Getters.{get_type, get_exec_jid, get_exec_addr_jid}
use distributed_queue_system.Proto.Setters.{
  set_job_req, set_check_exec_server_ack, set_job_run, set_job_done, set_job_signaled,
  set_closed_connection_exec_server,
}

-- What `wait` stores: the child's exit status, the signal that ended it, or neither.
pub data Status : Type 0 where
  exited : ℕ → Status
  killed : ℕ → Status
  other : Status

-- One message from the main server, and what happens while it is served: how recvMsg and the
-- sending of an ACK end, whether fork succeeds, and what becomes of the child. `raw` is the memory
-- of the messages that are set, and `other_seconds` what all but the sleep takes until an ACK is at
-- the main server.
pub record Round : Type 0 where
  pub received : Ret
  pub pkg : Msg
  pub raw : Msg
  pub ack_sent : Ret
  pub other_seconds : ℕ
  pub forked : Bool
  pub status : Status

-- How a call ends, after the messages that it handed to sendMsg: it returns 1 or 0, it waits for a
-- message, or an assertion fails.
pub data Served : Type 0 where
  returned : List Msg → Bool → Served
  blocked : List Msg → Served
  aborted : List Msg → Served

abbrev pub after : List Msg → Served → Served
after out (returned more flag) = returned (out ++ more) flag
after out (blocked more) = blocked (out ++ more)
after out (aborted more) = aborted (out ++ more)

-- fatherJobRoutine: the report that the job runs, and the one on how it ended. What sendMsg returns
-- changes nothing but a message on the terminal.
unfoldable pub father_job_routine : Round → ℕ → Served
father_job_routine round job_id = elim round.status [
  | exited code ↦
      returned (set_job_run round.raw job_id ∷ set_job_done round.raw job_id code ∷ []) true
  | killed signal ↦
      returned (set_job_run round.raw job_id ∷ set_job_signaled round.raw job_id signal ∷ []) true
  | other ↦ aborted (set_job_run round.raw job_id ∷ [])
]

-- The job's id, by the type of the message. exec_server_protocol calls this for two types only.
unfoldable pub job_id_of : Msg → ℕ
job_id_of pkg =
    if get_type pkg == type_code sendjob_nointer then get_exec_jid pkg else get_exec_addr_jid pkg

-- execJob in the parent, with exec_server_protocol_father and error_fork.
unfoldable pub exec_job : Round → Served
unfolding father_job_routine job_id_of
exec_job round =
    if round.forked
    then father_job_routine round (job_id_of round.pkg)
    else returned (set_job_done round.raw (job_id_of round.pkg) 41 ∷ []) true

-- sendAck: the answer, after how many seconds it is at the main server, of which it sleeps for 6, and
-- what sendMsg returned.
pub record Ack : Type 0 where
  pub message : Msg
  pub seconds : ℕ
  pub result : Ret

abbrev pub send_ack : Round → Ack
send_ack round = record {
  message = set_check_exec_server_ack round.raw;
  seconds = 6 + round.other_seconds;
  result = round.ack_sent;
}

-- exec_server_protocol, with ackRoutine, which calls it again for the next message.
unfoldable pub exec_server_protocol : List Round → Served
unfolding exec_job
exec_server_protocol [] = blocked []
exec_server_protocol (round ∷ rounds) = elim round.received [
  | ok ↦
      elim (get_type round.pkg == type_code sendjob_nointer
        || get_type round.pkg == type_code sendjob_inter) [
          | true ↦ exec_job round
          | false ↦ elim (get_type round.pkg == type_code ch_exec_ser) [
            | true ↦ elim (send_ack round).result [
              | ok ↦ after ((send_ack round).message ∷ []) (exec_server_protocol rounds)
              | closed ↦ returned ((send_ack round).message ∷ []) false
              | failed ↦ returned ((send_ack round).message ∷ []) false
            ]
            | false ↦ returned [] false
          ]
        ]
  | closed ↦ returned [] false
  | failed ↦ returned [] false
]

-- jobRequest
unfoldable pub job_request : Msg → Ret → List Round → Served
unfolding exec_server_protocol
job_request raw ok rounds = after (set_job_req raw ∷ []) (exec_server_protocol rounds)
job_request raw closed rounds = returned (set_job_req raw ∷ []) false
job_request raw failed rounds = returned (set_job_req raw ∷ []) false

-- closeConnecMain
unfoldable pub close_connec_main : Msg → Served
close_connec_main raw = returned (set_closed_connection_exec_server raw ∷ []) false
